-- ===== src/Pairing/Tlv.antt =====
-- src/airplay_pairing.cpp, the TLV8 codec: decode_tlv, find_tlv and add_tlv.
pub mod Decode
pub mod RoundTrip
mod Tests
use gwl_airplay.Base.{
  ℕ, zero, suc, ◌-◌, min, List, [], ◌∷◌, ◌++◌, Option, none, some, ltb, ◌==◌, if◌then◌else◌, length,
  take, drop,
}

-- `struct Tlv`
pub record Tlv : Type 0 where
  pub type : ℕ
  pub value : List ℕ

-- The loop of `decode_tlv`, on what `p` has not passed. The empty list is also what the source
-- returns for a frame that is cut. Each round takes two bytes at least, so that a fuel of the input's
-- length is enough.
unfoldable pub decode_loop : ℕ → List Tlv → List ℕ → List Tlv
decode_loop fuel out [] = out
decode_loop fuel out (t ∷ []) = []
decode_loop zero out (t ∷ n ∷ rest) = []
decode_loop (suc fuel) out (t ∷ n ∷ rest) =
    let more =
      decode_loop fuel (out ++ (record { type = t; value = take n rest } ∷ [])) (drop n rest) in
    if ltb (length rest) n then [] else more

unfoldable pub decode_tlv : List ℕ → List Tlv
decode_tlv input = decode_loop (length input) [] input

unfoldable pub find_tlv : List Tlv → ℕ → Option (List ℕ)
find_tlv [] type = none
find_tlv (t ∷ ts) type = if t.type == type then some t.value else find_tlv ts type

-- The do-while loop of `add_tlv`, on what `off` has not passed: chunks of at most 255 bytes, one at
-- least. Every further chunk follows 255 bytes, so that a fuel of the value's length is enough.
unfoldable pub chunks : ℕ → ℕ → List ℕ → List ℕ
chunks zero type value = type ∷ length value ∷ value
chunks (suc fuel) type value =
    let rest = chunks fuel type (drop 255 value) in
    type
    ∷ min 255 (length value)
    ∷ (take 255 value ++ (if ltb 255 (length value) then rest else []))

unfoldable pub add_tlv : List ℕ → ℕ → List ℕ → List ℕ
add_tlv out type value = out ++ chunks (length value) type value
