-- ===== src/Pairing/Tlv/Decode.antt =====
-- What `decode_tlv` returns on any input.
use gwl_airplay.Base.{
  ℕ, zero, suc, ◌≤◌, ◌≡◌, refl, List, [], ◌∷◌, ◌++◌, some, arith, ltb, length, take, drop, All,
  All-append, All-drop, IsByte, Bool-cases, inl, inr, length-take, length-drop,
}
use gwl_airplay.Pairing.Tlv.{Tlv, decode_loop, decode_tlv, find_tlv}

-- A length that a TLV8 length byte can say.
abbrev pub IsShort : Tlv → Type 0
IsShort t = length t.value ≤ 255

decode_loop-IsShort :
    (fuel : ℕ) (out : List Tlv) (input : List ℕ)
    → All IsShort out
    → All IsByte input
    → All IsShort (decode_loop fuel out input)
unfolding decode_loop
decode_loop-IsShort fuel out [] h b = h
decode_loop-IsShort fuel out (t ∷ []) h b = tt
decode_loop-IsShort zero out (t ∷ n ∷ rest) h b = tt
decode_loop-IsShort (suc fuel) out (t ∷ n ∷ rest) h (bt, (bn, br)) =
    elim (Bool-cases (ltb (length rest) n)) [
      | inl e ↦ rw e tt
      | inr e ↦ rw e (
          decode_loop-IsShort fuel (out ++ (record { type = t; value = take n rest } ∷ []))
            (drop n rest) (All-append IsShort out _ h (omega (arith, length-take n rest), tt))
            (All-drop IsByte n rest br))
    ]

-- No value that comes out of a frame of bytes is longer than 255 bytes: fragments are not joined.
pub decode_tlv-IsShort : (input : List ℕ) → All IsByte input → All IsShort (decode_tlv input)
unfolding decode_tlv
decode_tlv-IsShort input b = decode_loop-IsShort (length input) [] input tt b

pub find_tlv-short :
    (ts : List Tlv) (type : ℕ) (v : List ℕ)
    → All IsShort ts
    → find_tlv ts type ≡ some v
    → length v ≤ 255
unfolding find_tlv
find_tlv-short [] type v h e = absurd (ground arith)
find_tlv-short (t ∷ ts) type v h e = ground (arith, find_tlv-short ts type v h.1)

-- More fuel than the input is long makes no difference: the loop ends by its own test.
pub decode_loop_fuel :
    (f g : ℕ) (out : List Tlv) (input : List ℕ)
    → length input ≤ f
    → length input ≤ g
    → decode_loop f out input ≡ decode_loop g out input
unfolding decode_loop
decode_loop_fuel f g out [] h k = refl
decode_loop_fuel f g out (t ∷ []) h k = refl
decode_loop_fuel zero g out (t ∷ n ∷ rest) h k = absurd (omega arith)
decode_loop_fuel (suc f) zero out (t ∷ n ∷ rest) h k = absurd (omega arith)
decode_loop_fuel (suc f) (suc g) out (t ∷ n ∷ rest) h k = ground (
  arith,
  decode_loop_fuel f g (out ++ (record { type = t; value = take n rest } ∷ [])) (drop n rest)
      (omega (arith, length-drop n rest)) (omega (arith, length-drop n rest)),
)
