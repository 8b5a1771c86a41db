-- ===== src/Pairing/Tlv/RoundTrip.antt =====
-- What `add_tlv` writes and `decode_tlv` makes of it.
use gwl_airplay.Base.{
  ℕ, zero, suc, ◌≤◌, ◌≡◌, refl, sym, ap, ◌∙◌, List, [], ◌∷◌, ◌++◌, arith, length, take, All,
  append_assoc, append-nil, take-append, drop-append, length-append, min, le→ltb,
}
use gwl_airplay.Pairing.Tlv.{Tlv, decode_loop, decode_tlv, chunks, add_tlv}
use gwl_airplay.Pairing.Tlv.Decode.{IsShort}

take_all : (n : ℕ) (xs : List ℕ) → length xs ≤ n → take n xs ≡ xs
take_all zero [] h = refl
take_all zero (x ∷ xs) h = absurd (omega arith)
take_all (suc n) [] h = refl
take_all (suc n) (x ∷ xs) h = ap (◌∷◌ x) (take_all n xs (omega arith))

-- A value of at most 255 bytes is one frame.
chunks_short :
    (fuel type : ℕ) (value : List ℕ)
    → length value ≤ 255
    → chunks fuel type value ≡ type ∷ length value ∷ value
unfolding chunks
chunks_short zero type value h = refl
chunks_short (suc fuel) type value h =
    let l : min 255 (length value) ≡ length value = omega (arith, h) in
    rw (le→ltb 255 (length value) h, append-nil, take_all 255 value h, l)

-- One frame at the head of the input.
decode_one :
    (fuel type : ℕ) (out : List Tlv) (value rest : List ℕ)
    → decode_loop (suc fuel) out (type ∷ length value ∷ (value ++ rest))
      ≡ decode_loop fuel (out ++ (record { type = type; value = value } ∷ [])) rest
unfolding decode_loop
decode_one fuel type out value rest =
    ground (arith, take-append value rest, drop-append value rest, length-append value rest)

-- Frames written one after the other, as `handle` does.
pub write_all : List ℕ → List Tlv → List ℕ
write_all out [] = out
write_all out (t ∷ ts) = write_all (add_tlv out t.type t.value) ts

abbrev frames : List Tlv → List ℕ
frames [] = []
frames (t ∷ ts) = t.type ∷ length t.value ∷ (t.value ++ frames ts)

write_all-frames :
    (out : List ℕ) (ts : List Tlv) → All IsShort ts → write_all out ts ≡ out ++ frames ts
unfolding write_all add_tlv
write_all-frames out [] h = sym (append-nil out)
write_all-frames out (t ∷ ts) (s, h) =
    write_all-frames (add_tlv out t.type t.value) ts h
    ∙ rw (chunks_short (length t.value) t.type t.value s)
        (append_assoc out (t.type ∷ length t.value ∷ t.value) (frames ts))

decode-frames :
    (fuel : ℕ) (out ts : List Tlv)
    → length (frames ts) ≤ fuel
    → decode_loop fuel out (frames ts) ≡ out ++ ts
decode-frames fuel out [] h = unfold decode_loop in sym (append-nil out)
decode-frames zero out (t ∷ ts) h = absurd (omega arith)
decode-frames (suc fuel) out (t ∷ ts) h =
    decode_one fuel t.type out t.value (frames ts)
    ∙ decode-frames fuel (out ++ (t ∷ [])) ts (omega (arith, length-append t.value (frames ts)))
    ∙ append_assoc out (t ∷ []) ts

-- Frames of at most 255 bytes each, written by `add_tlv`, are decoded to the same types and values in
-- the same order.
pub decode-write_all : (ts : List Tlv) → All IsShort ts → decode_tlv (write_all [] ts) ≡ ts
unfolding decode_tlv
decode-write_all ts h =
    rw (write_all-frames [] ts h) (decode-frames (length (frames ts)) [] ts (omega arith))
