-- ===== src/Crypto/Decode.antt =====
-- Hexadecimal text: what it decodes to, and that it is base64 text as well.
use gwl_airplay.Base.{
  ℕ, ◌+◌, ◌*◌, ◌/◌, ◌%◌, ◌^◌, ◌-◌, ◌||◌, not, leb, ◌≤◌, ◌<◌, ◌≡◌, refl, ◌∙◌, true, false, List, [],
  ◌∷◌, some, arith, All, IsByte, length, is_some, ltb, ◌==◌, if◌then◌else◌, length-append,
  Option-cases, Bool-cases, inl, inr,
}
use gwl_airplay.Text.{isspace}
use gwl_airplay.Crypto.{
  hex_value, hex_loop, decode_hex, base64_value, six_bits, base64_loop, decode_base64, key_of,
  isspace,
}

abbrev pub IsHex : ℕ → Type 0
IsHex c = is_some (hex_value c) ≡ true

abbrev pub digit : ℕ → ℕ
digit n = if ltb n 10 then 48 + n else 87 + n

abbrev pub write_hex : List ℕ → List ℕ
write_hex [] = []
write_hex (b ∷ bs) = digit (b / 16) ∷ digit (b % 16) ∷ write_hex bs

hex_value-digit : (n : ℕ) → n < 16 → hex_value (digit n) ≡ some n
hex_value-digit n h = ground arith

hex_loop-write_hex : (bs : List ℕ) → All IsByte bs → hex_loop (write_hex bs) ≡ some bs
unfolding hex_loop
hex_loop-write_hex [] h = refl
hex_loop-write_hex (b ∷ bs) (p, h) =
    let e : b / 16 * 16 + b % 16 ≡ b = omega arith in
    rw
      (
        hex_value-digit (b / 16) (omega (arith, p)),
        hex_value-digit (b % 16) (omega arith),
        hex_loop-write_hex bs h,
        e,
      )
      refl

write_hex-even : (bs : List ℕ) → length (write_hex bs) ≡ 2 * length bs
write_hex-even [] = omega arith
write_hex-even (b ∷ bs) = omega (arith, write_hex-even bs)

even_guard : (n m : ℕ) → 0 < m → n ≡ 2 * m → ((n == 0) || not (n % 2 == 0)) ≡ false
even_guard n m p e = ground arith

-- Bytes, one at least, that are written in hexadecimal are decoded to themselves.
pub decode_hex-write_hex :
    (bs : List ℕ) → 0 < length bs → All IsByte bs → decode_hex (write_hex bs) ≡ some bs
unfolding decode_hex
decode_hex-write_hex bs n h =
    rw
      (
        even_guard (length (write_hex bs)) (length bs) n (write_hex-even bs),
        hex_loop-write_hex bs h,
      )
      refl

hex-base64 :
    (c : ℕ)
    → IsHex c
    → (isspace c ≡ false) × ((c == 61) ≡ false) × (is_some (base64_value c) ≡ true)
hex-base64 c h = (ground arith, ground arith, ground arith)

-- Six bits more, and fewer than eight that wait.
six_bits_count :
    (v buffer bits : ℕ) (out : List ℕ)
    → bits < 8
    → ((six_bits v buffer bits out).1 < 8)
      × (length (six_bits v buffer bits out).2 * 8 + (six_bits v buffer bits out).1
          ≡ length out * 8 + bits + 6)
six_bits_count v buffer bits out b = elim (Bool-cases (leb 8 (bits + 6))) [
  | inl e ↦ rw e (
    omega (arith, b),
    ground (arith, length-append out ((buffer * 64 + v) % 2 ^ 32 / 2 ^ (bits + 6 - 8) % 256 ∷ [])),
  )
  | inr e ↦ rw e (ground arith, omega arith)
]

base64_loop-value :
    (c : ℕ) (text : List ℕ) (buffer bits : ℕ) (out : List ℕ) (v : ℕ)
    → isspace c ≡ false
    → (c == 61) ≡ false
    → base64_value c ≡ some v
    → base64_loop (c ∷ text) buffer bits out
      ≡ base64_loop text
          (six_bits v buffer bits out).0
          (six_bits v buffer bits out).1
          (six_bits v buffer bits out).2
unfolding base64_loop
base64_loop-value c text buffer bits out v s q e = rw (base64_loop, s, q, e) refl

-- All the bits of a hexadecimal text go into bytes, but for seven at most.
base64_loop-hex :
    (text : List ℕ) (buffer bits : ℕ) (out : List ℕ)
    → bits < 8
    → All IsHex text
    → (r : List ℕ) × (base64_loop text buffer bits out ≡ some r)
      × (length out * 8 + bits + 6 * length text ≤ length r * 8 + 7)
unfolding base64_loop
base64_loop-hex [] buffer bits out b h = (out, refl, omega (arith, b))
base64_loop-hex (c ∷ text) buffer bits out b (p, h) =
    let (s, q, i) = hex-base64 c p in
    elim (Option-cases (base64_value c)) [
      | inl e ↦ absurd (ground arith)
      | inr (v, e) ↦
          let (b', n) = six_bits_count v buffer bits out b in
          let (buffer', bits', out') = six_bits v buffer bits out in
          let (r, f, l) = base64_loop-hex text buffer' bits' out' b' h in
          (r, base64_loop-value c text buffer bits out v s q e ∙ f, omega (arith, l, n))
    ]

-- A key of two hexadecimal digits or more is decoded as base64: the hexadecimal decoding of it is never
-- used.
pub key_of-hex :
    (text : List ℕ)
    → 2 ≤ length text
    → All IsHex text
    → (key_of text ≡ decode_base64 text) × (is_some (decode_base64 text) ≡ true)
unfolding key_of decode_base64
key_of-hex text n h =
    let (r, e, l) = base64_loop-hex text 0 0 [] (omega arith) h in
    let none_empty : (length r == 0) ≡ false = ground (arith, l) in
    let there : (length text == 0) ≡ false = ground arith in rw (e, none_empty, there) (refl, refl)
