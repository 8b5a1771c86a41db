-- ===== src/Rtp/Packet/RoundTrip.antt =====
-- What a sender writes, by RFC 3550, section 5.1, is what `receive` reads.
use gwl_airplay.Base.{
  ℕ, zero, suc, ◌+◌, ◌-◌, ◌*◌, ◌/◌, ◌%◌, ◌≡◌, refl, sym, ap, ap₂, ◌∙◌, List, [], ◌∷◌, ◌++◌, Option,
  none, some, arith, length, ◌==◌, length-append, length-replicate, take, drop, replicate,
  append_assoc, take-append_of_eq, drop-append_of_eq, get_or-append_right, ltb, subst, inl, inr,
  Option-cases,
}
use native.Mathlib.Decide.{ℕ_discrete}
use gwl_airplay.Base.Words.{be16, be32}
use gwl_airplay.Rtp.Packet.{at, csrc_end, padding_of, fields, parse}
use gwl_airplay.Rtp.Packet.Bounds.{payload_start, IsPacket, parse_accepts}
use gwl_airplay.Rtp.Packet.Wire.{
  Extension, Wire, bit, has_extension, write_extension, write_padding, fixed_header, write,
  IsExtension, IsWire,
}

length-fixed : (w : Wire) → length (fixed_header w) ≡ 12
unfolding fixed_header
length-fixed w = refl

-- What stands before the payload.
prefix : Wire → List ℕ
prefix w = fixed_header w ++ (w.source_bytes ++ write_extension w.extension)

write-prefix : (w : Wire) → write w ≡ prefix w ++ (w.packet.payload ++ write_padding w.padding)
unfolding write prefix
write-prefix w = simp append_assoc

length-write_padding : (n : ℕ) → length (write_padding n) ≡ n
length-write_padding zero = refl
length-write_padding (suc n) =
    omega (arith, length-append (replicate n 0) (suc n ∷ []), length-replicate {A = ℕ} n 0)

length-write_extension :
    (x : Option Extension)
    → IsExtension x
    → length (write_extension x) ≡ elim x [ none ↦ 0 | some y ↦ 4 + y.words * 4 ]
length-write_extension none h = refl
length-write_extension (some x) h = omega arith

length-prefix :
    (w : Wire)
    → IsWire w
    → length (prefix w)
      ≡ 12 + w.sources * 4 + elim w.extension [ none ↦ 0 | some y ↦ 4 + y.words * 4 ]
unfolding prefix
length-prefix w h = omega (
  arith,
  length-append (fixed_header w) (w.source_bytes ++ write_extension w.extension),
  length-append w.source_bytes (write_extension w.extension),
  length-fixed w,
  h.source_length,
  length-write_extension w.extension h.extension_fits,
)

length-write :
    (w : Wire) → length (write w) ≡ length (prefix w) + length w.packet.payload + w.padding
length-write w = omega (
  arith,
  ap length (write-prefix w),
  length-append (prefix w) (w.packet.payload ++ write_padding w.padding),
  length-append w.packet.payload (write_padding w.padding),
  length-write_padding w.padding,
)

first_byte :
    (w : Wire)
    → at (write w) 0
      ≡ 128 + bit (ltb 0 w.padding) * 32 + bit (has_extension w.extension) * 16 + w.sources
unfolding write fixed_header
first_byte w = refl

csrc_end-write : (w : Wire) → IsWire w → csrc_end (write w) ≡ 12 + w.sources * 4
csrc_end-write w h = ground (arith, first_byte w, h.sources_fit)

extension_bit : (w : Wire) → IsWire w → at (write w) 0 / 16 % 2 ≡ bit (has_extension w.extension)
extension_bit w h = ground (arith, first_byte w, h.sources_fit)

at_after : (xs ys : List ℕ) (i k : ℕ) → k ≡ length xs + i → at (xs ++ ys) k ≡ at ys i
at_after xs ys i k e = rw e (get_or-append_right xs ys i 0)

-- What stands behind the contributing sources.
at-sources :
    (w : Wire) (i k : ℕ)
    → IsWire w
    → k ≡ csrc_end (write w) + i
    → at (write w) k
      ≡ at (write_extension w.extension ++ (w.packet.payload ++ write_padding w.padding)) i
unfolding write
at-sources w i k h e =
    let xs = fixed_header w ++ w.source_bytes in
    let l : length xs ≡ 12 + w.sources * 4 =
      omega
        (arith, length-append (fixed_header w) w.source_bytes, length-fixed w, h.source_length) in
    let s =
      append_assoc (fixed_header w) w.source_bytes
        (write_extension w.extension ++ (w.packet.payload ++ write_padding w.padding)) in
    ap (λ d. at d k) (sym s)
    ∙ at_after xs (write_extension w.extension ++ (w.packet.payload ++ write_padding w.padding)) i k
        (omega (arith, e, l, csrc_end-write w h))

-- The word count is read where it was written.
extension_words :
    (w : Wire) (x : Extension)
    → IsWire w
    → w.extension ≡ some x
    → be16 (at (write w) (csrc_end (write w) + 2)) (at (write w) (csrc_end (write w) + 3)) ≡ x.words
extension_words w x h e =
    let hi = at-sources w 2 (csrc_end (write w) + 2) h refl in
    let lo = at-sources w 3 (csrc_end (write w) + 3) h refl in
    let fits = subst IsExtension e h.extension_fits in rw (hi, lo, e) (omega (arith, fits))

last-write_padding :
    (n : ℕ) (xs : List ℕ) (k : ℕ) → k ≡ length xs + n → at (xs ++ write_padding (suc n)) k ≡ suc n
last-write_padding n xs k e =
    at_after xs (write_padding (suc n)) n k e
    ∙ at_after (replicate n 0) (suc n ∷ []) 0 n (omega (arith, length-replicate {A = ℕ} n 0))

last_byte : (w : Wire) (n : ℕ) → w.padding ≡ suc n → at (write w) (length (write w) - 1) ≡ suc n
last_byte w n e =
    let k = length (write w) - 1 in
    let front = prefix w ++ w.packet.payload in
    let s = sym (append_assoc (prefix w) w.packet.payload (write_padding w.padding)) in
    ap (λ d. at d k) (write-prefix w ∙ s)
    ∙ ap (λ m. at (front ++ write_padding m) k) e
    ∙ last-write_padding n front k
        (omega (arith, length-write w, length-append (prefix w) w.packet.payload, e))

padding_of-write : (w : Wire) → IsWire w → padding_of (write w) ≡ w.padding
padding_of-write w h = elim (ℕ_discrete w.padding 0) [
  | yes z ↦ ground (arith, first_byte w, h.sources_fit, z)
  | no nz ↦ ground (arith, first_byte w, h.sources_fit, last_byte w (w.padding - 1) (omega arith))
]

payload_start-write : (w : Wire) → IsWire w → payload_start (write w) ≡ length (prefix w)
payload_start-write w h = elim (Option-cases w.extension) [
  | inl e ↦ ground (arith, extension_bit w h, csrc_end-write w h, length-prefix w h, e)
  | inr (x, e) ↦
      ground (
        arith,
        extension_bit w h,
        csrc_end-write w h,
        length-prefix w h,
        extension_words w x h e,
        e,
      )
]

write-IsPacket : (w : Wire) → IsWire w → IsPacket (write w)
write-IsPacket w h = record {
  header = omega (arith, length-write w, length-prefix w h);
  version = ground (arith, first_byte w, h.sources_fit);
  sources = omega (arith, length-write w, length-prefix w h, csrc_end-write w h);
  extension = λ x.
      ground (arith, extension_bit w h, x, length-write w, length-prefix w h, csrc_end-write w h);
  content = omega (arith, payload_start-write w h, padding_of-write w h, length-write w);
}

payload-write :
    (w : Wire)
    → IsWire w
    → take (length (write w) - w.padding - length (prefix w)) (drop (length (prefix w)) (write w))
      ≡ w.packet.payload
payload-write w h =
    ap (λ d. take (length (write w) - w.padding - length (prefix w)) (drop (length (prefix w)) d))
      (write-prefix w)
    ∙ ap (take (length (write w) - w.padding - length (prefix w))) (
        drop-append_of_eq (length (prefix w)) (prefix w)
          (w.packet.payload ++ write_padding w.padding) refl)
    ∙ take-append_of_eq (length (write w) - w.padding - length (prefix w)) w.packet.payload
        (write_padding w.padding) (omega (arith, length-write w))

-- The fields of the fixed header.
header_fields :
    (w : Wire)
    → IsWire w
    → let d = write w in
      (at d 1 % 128 ≡ w.packet.payload_type)
      × ((at d 1 / 128 == 1) ≡ w.packet.marker)
      × (be16 (at d 2) (at d 3) ≡ w.packet.sequence)
      × (be32 (at d 4) (at d 5) (at d 6) (at d 7) ≡ w.packet.timestamp)
      × (be32 (at d 8) (at d 9) (at d 10) (at d 11) ≡ w.packet.ssrc)
unfolding write fixed_header
header_fields w h = (
  ground (arith, h.type_fits),
  ground (arith, h.type_fits),
  omega arith,
  omega arith,
  omega arith,
)

fields-write : (w : Wire) → IsWire w → fields (write w) (length (prefix w)) w.padding ≡ w.packet
unfolding fields
fields-write w h = λ i. record {
  payload_type = f.0 i;
  sequence = f.2 i;
  timestamp = f.3 i;
  ssrc = f.4 i;
  marker = f.1 i;
  payload = payload-write w h i;
}
  where
    f :
        let d = write w in
        (at d 1 % 128 ≡ w.packet.payload_type)
        × ((at d 1 / 128 == 1) ≡ w.packet.marker)
        × (be16 (at d 2) (at d 3) ≡ w.packet.sequence)
        × (be32 (at d 4) (at d 5) (at d 6) (at d 7) ≡ w.packet.timestamp)
        × (be32 (at d 8) (at d 9) (at d 10) (at d 11) ≡ w.packet.ssrc)
    f = header_fields w h

-- The packet that a sender writes, with any contributing sources, header extension and padding, is the
-- packet that `receive` returns.
pub parse-write : (w : Wire) → IsWire w → parse (write w) ≡ some w.packet
parse-write w h =
    parse_accepts (write w) (write-IsPacket w h)
    ∙ ap some
        (ap₂ (fields (write w)) (payload_start-write w h) (padding_of-write w h) ∙ fields-write w h)
