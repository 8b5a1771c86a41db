-- ===== src/Rtp/Packet/Bounds.antt =====
-- Which datagrams are packets, and which bytes of them are read.
use gwl_airplay.Base.{
  ℕ, ◌^◌, sym, ap, ◌∙◌, ◌+◌, ◌-◌, ◌*◌, ◌/◌, ◌%◌, ◌≤◌, ◌<◌, ◌≡◌, ◌↔◌, List, some, arith, length, All,
  IsByte, ◌==◌, if◌then◌else◌, length-take, length-drop, drop, get_or-All,
}
use gwl_airplay.Base.Words.{be16}
use gwl_airplay.Rtp.{RtpPacket}
use gwl_airplay.Rtp.Packet.{at, csrc_end, skip_extension, padding_of, fields, strip_padding, parse}

-- Where the payload of a well-formed datagram begins.
abbrev pub payload_start : List ℕ → ℕ
payload_start d =
    if at d 0 / 16 % 2 == 1
    then csrc_end d + 4 + be16 (at d (csrc_end d + 2)) (at d (csrc_end d + 3)) * 4
    else csrc_end d

-- RFC 3550, section 5.1: version 2, and room for the fixed header, the contributing sources, the
-- extension and the padding.
pub record IsPacket (d : List ℕ) : Type 0 where
  pub header : 12 ≤ length d
  pub version : at d 0 / 64 ≡ 2
  pub sources : csrc_end d ≤ length d
  pub extension : at d 0 / 16 % 2 ≡ 1 → csrc_end d + 4 ≤ length d
  pub content : payload_start d + padding_of d ≤ length d

-- A well-formed datagram is parsed into its fields.
pub parse_accepts :
    (d : List ℕ) → IsPacket d → parse d ≡ some (fields d (payload_start d) (padding_of d))
unfolding parse skip_extension strip_padding
parse_accepts d w = ground arith

-- Only well-formed datagrams are parsed: every length check of RFC 3550 is made.
pub parse_only : (d : List ℕ) {p : RtpPacket} → parse d ≡ some p → IsPacket d
unfolding parse skip_extension strip_padding
parse_only d e = record {
  header = ground arith;
  version = ground arith;
  sources = ground arith;
  extension = λ x. ground arith;
  content = ground arith;
}

-- `receive` returns a packet exactly for the well-formed datagrams, and then it is the packet with the
-- fields of the header and the bytes between the header and the padding.
pub parse_iff :
    (d : List ℕ) (p : RtpPacket)
    → (parse d ≡ some p) ↔ (IsPacket d × (p ≡ fields d (payload_start d) (padding_of d)))
parse_iff d p = (
  λ e. (parse_only d e, some_inj (sym e ∙ parse_accepts d (parse_only d e))),
  λ (w, e). parse_accepts d w ∙ ap some (sym e),
)
  where
    some_inj : {a b : RtpPacket} → some a ≡ some b → a ≡ b
    some_inj q = cc

-- Of bytes, `receive` makes fields within the width of their C++ types, and the payload, the header and
-- the padding make up the datagram.
pub parse_bounds :
    (d : List ℕ) (p : RtpPacket)
    → All IsByte d
    → parse d ≡ some p
    → (p.payload_type < 128)
      × (p.sequence < 2 ^ 16)
      × (p.timestamp < 2 ^ 32)
      × (p.ssrc < 2 ^ 32)
      × (payload_start d + length p.payload + padding_of d ≡ length d)
unfolding fields
parse_bounds d p h e =
    let (w, q) = (parse_iff d p).0 e in
    let b : (i : ℕ) → at d i < 256 = λ i. get_or-All IsByte d i 0 h (omega arith) in
    rw q (
      omega arith,
      omega (arith, b 2, b 3),
      omega (arith, b 4, b 5, b 6, b 7),
      omega (arith, b 8, b 9, b 10, b 11),
      omega (
        arith,
        w.content,
        length-take (length d - padding_of d - payload_start d) (drop (payload_start d) d),
        length-drop (payload_start d) d,
      ),
    )
