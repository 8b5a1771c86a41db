-- ===== src/Rtp/Packet.antt =====
-- src/rtp.cpp, RtpReceiver::receive: from a datagram to an RtpPacket. A datagram is the bytes that
-- recvfrom stored, so `received` is its length; the buffer's other bytes are never read, as Bounds
-- shows. Masks and shifts on a byte are `/` and `%` by powers of two.
pub mod Bounds
pub mod Wire
pub mod RoundTrip
mod Tests
use gwl_airplay.Base.{
  ℕ, ◌+◌, ◌-◌, ◌*◌, ◌/◌, ◌%◌, Bool, true, false, not, ◌||◌, List, Option, none, some, ltb, ◌==◌,
  if◌then◌else◌, length, get_or, take, drop,
}
use gwl_airplay.Base.Words.{be16, be32}
use gwl_airplay.Rtp.{RtpPacket}

-- `buffer[i]`
abbrev pub at : List ℕ → ℕ → ℕ
at d i = get_or d i 0

-- `offset` behind the fixed header and the contributing sources.
abbrev pub csrc_end : List ℕ → ℕ
csrc_end d = 12 + at d 0 % 16 * 4

-- The `if (extension)` block: `offset` behind the header extension.
pub skip_extension : List ℕ → ℕ → Option ℕ
skip_extension d offset =
    if ltb (length d) (offset + 4)
    then none
    else let next = offset + (4 + be16 (at d (offset + 2)) (at d (offset + 3)) * 4) in
      if ltb (length d) next then none else some next

-- `padding`, 0 without the padding bit.
abbrev pub padding_of : List ℕ → ℕ
padding_of d = if at d 0 / 32 % 2 == 1 then at d (length d - 1) else 0

-- The fields, with the payload between `offset` and the padding.
pub fields : List ℕ → ℕ → ℕ → RtpPacket
fields d offset padding = record {
  payload_type = at d 1 % 128;
  sequence = be16 (at d 2) (at d 3);
  timestamp = be32 (at d 4) (at d 5) (at d 6) (at d 7);
  ssrc = be32 (at d 8) (at d 9) (at d 10) (at d 11);
  marker = at d 1 / 128 == 1;
  payload = take (length d - padding - offset) (drop offset d);
}

-- The code from `const std::size_t padding` on.
pub strip_padding : List ℕ → ℕ → Option RtpPacket
strip_padding d offset =
    if ltb (length d - offset) (padding_of d) then none else some (fields d offset (padding_of d))

after_csrc : List ℕ → Option ℕ → Option RtpPacket
after_csrc d none = none
after_csrc d (some offset) = strip_padding d offset

-- `none` is `return false`, and the caller's packet is then unchanged.
pub parse : List ℕ → Option RtpPacket
unfolding after_csrc
parse d =
    if ltb (length d) 12
    then none
    else if not (at d 0 / 64 == 2)
    then none
    else if ltb (length d) (csrc_end d)
    then none
    else after_csrc d
        (if at d 0 / 16 % 2 == 1 then skip_extension d (csrc_end d) else some (csrc_end d))
