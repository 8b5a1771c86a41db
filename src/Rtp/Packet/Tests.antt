-- ===== src/Rtp/Packet/Tests.antt =====
-- Datagrams parsed, and the theorems at concrete inputs.
use gwl_airplay.Base.{◌≡◌, refl, true, [], ◌∷◌, none, some, arith}
use gwl_airplay.Rtp.{RtpPacket}
use gwl_airplay.Rtp.Packet.{skip_extension, strip_padding, fields, parse}
use gwl_airplay.Rtp.Packet.Wire.{Wire, fixed_header, write}
use gwl_airplay.Rtp.Packet.RoundTrip.{parse-write}

abbrev sample : RtpPacket
sample = record {
  payload_type = 96;
  sequence = 0x1234;
  timestamp = 0xdeadbeef;
  ssrc = 0x01020304;
  marker = true;
  payload = 7 ∷ 8 ∷ 9 ∷ [];
}

-- One contributing source, an extension of one word, and two bytes of padding.
abbrev sample_wire : Wire
sample_wire = record {
  packet = sample;
  sources = 1;
  source_bytes = 5 ∷ 5 ∷ 5 ∷ 5 ∷ [];
  extension = some (record { profile = 0xbede; words = 1; content = 1 ∷ 2 ∷ 3 ∷ 4 ∷ [] });
  padding = 2;
}

parse-sample : parse (write sample_wire) ≡ some sample
unfolding parse write fixed_header skip_extension strip_padding fields
parse-sample = refl

-- Version 1, a cut header, and padding that is longer than the payload.
parse_refused :
    (parse (64 ∷ 96 ∷ 0 ∷ 0 ∷ 0 ∷ 0 ∷ 0 ∷ 0 ∷ 0 ∷ 0 ∷ 0 ∷ 0 ∷ []) ≡ none)
    × (parse (128 ∷ 96 ∷ []) ≡ none)
    × (parse (160 ∷ 96 ∷ 0 ∷ 0 ∷ 0 ∷ 0 ∷ 0 ∷ 0 ∷ 0 ∷ 0 ∷ 0 ∷ 0 ∷ 2 ∷ []) ≡ none)
unfolding parse skip_extension strip_padding fields
parse_refused = (refl, refl, refl)

parse-write_example : parse (write sample_wire) ≡ some sample
parse-write_example = parse-write sample_wire (omega arith)
