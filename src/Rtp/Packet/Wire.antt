-- ===== src/Rtp/Packet/Wire.antt =====
-- RFC 3550, section 5.1, seen from the sender: a packet with what surrounds it on the wire.
use gwl_airplay.Base.{
  ℕ, zero, suc, ◌+◌, ◌*◌, ◌<◌, ◌≡◌, Bool, true, false, List, [], ◌∷◌, ◌++◌, Option, none, some,
  length, replicate, ltb,
}
use gwl_airplay.Base.Words.{bytes16, bytes32}
use gwl_airplay.Rtp.{RtpPacket}

-- A header extension: its profile number and its words, as bytes.
pub record Extension : Type 0 where
  pub profile : ℕ
  pub words : ℕ
  pub content : List ℕ

-- A packet with what `receive` drops of it. `padding` counts the padding bytes, 0 for none.
pub record Wire : Type 0 where
  pub packet : RtpPacket
  pub sources : ℕ
  pub source_bytes : List ℕ
  pub extension : Option Extension
  pub padding : ℕ

abbrev pub bit : Bool → ℕ
bit true = 1
bit false = 0

abbrev pub has_extension : Option Extension → Bool
has_extension none = false
has_extension (some x) = true

abbrev pub write_extension : Option Extension → List ℕ
write_extension none = []
write_extension (some x) = bytes16 x.profile ++ (bytes16 x.words ++ x.content)

abbrev pub write_padding : ℕ → List ℕ
write_padding zero = []
write_padding (suc n) = replicate n 0 ++ (suc n ∷ [])

-- The first twelve bytes.
unfoldable pub fixed_header : Wire → List ℕ
fixed_header w =
    (128 + bit (ltb 0 w.padding) * 32 + bit (has_extension w.extension) * 16 + w.sources)
    ∷ (bit w.packet.marker * 128 + w.packet.payload_type)
    ∷ (bytes16 w.packet.sequence ++ (bytes32 w.packet.timestamp ++ bytes32 w.packet.ssrc))

unfoldable pub write : Wire → List ℕ
write w =
    fixed_header w
    ++ (w.source_bytes
        ++ (write_extension w.extension ++ (w.packet.payload ++ write_padding w.padding)))

abbrev pub IsExtension : Option Extension → Type 0
IsExtension none = Unit {0}
IsExtension (some x) = (x.words < 65536) × (length x.content ≡ x.words * 4)

-- The fields fit their places, and the lists have the lengths that the counts say.
pub record IsWire (w : Wire) : Type 0 where
  pub type_fits : w.packet.payload_type < 128
  pub sequence_fits : w.packet.sequence < 65536
  pub timestamp_fits : w.packet.timestamp < 4294967296
  pub ssrc_fits : w.packet.ssrc < 4294967296
  pub sources_fit : w.sources < 16
  pub source_length : length w.source_bytes ≡ w.sources * 4
  pub extension_fits : IsExtension w.extension
  pub padding_fits : w.padding < 256
