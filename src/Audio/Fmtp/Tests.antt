-- ===== src/Audio/Fmtp/Tests.antt =====
-- Texts of sender's parameters, and the theorem at a concrete input.
use gwl_airplay.Base.{ℕ, ◌≡◌, ◌⊎◌, refl, true, false, List, some, none, codes}
use gwl_airplay.Audio.{AlacConfig, no_config, valid}
use gwl_airplay.Audio.Fmtp.{parse_uint, set_field, token, tokens, finish, parse_alac_fmtp}
use gwl_airplay.Audio.Fmtp.Outcome.{Merged, parse_alac_fmtp_outcome}

abbrev text : List ℕ
text = codes "sampleRate=44100; channels = 2;bitDepth=0x10;frameLength=4096"

abbrev stereo : AlacConfig
stereo = record no_config {
  sample_rate = 44100;
  num_channels = 2;
  bit_depth = 16;
  frame_length = 4096;
}

text_read : parse_alac_fmtp text no_config ≡ (true, stereo)
unfolding parse_alac_fmtp finish tokens token set_field parse_uint
text_read = refl

numbers :
    (parse_uint (codes " 010 ") ≡ some 8)
    × (parse_uint (codes "0x") ≡ none)
    × (parse_uint (codes "12a") ≡ none)
unfolding parse_uint
numbers = (refl, refl, refl)

parse_alac_fmtp_outcome_example :
    let r = parse_alac_fmtp text no_config in
    ((r.0 ≡ false) × (r.1 ≡ no_config)) ⊎ ((r.0 ≡ true) × (valid r.1 ≡ true) × Merged no_config r.1)
parse_alac_fmtp_outcome_example = parse_alac_fmtp_outcome text no_config
