-- ===== src/Audio/Cookie/Tests.antt =====
-- The cookie of a stereo 16-bit stream, and the theorems at concrete inputs.
use gwl_airplay.Base.{ℕ, ◌≡◌, refl, false, List, [], ◌∷◌, some, arith, length}
use gwl_airplay.Audio.{AlacConfig, no_config, valid}
use gwl_airplay.Audio.Cookie.{parse_alac_config, cookie_of, make_cookie}
use gwl_airplay.Audio.Cookie.Layout.{shifted, parse-make_cookie, parse_invalid}

abbrev stereo : AlacConfig
stereo = record no_config {
  frame_length = 4096;
  bit_depth = 16;
  num_channels = 2;
  sample_rate = 44100;
}

-- The cookie of the source's own test.
abbrev stereo_cookie : List ℕ
stereo_cookie =
    0 ∷ 0 ∷ 16 ∷ 0 ∷ 0 ∷ 16 ∷ 0 ∷ 0 ∷ 0 ∷ 2 ∷ 0 ∷ 0 ∷ 0 ∷ 0 ∷ 0 ∷ 0 ∷ 0 ∷ 0 ∷ 0 ∷ 0 ∷ 0 ∷ 0 ∷ 0xac
    ∷ 0x44 ∷ []

make_stereo : make_cookie stereo ≡ stereo_cookie
unfolding make_cookie cookie_of
make_stereo = refl

parse-make_cookie_example :
    (length (make_cookie stereo) ≡ 24)
    × (parse_alac_config (make_cookie stereo) ≡ some (shifted stereo))
parse-make_cookie_example = parse-make_cookie stereo (record {
  frame_length = omega arith;
  compatible_version = omega arith;
  pb = omega arith;
  mb = omega arith;
  kb = omega arith;
  num_channels = omega arith;
  max_run = omega arith;
  max_frame_bytes = omega arith;
  avg_bit_rate = omega arith;
  sample_rate = omega arith;
  bit_depth = omega arith;
  codec_data = refl;
})

parse_invalid_example : valid (record (shifted stereo) { codec_data = stereo_cookie }) ≡ false
unfolding parse_alac_config shifted
parse_invalid_example = parse_invalid stereo_cookie refl
