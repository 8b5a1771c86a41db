-- ===== src/Audio/Cookie/Layout.antt =====
-- Reader and writer disagree on where the fields of the cookie stand.
use gwl_airplay.Base.{ℕ, ◌+◌, ◌*◌, ◌/◌, ◌%◌, ◌<◌, ◌≡◌, refl, false, List, [], some, arith, length}
use gwl_airplay.Base.Words.{be16, be32}
use gwl_airplay.Audio.{AlacConfig, valid}
use gwl_airplay.Audio.Cookie.{parse_alac_config, cookie_of, make_cookie}

-- The fields fit their C++ types, and no ready-made cookie is kept.
pub record IsConfig (c : AlacConfig) : Type 0 where
  pub frame_length : c.frame_length < 4294967296
  pub compatible_version : c.compatible_version < 256
  pub pb : c.pb < 256
  pub mb : c.mb < 256
  pub kb : c.kb < 256
  pub num_channels : c.num_channels < 256
  pub max_run : c.max_run < 65536
  pub max_frame_bytes : c.max_frame_bytes < 4294967296
  pub avg_bit_rate : c.avg_bit_rate < 4294967296
  pub sample_rate : c.sample_rate < 4294967296
  pub bit_depth : c.bit_depth < 256
  pub codec_data : c.codec_data ≡ []

-- What the reader makes of a written cookie: every field behind the version is one byte off.
unfoldable pub shifted : AlacConfig → AlacConfig
shifted c = record {
  frame_length = c.frame_length;
  compatible_version = c.compatible_version;
  pb = c.bit_depth;
  mb = c.pb;
  kb = c.mb;
  num_channels = c.kb;
  max_run = c.num_channels * 256 + c.max_run / 256;
  max_frame_bytes = c.max_run % 256 * 16777216 + c.max_frame_bytes / 256;
  avg_bit_rate = c.max_frame_bytes % 256 * 16777216 + c.avg_bit_rate / 256;
  sample_rate = c.avg_bit_rate % 256 * 16777216 + c.sample_rate / 256;
  bit_depth = 0;
  codec_data = cookie_of c;
}

length-cookie_of : (c : AlacConfig) → length (cookie_of c) ≡ 24
unfolding cookie_of
length-cookie_of c = refl

parse-cookie_of : (c : AlacConfig) → IsConfig c → parse_alac_config (cookie_of c) ≡ some (shifted c)
unfolding parse_alac_config cookie_of shifted
parse-cookie_of c h = λ i. some (record {
  frame_length =
      (let e : be32 (c.frame_length / 16777216 % 256) (c.frame_length / 65536 % 256)
                (c.frame_length / 256 % 256) (c.frame_length % 256)
              ≡ c.frame_length =
            omega arith in
          e)
        i;
  compatible_version = c.compatible_version;
  pb = (let e : c.bit_depth % 256 ≡ c.bit_depth = omega arith in e) i;
  mb = c.pb;
  kb = c.mb;
  num_channels = c.kb;
  max_run =
      (let e : be16 c.num_channels (c.max_run / 256 % 256)
              ≡ c.num_channels * 256 + c.max_run / 256 =
            omega arith in
          e)
        i;
  max_frame_bytes =
      (let e : be32 (c.max_run % 256) (c.max_frame_bytes / 16777216 % 256)
                (c.max_frame_bytes / 65536 % 256) (c.max_frame_bytes / 256 % 256)
              ≡ c.max_run % 256 * 16777216 + c.max_frame_bytes / 256 =
            omega arith in
          e)
        i;
  avg_bit_rate =
      (let e : be32 (c.max_frame_bytes % 256) (c.avg_bit_rate / 16777216 % 256)
                (c.avg_bit_rate / 65536 % 256) (c.avg_bit_rate / 256 % 256)
              ≡ c.max_frame_bytes % 256 * 16777216 + c.avg_bit_rate / 256 =
            omega arith in
          e)
        i;
  sample_rate =
      (let e : be32 (c.avg_bit_rate % 256) (c.sample_rate / 16777216 % 256)
                (c.sample_rate / 65536 % 256) (c.sample_rate / 256 % 256)
              ≡ c.avg_bit_rate % 256 * 16777216 + c.sample_rate / 256 =
            omega arith in
          e)
        i;
  bit_depth = 0;
  codec_data = cookie_of c;
})

make_cookie-cookie_of : (c : AlacConfig) → c.codec_data ≡ [] → make_cookie c ≡ cookie_of c
unfolding make_cookie
make_cookie-cookie_of c e = ground arith

-- The cookie that the decoder side writes for a configuration without codec data, whose fields fit their
-- widths, the bit depth a byte, has 24 bytes, and `parse_alac_config` reads it back shifted
-- by one byte behind the version: the bit depth arrives as `pb`, `pb` as `mb`, `mb` as `kb`, `kb` as the
-- number of channels, the channels as the high byte of the run, and so on to the sample rate.
pub parse-make_cookie :
    (c : AlacConfig)
    → IsConfig c
    → (length (make_cookie c) ≡ 24) × (parse_alac_config (make_cookie c) ≡ some (shifted c))
parse-make_cookie c h =
    rw (make_cookie-cookie_of c h.codec_data) (length-cookie_of c, parse-cookie_of c h)

-- No cookie is parsed to a valid configuration: the bit depth is never read.
pub parse_invalid : (d : List ℕ) {c : AlacConfig} → parse_alac_config d ≡ some c → valid c ≡ false
unfolding parse_alac_config
parse_invalid d e = ground arith
