-- ===== src/Audio/Cookie.antt =====
-- The ALAC magic cookie: make_cookie of src/alac_decoder.cpp writes it, parse_alac_config of
-- src/alac_config.cpp reads it.
pub mod Layout
mod Tests
use gwl_airplay.Base.{
  ℕ, ◌%◌, ◌+◌, Bool, true, false, List, [], ◌∷◌, ◌++◌, Option, none, some, ltb, ◌==◌, if◌then◌else◌,
  length, get_or, take,
}
use gwl_airplay.Base.Words.{be16, be32, bytes16, bytes32}
use gwl_airplay.Audio.{AlacConfig, no_config}

-- `be32(data.data() + i)` and `be16(data.data() + i)`
abbrev pub be32_at : List ℕ → ℕ → ℕ
be32_at d i = be32 (get_or d i 0) (get_or d (i + 1) 0) (get_or d (i + 2) 0) (get_or d (i + 3) 0)

abbrev pub be16_at : List ℕ → ℕ → ℕ
be16_at d i = be16 (get_or d i 0) (get_or d (i + 1) 0)

-- `none` is `return false`, and the caller's config is then unchanged.
pub parse_alac_config : List ℕ → Option AlacConfig
parse_alac_config d =
    if ltb (length d) 24
    then none
    else some (record no_config {
      frame_length = be32_at d 0;
      compatible_version = get_or d 4 0;
      pb = get_or d 5 0;
      mb = get_or d 6 0;
      kb = get_or d 7 0;
      num_channels = get_or d 8 0;
      max_run = be16_at d 9;
      max_frame_bytes = be32_at d 11;
      avg_bit_rate = be32_at d 15;
      sample_rate = be32_at d 19;
      codec_data = take 24 d;
    })

-- The cookie that is put together field by field, in the order of the positions.
pub cookie_of : AlacConfig → List ℕ
cookie_of c =
    bytes32 c.frame_length
    ++ (c.compatible_version
        ∷ (c.bit_depth % 256)
        ∷ c.pb
        ∷ c.mb
        ∷ c.kb
        ∷ c.num_channels
        ∷ (bytes16 c.max_run
            ++ (bytes32 c.max_frame_bytes ++ (bytes32 c.avg_bit_rate ++ bytes32 c.sample_rate))))

pub make_cookie : AlacConfig → List ℕ
make_cookie c = if length c.codec_data == 0 then cookie_of c else c.codec_data
