-- ===== src/Audio.antt =====
-- include/airplay2/alac_config.h, alac_decoder.h and audio_pipeline.h: the data that decoders, sinks
-- and pipelines share.
pub mod Clock
pub mod Cookie
pub mod Fmtp
pub mod Pipeline
pub mod AppleSink
pub mod Software
use gwl_airplay.Base.{ℕ, Bool, List, [], not, ◌&&◌, ◌==◌}

-- `struct AlacConfig`
pub record AlacConfig : Type 0 where
  pub frame_length : ℕ
  pub compatible_version : ℕ
  pub pb : ℕ
  pub mb : ℕ
  pub kb : ℕ
  pub num_channels : ℕ
  pub max_run : ℕ
  pub max_frame_bytes : ℕ
  pub avg_bit_rate : ℕ
  pub sample_rate : ℕ
  pub bit_depth : ℕ
  pub codec_data : List ℕ

-- `AlacConfig{}`
abbrev pub no_config : AlacConfig
no_config = record {
  frame_length = 0;
  compatible_version = 0;
  pb = 0;
  mb = 0;
  kb = 0;
  num_channels = 0;
  max_run = 0;
  max_frame_bytes = 0;
  avg_bit_rate = 0;
  sample_rate = 0;
  bit_depth = 0;
  codec_data = [];
}

-- `AlacConfig::valid`
abbrev pub valid : AlacConfig → Bool
valid c =
    not (c.frame_length == 0)
    && (not (c.num_channels == 0) && (not (c.sample_rate == 0) && not (c.bit_depth == 0)))

-- `struct PcmFormat`
pub record PcmFormat : Type 0 where
  pub sample_rate : ℕ
  pub channels : ℕ
  pub bits_per_sample : ℕ

-- `struct PcmAudioFrame`. A sample is an int16_t by its bit pattern; none is computed with.
pub record PcmAudioFrame : Type 0 where
  pub sample_rate : ℕ
  pub channels : ℕ
  pub bits_per_sample : ℕ
  pub frames : ℕ
  pub samples : List ℕ

-- `PcmAudioFrame{}`
abbrev pub no_frame : PcmAudioFrame
no_frame = record { sample_rate = 0; channels = 0; bits_per_sample = 0; frames = 0; samples = [] }
