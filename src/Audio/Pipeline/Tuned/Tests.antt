-- ===== src/Audio/Pipeline/Tuned/Tests.antt =====
-- A decoder that copies its packets into frames of one sample for each channel, and the theorems at
-- concrete inputs.
use gwl_airplay.Base.{ℕ, ◌≡◌, refl, true, List, [], ◌∷◌, some, arith}
use gwl_airplay.Audio.{AlacConfig, no_config}
use gwl_airplay.Audio.Software
use gwl_airplay.Audio.Software.{AppleDecoder, SoftwareAlacDecoder}
use gwl_airplay.Audio.Pipeline.{AudioPipeline, AudioSink, format_of}
use gwl_airplay.Audio.Pipeline.Tuned.{IsTuned}

abbrev copying : AppleDecoder (Unit {0})
copying = record {
  fresh = tt;
  init = λ a cookie. (0, tt);
  decode = λ a packet n c. (0, packet, 1, tt);
}

-- A sink that keeps what it was given last.
abbrev keeping : AudioSink (List ℕ)
keeping = record { open_sink = λ s f. (true, []); close = λ s. s; write = λ s xs n. (true, xs) }

abbrev stereo : AlacConfig
stereo = record no_config {
  frame_length = 4096;
  bit_depth = 16;
  num_channels = 2;
  sample_rate = 44100;
}

abbrev decoder : SoftwareAlacDecoder (Unit {0})
decoder = record { decoder = tt; config = stereo; configured = true }

abbrev tuned : AudioPipeline (SoftwareAlacDecoder (Unit {0})) (List ℕ)
tuned = record { decoder = some decoder; sink = some []; format = format_of stereo; opened = true }

tuned-IsTuned : IsTuned copying keeping tuned
tuned-IsTuned = record {
  d = decoder;
  opened = refl;
  has_decoder = refl;
  ready = record { configured = refl; depth = refl; channels = omega arith };
  in_format = refl;
}

decoded_samples : (Software.decode copying decoder (5 ∷ 6 ∷ [])).1.samples ≡ 5 ∷ 6 ∷ []
unfolding Software.decode
decoded_samples = refl
