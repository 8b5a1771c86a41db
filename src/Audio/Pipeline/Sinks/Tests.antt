-- ===== src/Audio/Pipeline/Sinks/Tests.antt =====
-- A decoder of four-byte packets and a silent sink, and the theorems at concrete inputs.
use gwl_airplay.Base.{ℕ, ◌≡◌, refl, true, false, List, [], ◌∷◌, Option, none, some, ◌⊎◌}
use gwl_airplay.Audio.{AlacConfig, no_config, PcmFormat, PcmAudioFrame, no_frame}
use gwl_airplay.Audio.Pipeline.{AlacDecoder, AudioPipeline, configure, push}
use gwl_airplay.Audio.Pipeline.Sync.{IsSynced, configure-IsSynced, push-IsSynced}
use gwl_airplay.Audio.Pipeline.Contract.{Written, push_contract}
use gwl_airplay.Audio.Pipeline.Sinks.{
  NullAudioSink, null_sink, null_sink-SinkLaws, null_open, null_write,
}

abbrev stereo : AlacConfig
stereo = record no_config {
  frame_length = 4096;
  bit_depth = 16;
  num_channels = 2;
  sample_rate = 44100;
}

abbrev one_frame : List ℕ → PcmAudioFrame
one_frame packet = record no_frame {
  samples = packet;
  channels = 2;
  sample_rate = 44100;
  bits_per_sample = 16;
  frames = 1;
}

abbrev copying : AlacDecoder (Option AlacConfig)
copying = record {
  configure = λ d c. (true, some c);
  decode = λ d packet. (true, one_frame packet, d);
  reset = λ d. none;
}

abbrev no_format : PcmFormat
no_format = record { sample_rate = 0; channels = 0; bits_per_sample = 0 }

abbrev shut : AudioPipeline (Option AlacConfig) NullAudioSink
shut = record {
  decoder = some none;
  sink = some (record { format = no_format; opened = false });
  format = no_format;
  opened = false;
}

abbrev configured : AudioPipeline (Option AlacConfig) NullAudioSink
configured = (configure copying null_sink shut stereo).1

configured_yes : (configure copying null_sink shut stereo).0 ≡ true
unfolding configure null_open
configured_yes = refl

shut-IsSynced : IsSynced copying null_sink null_sink-SinkLaws shut
unfolding null_sink-SinkLaws
shut-IsSynced = refl

configure-IsSynced_example : IsSynced copying null_sink null_sink-SinkLaws configured
configure-IsSynced_example =
    configure-IsSynced copying null_sink null_sink-SinkLaws shut stereo shut-IsSynced

push_takes : (push copying null_sink configured (1 ∷ 2 ∷ [])).0 ≡ true
unfolding configure push null_open null_write
push_takes = refl

push-IsSynced_example :
    IsSynced copying null_sink null_sink-SinkLaws (push copying null_sink configured (1 ∷ 2 ∷ [])).1
push-IsSynced_example =
    push-IsSynced copying null_sink null_sink-SinkLaws configured (1 ∷ 2 ∷ [])
      configure-IsSynced_example

push_contract_example :
    let r = push copying null_sink configured (1 ∷ 2 ∷ []) in
    ((r.0 ≡ false) × (r.1.sink ≡ configured.sink))
    ⊎ Written copying null_sink configured (1 ∷ 2 ∷ []) r
push_contract_example = push_contract copying null_sink configured (1 ∷ 2 ∷ [])
