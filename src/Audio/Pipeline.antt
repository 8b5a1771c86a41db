-- ===== src/Audio/Pipeline.antt =====
-- src/audio_pipeline.cpp and src/alac_audio_pipeline.cpp over any decoder and any sink. The two
-- interfaces are records of operations; a null std::unique_ptr is `none`.
pub mod Sync
pub mod Contract
pub mod Sinks
pub mod Tuned
use gwl_airplay.Base.{
  ℕ, ◌*◌, Bool, true, false, not, ◌||◌, ◌&&◌, List, [], ◌∷◌, Option, none, some, ◌==◌,
  if◌then◌else◌, length,
}
use gwl_airplay.Rtp.{RtpPacket}
use gwl_airplay.Audio.{AlacConfig, valid, PcmFormat, PcmAudioFrame}

-- `class AlacDecoder`, on the state of the decoder.
pub record AlacDecoder {ℓ} (D : Type ℓ) : Type ℓ where
  pub configure : D → AlacConfig → Bool × D
  pub decode : D → List ℕ → Bool × PcmAudioFrame × D
  pub reset : D → D

-- `class AudioSink`, on the state of the sink. `write` is given the samples and the number of frames.
pub record AudioSink {ℓ} (S : Type ℓ) : Type ℓ where
  pub open_sink : S → PcmFormat → Bool × S
  pub close : S → S
  pub write : S → List ℕ → ℕ → Bool × S

pub record AudioPipeline {ℓ κ} (D : Type ℓ) (S : Type κ) : Type (ℓ ⊔ κ) where
  pub decoder : Option D
  pub sink : Option S
  pub format : PcmFormat
  pub opened : Bool

-- The format that a configuration asks of the sink.
abbrev pub format_of : AlacConfig → PcmFormat
format_of c = record {
  sample_rate = c.sample_rate;
  channels = c.num_channels;
  bits_per_sample = c.bit_depth;
}

-- The checks of `configure` on the configuration.
abbrev pub playable : AlacConfig → Bool
playable c =
    valid c && (not (c.num_channels == 0) && (not (c.sample_rate == 0) && (c.bit_depth == 16)))

-- The checks of `push` on what was decoded.
abbrev pub matches : PcmFormat → PcmAudioFrame → Bool
matches f pcm =
    (pcm.channels == f.channels)
    && ((pcm.sample_rate == f.sample_rate)
        && ((pcm.bits_per_sample == f.bits_per_sample)
            && (not (pcm.frames == 0) && (length pcm.samples == pcm.frames * f.channels))))

module _ {ℓ κ} {D : Type ℓ} {S : Type κ} (dec : AlacDecoder D) (out : AudioSink S) where
  reset_decoder : Option D → Option D
  reset_decoder none = none
  reset_decoder (some d) = some (dec.reset d)

  close_sink : Bool → Option S → Option S
  close_sink opened none = none
  close_sink opened (some s) = some (if opened then out.close s else s)

  pub reset : AudioPipeline D S → AudioPipeline D S
  unfolding reset_decoder close_sink
  reset p = record p {
    decoder = reset_decoder p.decoder;
    sink = close_sink p.opened p.sink;
    opened = false;
  }

  -- `configure` from `sink_->open(format)` on.
  open_with : AudioPipeline D S → D → S → PcmFormat → Bool × AudioPipeline D S
  open_with p d s f =
      let (opened, s') = out.open_sink s f in
      if opened
      then (true, record p { decoder = some d; sink = some s'; format = f; opened = true })
      else (false, record p { decoder = some (dec.reset d); sink = some s' })

  -- `configure` from `decoder_->configure(config)` on; `p` is reset.
  configure_parts : AudioPipeline D S → AlacConfig → Option D → Option S → Bool × AudioPipeline D S
  unfolding open_with
  configure_parts p c none s = (false, p)
  configure_parts p c (some d) none = (false, p)
  configure_parts p c (some d) (some s) =
      let (configured, d') = dec.configure d c in
      if configured then open_with p d' s (format_of c) else (false, record p { decoder = some d' })

  abbrev has_parts : Option D → Option S → Bool
  has_parts none s = false
  has_parts (some d) none = false
  has_parts (some d) (some s) = true

  pub configure : AudioPipeline D S → AlacConfig → Bool × AudioPipeline D S
  unfolding reset configure_parts
  configure p c =
      if not (has_parts p.decoder p.sink && playable c)
      then (false, p)
      else let q = reset p in configure_parts q c q.decoder q.sink

  push_parts : AudioPipeline D S → List ℕ → Option D → Option S → Bool × AudioPipeline D S
  push_parts p packet none s = (false, p)
  push_parts p packet (some d) none = (false, p)
  push_parts p packet (some d) (some s) =
      let (decoded, pcm, d') = dec.decode d packet in
      let q = record p { decoder = some d' } in
      if not (decoded && matches p.format pcm)
      then (false, q)
      else let (written, s') = out.write s pcm.samples pcm.frames in
        (written, record q { sink = some s' })

  pub push : AudioPipeline D S → List ℕ → Bool × AudioPipeline D S
  unfolding push_parts
  push p packet =
      if not p.opened || (length packet == 0)
      then (false, p)
      else push_parts p packet p.decoder p.sink

  -- AlacAudioPipeline::push with AlacRtpPayload::extract, which gives the payload of a packet that has
  -- one. The other operations of AlacAudioPipeline hand on to the pipeline.
  pub push_packet : AudioPipeline D S → RtpPacket → Bool × AudioPipeline D S
  push_packet p packet = if length packet.payload == 0 then (false, p) else push p packet.payload
