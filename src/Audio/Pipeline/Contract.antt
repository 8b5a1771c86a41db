-- ===== src/Audio/Pipeline/Contract.antt =====
-- What `push` hands to the sink.
use gwl_airplay.Base.{
  ℕ, ◌*◌, ◌≡◌, ◌<◌, refl, Bool, true, false, not, List, Option, none, some, arith, ◌==◌, length,
  Bool-cases, inl, inr, ◌⊎◌, ◌&&◌, ◌||◌,
}
use gwl_airplay.Audio.{PcmFormat, PcmAudioFrame}
use gwl_airplay.Audio.Pipeline.{AlacDecoder, AudioSink, AudioPipeline, matches, push_parts, push}

-- The samples of a frame that `push` lets through are whole frames of the format.
pub record IsWhole (f : PcmFormat) (pcm : PcmAudioFrame) : Type 0 where
  pub rate : pcm.sample_rate ≡ f.sample_rate
  pub channels : pcm.channels ≡ f.channels
  pub bits : pcm.bits_per_sample ≡ f.bits_per_sample
  pub some_frames : 0 < pcm.frames
  pub count : length pcm.samples ≡ pcm.frames * f.channels

matches-IsWhole : (f : PcmFormat) (pcm : PcmAudioFrame) → matches f pcm ≡ true → IsWhole f pcm
matches-IsWhole f pcm e = record {
  rate = ground arith;
  channels = ground arith;
  bits = ground arith;
  some_frames = ground arith;
  count = ground arith;
}

module _ {ℓ κ} {D : Type ℓ} {S : Type κ} (dec : AlacDecoder D) (out : AudioSink S) where
  -- A frame that was decoded from the packet and written.
  pub record Written (p : AudioPipeline D S) (packet : List ℕ) (r : Bool × AudioPipeline D S)
      : Type (ℓ ⊔ κ) where
    pub d : D
    pub s : S
    pub ready : p.opened ≡ true
    pub has_decoder : p.decoder ≡ some d
    pub has_sink : p.sink ≡ some s
    pub decoded : (dec.decode d packet).0 ≡ true
    pub whole : IsWhole p.format (dec.decode d packet).1
    pub result :
        r.0 ≡ (out.write s (dec.decode d packet).1.samples (dec.decode d packet).1.frames).0
    pub new_sink :
        r.1.sink
        ≡ some (out.write s (dec.decode d packet).1.samples (dec.decode d packet).1.frames).1

  push_parts-Written :
      (p : AudioPipeline D S) (packet : List ℕ) (d : Option D) (s : Option S)
      → p.opened ≡ true
      → p.decoder ≡ d
      → p.sink ≡ s
      → let r = push_parts dec out p packet d s in
        ((r.0 ≡ false) × (r.1.sink ≡ p.sink)) ⊎ Written p packet r
  unfolding push_parts
  push_parts-Written p packet none s o ed es = inl (refl, refl)
  push_parts-Written p packet (some d) none o ed es = inl (refl, refl)
  push_parts-Written p packet (some d) (some s) o ed es =
      elim (Bool-cases ((dec.decode d packet).0 && matches p.format (dec.decode d packet).1)) [
        | inl e ↦ rw e (
            inr (record {
              d = d;
              s = s;
              ready = o;
              has_decoder = ed;
              has_sink = es;
              decoded = ground arith;
              whole = matches-IsWhole p.format (dec.decode d packet).1 (ground arith);
              result = refl;
              new_sink = refl;
            }))
        | inr e ↦ rw e (inl (refl, refl))
      ]

  -- `push` either refuses the packet and leaves the sink as it was, or it decodes it to a frame of the
  -- format that the sink was opened with, whose samples are exactly its frames times its channels, and
  -- answers what the sink answers when it is given these.
  pub push_contract :
      (p : AudioPipeline D S) (packet : List ℕ)
      → let r = push dec out p packet in ((r.0 ≡ false) × (r.1.sink ≡ p.sink)) ⊎ Written p packet r
  unfolding push
  push_contract p packet = elim (Bool-cases (not p.opened || (length packet == 0))) [
    | inl e ↦ rw e (inl (refl, refl))
    | inr e ↦ rw e (push_parts-Written p packet p.decoder p.sink (ground arith) refl refl)
  ]
