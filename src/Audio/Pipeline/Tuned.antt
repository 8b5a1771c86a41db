-- ===== src/Audio/Pipeline/Tuned.antt =====
-- The pipeline over the software decoder: what that decodes is always in the format of the sink.
mod Tests
use gwl_airplay.Base.{
  ℕ, ◌≡◌, refl, sym, ap, Bool, true, not, ◌&&◌, List, Option, none, some, arith, if◌then◌else◌,
  Bool-cases, Option-cases, inl, inr,
}
use gwl_airplay.Audio.{AlacConfig, PcmFormat}
use gwl_airplay.Audio.Software
use gwl_airplay.Audio.Software.{AppleDecoder, SoftwareAlacDecoder, software_decoder}
use gwl_airplay.Audio.Software.Frames.{IsReady, configure_success}
use gwl_airplay.Audio.Pipeline.{
  AudioSink, AudioPipeline, format_of, playable, has_parts, reset, open_with, configure_parts,
  configure,
}

module _ {ℓ κ} {A : Type ℓ} {S : Type κ} (alac : AppleDecoder A) (out : AudioSink S) where
  -- The pipeline is open, and its decoder is configured for the format of the sink.
  pub record IsTuned (p : AudioPipeline (SoftwareAlacDecoder A) S) : Type (ℓ ⊔ κ) where
    pub d : SoftwareAlacDecoder A
    pub opened : p.opened ≡ true
    pub has_decoder : p.decoder ≡ some d
    pub ready : IsReady alac d
    pub in_format : p.format ≡ format_of d.config

  configure_parts-IsTuned :
      (p : AudioPipeline (SoftwareAlacDecoder A) S) (c : AlacConfig)
      (d : Option (SoftwareAlacDecoder A)) (s : Option S)
      → (configure_parts (software_decoder alac) out p c d s).0 ≡ true
      → IsTuned (configure_parts (software_decoder alac) out p c d s).1
  unfolding configure_parts open_with
  configure_parts-IsTuned p c none s h = absurd (ground arith)
  configure_parts-IsTuned p c (some d) none h = absurd (ground arith)
  configure_parts-IsTuned p c (some d) (some s) h =
      elim (Bool-cases (Software.configure alac d c).0) [
        | inr e ↦ absurd (ground arith)
        | inl e ↦
            let (w, q) = configure_success alac d c e in
            elim (Bool-cases (out.open_sink s (format_of c)).0) [
              | inr f ↦ absurd (ground arith)
              | inl f ↦
                  rw (e, f)
                    (record {
                      d = (Software.configure alac d c).1;
                      opened = refl;
                      has_decoder = refl;
                      ready = w;
                      in_format = ap format_of (sym q);
                    })
            ]
      ]

  -- A successful `configure` tunes the pipeline.
  pub configure-IsTuned :
      (p : AudioPipeline (SoftwareAlacDecoder A) S) (c : AlacConfig)
      → (configure (software_decoder alac) out p c).0 ≡ true
      → IsTuned (configure (software_decoder alac) out p c).1
  unfolding configure
  configure-IsTuned p c h =
      elim (Bool-cases
        (not (has_parts (software_decoder alac) out p.decoder p.sink && playable c))) [
          | inl e ↦ absurd (ground arith)
          | inr e ↦ rw e (
              let q = reset (software_decoder alac) out p in
              configure_parts-IsTuned q c q.decoder q.sink (ground arith))
        ]

  -- The frame that `w` decodes is written, and the pipeline stays tuned.
  abbrev pub Played :
      (p : AudioPipeline (SoftwareAlacDecoder A) S) (packet : List ℕ) (s : S)
      → IsTuned p
      → Bool × AudioPipeline (SoftwareAlacDecoder A) S
      → Type (ℓ ⊔ κ)
  Played p packet s w r =
      let pcm = (Software.decode alac w.d packet).1 in
      IsTuned r.1
      × (r.0 ≡ (out.write s pcm.samples pcm.frames).0)
      × (r.1.sink ≡ some (out.write s pcm.samples pcm.frames).1)
