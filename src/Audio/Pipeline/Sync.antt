-- ===== src/Audio/Pipeline/Sync.antt =====
-- The pipeline and its sink agree on whether the sink is open, and the sink is only ever written whole
-- frames of the format that it was opened with.
use gwl_airplay.Base.{
  ℕ, ◌≡◌, refl, sym, ap, ◌∙◌, Bool, true, false, List, Option, none, some, arith,
}
use gwl_airplay.Audio.{AlacConfig, PcmFormat}
use gwl_airplay.Audio.Pipeline.{
  AlacDecoder, AudioSink, AudioPipeline, format_of, playable, close_sink, reset, configure_parts,
  configure, push_parts, push,
}

-- What the pipeline relies on of a sink: `opened` changes by `open` and `close` alone.
pub record SinkLaws {κ} (S : Type κ) (out : AudioSink S) : Type κ where
  pub opened : S → Bool
  pub open_yes :
      (s : S) (f : PcmFormat) → (out.open_sink s f).0 ≡ true → opened (out.open_sink s f).1 ≡ true
  pub open_no :
      (s : S) (f : PcmFormat)
      → opened s ≡ false
      → (out.open_sink s f).0 ≡ false
      → opened (out.open_sink s f).1 ≡ false
  pub close_closes : (s : S) → opened (out.close s) ≡ false
  pub write_keeps : (s : S) (xs : List ℕ) (n : ℕ) → opened (out.write s xs n).1 ≡ opened s

module _ {ℓ κ} {D : Type ℓ} {S : Type κ} (dec : AlacDecoder D) (out : AudioSink S)
    (laws : SinkLaws S out) where
  abbrev pub sink_opened : Option S → Bool
  sink_opened none = false
  sink_opened (some s) = laws.opened s

  -- The flag of the pipeline is that of its sink.
  abbrev pub IsSynced : AudioPipeline D S → Type 0
  IsSynced p = p.opened ≡ sink_opened p.sink

  close_sink-closed :
      (o : Option S) (b : Bool) → b ≡ sink_opened o → sink_opened (close_sink dec out b o) ≡ false
  unfolding close_sink
  close_sink-closed none b h = refl
  close_sink-closed (some s) true h = laws.close_closes s
  close_sink-closed (some s) false h = sym h

  -- `reset` closes an open sink.
  pub reset-IsSynced :
      (p : AudioPipeline D S)
      → IsSynced p
      → IsSynced (reset dec out p) × ((reset dec out p).opened ≡ false)
  unfolding reset
  reset-IsSynced p h = (sym (close_sink-closed p.sink p.opened h), refl)

  configure_parts-IsSynced :
      (p : AudioPipeline D S) (c : AlacConfig) (d : Option D) (s : Option S)
      → p.opened ≡ false
      → p.sink ≡ s
      → sink_opened s ≡ false
      → IsSynced (configure_parts dec out p c d s).1
  unfolding configure_parts
  configure_parts-IsSynced p c none s o e h = o ∙ sym h ∙ ap sink_opened (sym e)
  configure_parts-IsSynced p c (some d) none o e h = o ∙ ap sink_opened (sym e)
  configure_parts-IsSynced p c (some d) (some s) o e h =
      ground (arith, laws.open_yes s (format_of c), laws.open_no s (format_of c), ap sink_opened e)

  -- On every way out of `configure`, failures included, flag and sink agree, where they agreed before and
  -- the sink keeps its laws.
  pub configure-IsSynced :
      (p : AudioPipeline D S) (c : AlacConfig) → IsSynced p → IsSynced (configure dec out p c).1
  unfolding configure
  configure-IsSynced p c h =
      let q = reset dec out p in
      let k =
        configure_parts-IsSynced q c q.decoder q.sink refl refl
          (close_sink-closed p.sink p.opened h) in
      ground (arith, k)

  push_parts-IsSynced :
      (p : AudioPipeline D S) (packet : List ℕ) (d : Option D) (s : Option S)
      → p.sink ≡ s
      → IsSynced p
      → IsSynced (push_parts dec out p packet d s).1
  unfolding push_parts
  push_parts-IsSynced p packet none s e h = h
  push_parts-IsSynced p packet (some d) none e h = h
  push_parts-IsSynced p packet (some d) (some s) e h =
      let (decoded, pcm, d') = dec.decode d packet in
      ground (arith, laws.write_keeps s pcm.samples pcm.frames, ap sink_opened e)

  pub push-IsSynced :
      (p : AudioPipeline D S) (packet : List ℕ) → IsSynced p → IsSynced (push dec out p packet).1
  unfolding push
  push-IsSynced p packet h = ground (arith, push_parts-IsSynced p packet p.decoder p.sink refl h)

  configure_parts_format :
      (p : AudioPipeline D S) (c : AlacConfig) (d : Option D) (s : Option S)
      → (configure_parts dec out p c d s).0 ≡ true
      → ((configure_parts dec out p c d s).1.opened ≡ true)
        × ((configure_parts dec out p c d s).1.format ≡ format_of c)
  unfolding configure_parts
  configure_parts_format p c none s e = absurd (ground arith)
  configure_parts_format p c (some d) none e = absurd (ground arith)
  configure_parts_format p c (some d) (some s) e = ground arith

  configure_success :
      (p : AudioPipeline D S) (c : AlacConfig)
      → (configure dec out p c).0 ≡ true
      → (playable c ≡ true)
        × ((configure dec out p c).1.opened ≡ true)
        × ((configure dec out p c).1.format ≡ format_of c)
  unfolding configure
  configure_success p c e =
      let q = reset dec out p in
      (
        ground arith,
        ground (arith, configure_parts_format q c q.decoder q.sink),
        ground (arith, configure_parts_format q c q.decoder q.sink),
      )

  -- `configure` succeeds only for a playable configuration (16-bit, with channels, a rate and a frame
  -- length), and then the pipeline is open in the format of the configuration, and its sink is open.
  pub configure_format :
      (p : AudioPipeline D S) (c : AlacConfig)
      → IsSynced p
      → (configure dec out p c).0 ≡ true
      → (playable c ≡ true)
        × ((configure dec out p c).1.opened ≡ true)
        × ((configure dec out p c).1.format ≡ format_of c)
        × (sink_opened (configure dec out p c).1.sink ≡ true)
  configure_format p c h e =
      let (play, o, f) = configure_success p c e in (play, o, f, sym (configure-IsSynced p c h) ∙ o)
