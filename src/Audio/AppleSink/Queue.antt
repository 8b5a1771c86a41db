-- ===== src/Audio/AppleSink/Queue.antt =====
-- The sink as a queue of samples: `write` appends all or nothing, `consume` and `render` take from the front.
use gwl_airplay.Base.{
  ℕ, zero, suc, ◌+◌, ◌-◌, ◌*◌, ◌%◌, ◌^◌, ◌≤◌, ◌<◌, ◌≡◌, refl, sym, ap, ◌∙◌, none, some, ◌∷◌, true,
  false, List, [], ◌++◌, arith, length, take, drop, replicate, min, ltb, if◌then◌else◌,
  take-append_of_eq, drop-append_of_eq, length-replicate, lt→ltb, le→ltb, ◌≢◌,
}
use native.Mathlib.Nat.{mod-lt}
use native.Mathlib.Decide.{dec_lt}
use gwl_airplay.Audio.{PcmFormat}
use gwl_airplay.Audio.AppleSink.{
  AppleAudioSink, Platform, open_sink, ring_size, write_loop, write, consume, sample_bytes, silence,
  render,
}
use gwl_airplay.Audio.AppleSink.Window.{
  after, window, after-after, write_loop-window, window-add, read_loop-window,
}

-- The samples that are waiting, oldest first.
abbrev pub contents : AppleAudioSink → List ℕ
contents s = window s.ring s.read_pos s.available

-- What holds of an opened sink.
pub record IsRunning (s : AppleAudioSink) : Type 0 where
  pub on : s.opened ≡ true
  pub read_in : s.read_pos < length s.ring
  pub fits : s.available ≤ length s.ring
  pub write_at : s.write_pos ≡ after s.ring s.read_pos s.available

length-window : (ring : List ℕ) (p n : ℕ) → length (window ring p n) ≡ n
length-window ring p zero = refl
length-window ring p (suc n) = ap suc (length-window ring (after ring p 1) n)

size_fits :
    (rate channels : ℕ)
    → rate < 2 ^ 32
    → channels ≤ 8
    → rate * channels * 2 % 2 ^ 64 ≡ rate * channels * 2
size_fits rate channels h k =
    let p : rate * channels ≤ rate * 8 = grind arith in omega (arith, p, h)

size_pos : (rate channels : ℕ) → rate ≢ 0 → channels ≢ 0 → 0 < rate * channels * 2
size_pos rate channels h k = grind arith

-- `open` accepts 1 to 8 channels of 16-bit samples at a rate of at least 1 Hz, where the platform does
-- its part; then the sink runs, is empty, and has room for two seconds of sound. Otherwise it is closed.
pub open_sink_lem :
    (env : Platform) (s : AppleAudioSink) (f : PcmFormat)
    → f.sample_rate < 2 ^ 32
    → let (ok, t) = open_sink env s f in
      (ok ≡ false → t.opened ≡ false)
      × (ok ≡ true
          → IsRunning t
            × (contents t ≡ [])
            × (length t.ring ≡ f.sample_rate * f.channels * 2)
            × (t.format ≡ f))
unfolding open_sink
open_sink_lem env s f h = (
  λ e. ground (arith, e),
  λ e. (
    record {
      on = ground (arith, e);
      read_in = ground (
        arith,
        e,
        size_fits f.sample_rate f.channels h,
        size_pos f.sample_rate f.channels,
        length-replicate {A = ℕ} (ring_size f) 0,
      );
      fits = ground (arith, e);
      write_at = ground (arith, e);
    },
    ground (arith, e),
    ground
        (arith, e, size_fits f.sample_rate f.channels h, length-replicate {A = ℕ} (ring_size f) 0),
    ground (arith, e),
  ),
)

module _ (s : AppleAudioSink) (samples : List ℕ) (frames : ℕ) (v : IsRunning s)
    (l : length samples ≡ frames * s.format.channels) (small : length samples < 2 ^ 64) where
  write_full :
      length s.ring < length (contents s) + length samples → write s samples frames ≡ (false, s)
  unfolding write
  write_full h =
      ground (arith, v.on, v.fits, l, small, h, length-window s.ring s.read_pos s.available)

  written : AppleAudioSink
  written = record s {
    ring = (write_loop s.ring s.write_pos samples).0;
    write_pos = (write_loop s.ring s.write_pos samples).1;
    available = s.available + length samples;
  }

  write_fits :
      length (contents s) + length samples ≤ length s.ring
      → write s samples frames ≡ (true, written)
  unfolding write written
  write_fits h =
      ground (arith, v.on, v.fits, l, small, h, length-window s.ring s.read_pos s.available)

  written_lem :
      length (contents s) + length samples ≤ length s.ring
      → (contents written ≡ contents s ++ samples) × IsRunning written
  unfolding written
  written_lem h =
      let n = length-window s.ring s.read_pos s.available in
      let (w, q, m) =
        write_loop-window s.ring s.read_pos s.available s.write_pos samples v.read_in
          (omega (arith, h, n)) v.write_at in
      (
        w,
        record {
          on = v.on;
          read_in = omega (arith, m, v.read_in);
          fits = omega (arith, m, h, n);
          write_at = q ∙ ap (λ (k : ℕ). (s.read_pos + (s.available + length samples)) % k) (sym m);
        },
      )

  -- `write` takes all frames or none: it refuses exactly when the sink has less room than the samples
  -- need, leaving the sink as it was, and otherwise appends the samples in order. The sink still runs.
  pub write_lem :
      let (ok, t) = write s samples frames in
      (ok ≡ (if ltb (length s.ring) (length (contents s) + length samples) then false else true))
      × (contents t ≡ (if ok then contents s ++ samples else contents s))
      × IsRunning t
  write_lem = elim (dec_lt (length s.ring) (length (contents s) + length samples)) [
    | yes h ↦ rw (write_full h, lt→ltb _ _ h) (refl, refl, v)
    | no h ↦
        let k : length (contents s) + length samples ≤ length s.ring = omega (arith, h) in
        rw (write_fits k, le→ltb _ _ k) (refl, (written_lem k).0, (written_lem k).1)
  ]

-- `consume` hands out the oldest samples in order, as many as are asked for or there are, then silence
-- up to the number asked for; the rest stays, and the sink still runs.
pub consume_lem :
    (s : AppleAudioSink) (frames : ℕ)
    → IsRunning s
    → let (out, t) = consume s frames in
      let n = min (frames * s.format.channels) (length (contents s)) in
      (out ≡ take n (contents s) ++ replicate (frames * s.format.channels - n) 0)
      × (contents t ≡ drop n (contents s))
      × IsRunning t
unfolding consume
consume_lem s frames v =
    let lw = length-window s.ring s.read_pos s.available in
    let n = min (frames * s.format.channels) s.available in
    let e : s.available ≡ n + (s.available - n) = omega arith in
    let front = window s.ring s.read_pos n in
    let back = window s.ring (after s.ring s.read_pos n) (s.available - n) in
    let split : contents s ≡ front ++ back =
      ap (window s.ring s.read_pos) e
      ∙ window-add s.ring s.read_pos n (s.available - n) v.read_in in
    let ln = length-window s.ring s.read_pos n in
    rw (lw, read_loop-window s.ring s.read_pos n v.read_in)
      (
        ap (λ ys. ys ++ replicate (frames * s.format.channels - n) 0)
            (sym (ap (take n) split ∙ take-append_of_eq n front back (sym ln))),
        sym (ap (drop n) split ∙ drop-append_of_eq n front back (sym ln)),
        record {
          on = v.on;
          read_in = mod-lt (s.read_pos + n) (omega (arith, v.read_in));
          fits = omega (arith, v.fits);
          write_at =
              v.write_at
              ∙ ap (after s.ring s.read_pos) e
              ∙ sym (after-after s.ring s.read_pos n (s.available - n));
        },
      )

take-min : (n : ℕ) (xs : List ℕ) → take (min (length xs) n) xs ≡ take n xs
take-min zero xs = let e : min (length xs) 0 ≡ 0 = omega arith in rw e refl
take-min (suc n) [] = let e : min 0 (suc n) ≡ 0 = omega arith in rw e refl
take-min (suc n) (x ∷ xs) =
    let e : min (suc (length xs)) (suc n) ≡ suc (min (length xs) n) = omega arith in
    rw e (ap (λ ys. x ∷ ys) (take-min n xs))

length-sample_bytes : (xs : List ℕ) → length (sample_bytes xs) ≡ length xs * 2
length-sample_bytes [] = omega arith
length-sample_bytes (x ∷ xs) = omega (arith, length-sample_bytes xs)

-- The samples that frames take of those that wait, and the silence behind them.
abbrev pub taken_of : AppleAudioSink → ℕ → ℕ
taken_of s frames = min (frames * s.format.channels) (length (contents s))

abbrev pub played : AppleAudioSink → ℕ → List ℕ
played s frames =
    take (taken_of s frames) (contents s)
    ++ replicate (frames * s.format.channels - taken_of s frames) 0

-- The rest waits on, and the sink runs.
abbrev pub Advanced : AppleAudioSink → ℕ → AppleAudioSink → Type 0
Advanced s frames t = (contents t ≡ drop (taken_of s frames) (contents s)) × IsRunning t

-- `render` does nothing without a buffer. A buffer that is the only one gets the oldest samples in order, as
-- many as are asked for or there are, then silence up to the number asked for, all of it cut to the buffer's
-- size; several buffers get silence. In both cases the samples, as many as are asked for or there are, no
-- longer wait, and the sink still runs.
pub render_lem :
    (s : AppleAudioSink) (frames : ℕ)
    → IsRunning s
    → (render s frames none ≡ ([], s))
      × (render s frames (some []) ≡ ([], s))
      × ((size : ℕ)
          → let (out, t) = render s frames (some (size ∷ [])) in
            (out ≡ take size (sample_bytes (played s frames)) ∷ []) × Advanced s frames t)
      × ((size more : ℕ) (sizes : List ℕ)
          → let (out, t) = render s frames (some (size ∷ more ∷ sizes)) in
            (out ≡ silence (size ∷ more ∷ sizes)) × Advanced s frames t)
unfolding render
render_lem s frames v =
    let (a, b, c) = consume_lem s frames v in
    let temp = (consume s frames).0 in
    (
      refl,
      refl,
      λ size. (
        ap (λ k. take (min k size) (sample_bytes temp) ∷ []) (sym (length-sample_bytes temp))
            ∙ ap (λ xs. xs ∷ []) (take-min size (sample_bytes temp))
            ∙ ap (λ xs. take size (sample_bytes xs) ∷ []) a,
        (b, c),
      ),
      λ size more sizes. (refl, (b, c)),
    )
