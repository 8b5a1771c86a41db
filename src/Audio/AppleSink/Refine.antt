-- ===== src/Audio/AppleSink/Refine.antt =====
-- The sink against a plain bounded queue of samples.
use gwl_airplay.Base.{
  ℕ, ◌+◌, ◌-◌, ◌*◌, ◌%◌, ◌^◌, ◌<◌, ◌≡◌, refl, sym, ap, subst, ap₂, ◌∙◌, Bool, true, false, List, [],
  ◌∷◌, ◌++◌, Option, none, some, arith, length, take, drop, replicate, set, min, ltb, if◌then◌else◌,
  length-set, Bool-cases, inl, inr,
}
use gwl_airplay.Audio.AppleSink.{
  AppleAudioSink, write_loop, write, consume, sample_bytes, silence, render,
}
use gwl_airplay.Audio.AppleSink.Queue.{contents, IsRunning, write_lem, render_lem}

-- A queue of at most `capacity` samples, oldest first, with how many samples make a frame.
pub record Queue : Type 0 where
  pub capacity : ℕ
  pub channels : ℕ
  pub samples : List ℕ

abbrev pub push : Queue → List ℕ → Bool × Queue
push q xs =
    if ltb q.capacity (length q.samples + length xs)
    then (false, q)
    else (true, record q { samples = q.samples ++ xs })

-- The samples of as many frames, with silence where there are too few, and the queue without them.
abbrev pub pull : Queue → ℕ → List ℕ × Queue
pull q frames =
    let n = min (frames * q.channels) (length q.samples) in
    (
      take n q.samples ++ replicate (frames * q.channels - n) 0,
      record q { samples = drop n q.samples },
    )

-- What a queue gives to buffers of the given sizes: nothing where there are none, the bytes that fit in a
-- single one, and silence to several, which costs as many samples.
abbrev pub fill : Queue → ℕ → Option (List ℕ) → List (List ℕ) × Queue
fill q frames none = ([], q)
fill q frames (some []) = ([], q)
fill q frames (some (size ∷ [])) =
    (take size (sample_bytes (pull q frames).0) ∷ [], (pull q frames).1)
fill q frames (some (size ∷ more ∷ sizes)) = (silence (size ∷ more ∷ sizes), (pull q frames).1)

-- The calls of the decoding thread and of the render callback, and their answers.
pub data Op : Type 0 where
  put : List ℕ → ℕ → Op
  get : ℕ → Option (List ℕ) → Op

pub data Reply : Type 0 where
  taken : Bool → Reply
  heard : List (List ℕ) → Reply

pub run_queue : Queue → List Op → List Reply
run_queue q [] = []
run_queue q (put xs frames ∷ ops) = Reply.taken (push q xs).0 ∷ run_queue (push q xs).1 ops
run_queue q (get frames io ∷ ops) =
    Reply.heard (fill q frames io).0 ∷ run_queue (fill q frames io).1 ops

unfoldable pub run : AppleAudioSink → List Op → List Reply
run s [] = []
run s (put xs frames ∷ ops) = Reply.taken (write s xs frames).0 ∷ run (write s xs frames).1 ops
run s (get frames io ∷ ops) = Reply.heard (render s frames io).0 ∷ run (render s frames io).1 ops

-- Every call of `write` is given whole frames.
abbrev pub AreWhole : ℕ → List Op → Type 0
AreWhole channels [] = Unit
AreWhole channels (put xs frames ∷ ops) =
    (length xs ≡ frames * channels) × (length xs < 2 ^ 64) × AreWhole channels ops
AreWhole channels (get frames io ∷ ops) = AreWhole channels ops

abbrev pub view : AppleAudioSink → Queue
view s = record { capacity = length s.ring; channels = s.format.channels; samples = contents s }

length-write_loop :
    (ring : List ℕ) (pos : ℕ) (xs : List ℕ) → length (write_loop ring pos xs).0 ≡ length ring
unfolding write_loop
length-write_loop ring pos [] = refl
length-write_loop ring pos (x ∷ xs) =
    length-write_loop (set ring pos x) ((pos + 1) % length ring) xs ∙ length-set ring pos x

write_keeps :
    (s : AppleAudioSink) (xs : List ℕ) (frames : ℕ)
    → (length (write s xs frames).1.ring ≡ length s.ring)
      × ((write s xs frames).1.format.channels ≡ s.format.channels)
unfolding write
write_keeps s xs frames =
    let l = length-write_loop s.ring s.write_pos xs in (ground (arith, l), ground arith)

render_keeps :
    (s : AppleAudioSink) (frames : ℕ) (io : Option (List ℕ))
    → ((render s frames io).1.ring ≡ s.ring)
      × ((render s frames io).1.format.channels ≡ s.format.channels)
unfolding render consume
render_keeps s frames none = (refl, refl)
render_keeps s frames (some []) = (refl, refl)
render_keeps s frames (some (size ∷ sizes)) = (refl, refl)

Queue-eq :
    {q r : Queue}
    → q.capacity ≡ r.capacity
    → q.channels ≡ r.channels
    → q.samples ≡ r.samples
    → q ≡ r
Queue-eq a b c = λ i. record { capacity = a i; channels = b i; samples = c i }

module _ (s : AppleAudioSink) (v : IsRunning s) where
  put_refines :
      (xs : List ℕ) (frames : ℕ)
      → length xs ≡ frames * s.format.channels
      → length xs < 2 ^ 64
      → let (ok, t) = write s xs frames in
        (ok ≡ (push (view s) xs).0) × (view t ≡ (push (view s) xs).1)
  put_refines xs frames l small =
      let (a, b, c) = write_lem s xs frames v l small in
      let (k, f) = write_keeps s xs frames in
      let (ok, t) = write s xs frames in
      let q = view s in
      let grown = record q { samples = q.samples ++ xs } in
      let kept = λ (z : Bool). if z then contents s ++ xs else contents s in
      let picked : Bool → Bool × Queue = λ z. if z then (false, q) else (true, grown) in
      let follows = λ (z : Bool). (ok ≡ (picked z).0) × (view t ≡ (picked z).1) in
      elim (Bool-cases (ltb q.capacity (length q.samples + length xs))) [
        | inl e ↦
            let no = a ∙ ap (λ (z : Bool). if z then false else true) e in
            subst follows (sym e) (no, Queue-eq k f (b ∙ ap kept no))
        | inr e ↦
            let yea = a ∙ ap (λ (z : Bool). if z then false else true) e in
            subst follows (sym e) (yea, Queue-eq k f (b ∙ ap kept yea))
      ]

  get_refines :
      (frames : ℕ) (io : Option (List ℕ))
      → let (out, t) = render s frames io in
        (out ≡ (fill (view s) frames io).0) × (view t ≡ (fill (view s) frames io).1) × IsRunning t
  unfolding render
  get_refines frames none = (refl, refl, v)
  get_refines frames (some []) = (refl, refl, v)
  get_refines frames (some (size ∷ [])) =
      let (_, _, one, several) = render_lem s frames v in
      let (a, (b, c)) = one size in
      let (k, f) = render_keeps s frames (some (size ∷ [])) in (a, Queue-eq (ap length k) f b, c)
  get_refines frames (some (size ∷ more ∷ sizes)) =
      let (_, _, one, several) = render_lem s frames v in
      let (a, (b, c)) = several size more sizes in
      let (k, f) = render_keeps s frames (some (size ∷ more ∷ sizes)) in
      (a, Queue-eq (ap length k) f b, c)

-- No sequence of calls of `write` with whole frames and of `render` with any buffers tells a running sink from
-- the bounded queue of its samples.
pub run_refines :
    (ops : List Op) (s : AppleAudioSink)
    → IsRunning s
    → AreWhole s.format.channels ops
    → run s ops ≡ run_queue (view s) ops
unfolding run run_queue
run_refines [] s v h = refl
run_refines (put xs frames ∷ ops) s v (l, small, h) =
    let (ok, next) = put_refines s v xs frames l small in
    let (a, b, running) = write_lem s xs frames v l small in
    let t = (write s xs frames).1 in
    let whole = subst (λ c. AreWhole c ops) (sym (write_keeps s xs frames).1) h in
    ap₂ (λ z rest. Reply.taken z ∷ rest) ok
      (run_refines ops t running whole ∙ ap (λ q. run_queue q ops) next)
run_refines (get frames io ∷ ops) s v h =
    let (out, next, running) = get_refines s v frames io in
    let t = (render s frames io).1 in
    let whole = subst (λ c. AreWhole c ops) (sym (render_keeps s frames io).1) h in
    ap₂ (λ xs rest. Reply.heard xs ∷ rest) out
      (run_refines ops t running whole ∙ ap (λ q. run_queue q ops) next)
