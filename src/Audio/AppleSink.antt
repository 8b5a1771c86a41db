-- ===== src/Audio/AppleSink.antt =====
-- src/apple_audio_sink.cpp: the ring between the decoding thread (`write`) and CoreAudio's render
-- callback (`render`), which hold the mutex by turns, so that each is one step. Whether the calls of
-- AudioToolbox succeed is an argument.
pub mod Window
pub mod Queue
pub mod Refine
mod Tests
use gwl_airplay.Base.{
  ℕ, zero, suc, map, take, Option, none, some, ◌/◌, ◌+◌, ◌-◌, ◌*◌, ◌%◌, ◌^◌, min, Bool, true, false,
  not, ◌||◌, ◌&&◌, List, [], ◌∷◌, ◌++◌, ltb, leb, ◌==◌, if◌then◌else◌, length, get_or, set,
  replicate,
}
use gwl_airplay.Audio.{PcmFormat}

-- `struct AppleAudioSink::Impl`, less the mutex; `unit` says whether there is an AudioUnit.
pub record AppleAudioSink : Type 0 where
  pub unit : Bool
  pub format : PcmFormat
  pub ring : List ℕ
  pub read_pos : ℕ
  pub write_pos : ℕ
  pub available : ℕ
  pub opened : Bool

unfoldable pub close : AppleAudioSink → AppleAudioSink
close s = record s {
  unit = false;
  ring = [];
  read_pos = 0;
  write_pos = 0;
  available = 0;
  opened = false;
}

-- Which of the platform's calls in `open` succeed: the instance, the two properties, and the start.
pub record Platform : Type 0 where
  pub instance_new : Bool
  pub set_format : Bool
  pub set_callback : Bool
  pub start : Bool

-- `(size_t)sample_rate * channels * 2`
abbrev pub ring_size : PcmFormat → ℕ
ring_size f = f.sample_rate * f.channels * 2 % 2 ^ 64

unfoldable pub open_sink : Platform → AppleAudioSink → PcmFormat → Bool × AppleAudioSink
unfolding close
open_sink env s f =
    let c = close s in
    if (f.channels == 0)
      || (ltb 8 f.channels || ((f.sample_rate == 0) || not (f.bits_per_sample == 16)))
    then (false, c)
    else let r = record c { format = f; ring = replicate (ring_size f) 0 } in
      if not env.instance_new
      then (false, r)
      else let u = record r { unit = true } in
        if not (env.set_format && (env.set_callback && env.start))
        then (false, close u)
        else (true, record u { opened = true })

-- The loop of `write`: the ring and `write_pos`.
pub write_loop : List ℕ → ℕ → List ℕ → List ℕ × ℕ
write_loop ring pos [] = (ring, pos)
write_loop ring pos (x ∷ xs) = write_loop (set ring pos x) ((pos + 1) % length ring) xs

-- `samples` are the interleaved samples, `frames * channels` of them.
unfoldable pub write : AppleAudioSink → List ℕ → ℕ → Bool × AppleAudioSink
write s samples frames =
    let count = frames * s.format.channels % 2 ^ 64 in
    if not s.opened
    then (false, s)
    else if ltb (length s.ring - s.available) count
    then (false, s)
    else let (ring, pos) = write_loop s.ring s.write_pos samples in
      (true, record s { ring = ring; write_pos = pos; available = s.available + count })

-- The loop of `render`: what is read, and `read_pos`; the count is what is left of `take`.
pub read_loop : List ℕ → ℕ → ℕ → List ℕ × ℕ
read_loop ring pos zero = ([], pos)
read_loop ring pos (suc n) =
    let (xs, end) = read_loop ring ((pos + 1) % length ring) n in (get_or ring pos 0 ∷ xs, end)

-- `render` up to the copy to `io_data`: `temp`, which is padded with silence.
pub consume : AppleAudioSink → ℕ → List ℕ × AppleAudioSink
consume s frames =
    let requested = frames * s.format.channels in
    let n = min requested s.available in
    let (xs, pos) = read_loop s.ring s.read_pos n in
    (xs ++ replicate (requested - n) 0, record s { read_pos = pos; available = s.available - n })

-- Samples in memory, the lower byte first.
abbrev pub sample_bytes : List ℕ → List ℕ
sample_bytes [] = []
sample_bytes (x ∷ xs) = x % 256 ∷ x / 256 % 256 ∷ sample_bytes xs

-- Buffers of the given sizes, filled with zeros.
abbrev pub silence : List ℕ → List (List ℕ)
silence sizes = map (λ (size : ℕ). replicate size 0) sizes

-- What is in the buffers of the sizes `size ∷ sizes` afterwards, each up to its mDataByteSize: `temp` as far as
-- it fits in a buffer that is the only one, which is then as long as what is copied, and else silence.
abbrev pub copied : List ℕ → ℕ → List ℕ → List (List ℕ)
copied temp size [] = take (min (length temp * 2) size) (sample_bytes temp) ∷ []
copied temp size (more ∷ sizes) = silence (size ∷ more ∷ sizes)

-- `render` on the mDataByteSize of each buffer of `io_data`, or none for a null one; `refcon` is the object.
pub render : AppleAudioSink → ℕ → Option (List ℕ) → List (List ℕ) × AppleAudioSink
unfolding consume
render s frames none = ([], s)
render s frames (some []) = ([], s)
render s frames (some (size ∷ sizes)) =
    let (temp, t) = consume s frames in (copied temp size sizes, t)
