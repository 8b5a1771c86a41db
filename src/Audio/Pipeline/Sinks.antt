-- ===== src/Audio/Pipeline/Sinks.antt =====
-- The sinks of the repository as instances of the interface: src/callback_audio_sink.cpp, the
-- NullAudioSink of src/platform_audio.cpp, and src/apple_audio_sink.cpp.
mod Tests
use gwl_airplay.Base.{
  ℕ, ◌≡◌, refl, Bool, true, false, not, ◌||◌, ◌&&◌, List, arith, ◌==◌, if◌then◌else◌,
}
use gwl_airplay.Audio.{PcmFormat}
use gwl_airplay.Audio.AppleSink.{AppleAudioSink, Platform}
use gwl_airplay.Audio.AppleSink
use gwl_airplay.Audio.Pipeline.{AudioSink}
use gwl_airplay.Audio.Pipeline.Sync.{SinkLaws}

-- `class CallbackAudioSink`; `has_callback` says whether the std::function is set.
pub record CallbackAudioSink : Type 0 where
  pub has_callback : Bool
  pub format : PcmFormat
  pub opened : Bool

pub callback_open : CallbackAudioSink → PcmFormat → Bool × CallbackAudioSink
callback_open s f =
    if not s.has_callback
      || ((f.sample_rate == 0) || ((f.channels == 0) || not (f.bits_per_sample == 16)))
    then (false, s)
    else (true, record s { format = f; opened = true })

pub callback_close : CallbackAudioSink → CallbackAudioSink
callback_close s = record s { opened = false }

-- The samples are a list, so that the pointer is never null.
pub callback_write :
    (List ℕ → ℕ → PcmFormat → Bool) → CallbackAudioSink → List ℕ → ℕ → Bool × CallbackAudioSink
callback_write callback s samples frames =
    if not s.opened || not s.has_callback then (false, s) else (callback samples frames s.format, s)

abbrev pub callback_sink : (List ℕ → ℕ → PcmFormat → Bool) → AudioSink CallbackAudioSink
callback_sink callback = record {
  open_sink = callback_open;
  close = callback_close;
  write = callback_write callback;
}

-- The laws that the pipeline relies on hold of a sink that hands the samples to a callback, whatever the
-- callback does.
pub callback_sink-SinkLaws :
    (callback : List ℕ → ℕ → PcmFormat → Bool) → SinkLaws CallbackAudioSink (callback_sink callback)
unfolding callback_open callback_close callback_write
callback_sink-SinkLaws callback = record {
  opened = λ s. s.opened;
  open_yes = λ s f h. ground arith;
  open_no = λ s f h k. ground arith;
  close_closes = λ s. refl;
  write_keeps = λ s xs n. ground arith;
}

-- `class NullAudioSink`
pub record NullAudioSink : Type 0 where
  pub format : PcmFormat
  pub opened : Bool

pub null_open : NullAudioSink → PcmFormat → Bool × NullAudioSink
null_open s f = (true, record { format = f; opened = true })

pub null_close : NullAudioSink → NullAudioSink
null_close s = record s { opened = false }

pub null_write : NullAudioSink → List ℕ → ℕ → Bool × NullAudioSink
null_write s samples frames = (s.opened, s)

abbrev pub null_sink : AudioSink NullAudioSink
null_sink = record { open_sink = null_open; close = null_close; write = null_write }

pub null_sink-SinkLaws : SinkLaws NullAudioSink null_sink
unfolding null_open null_close null_write
null_sink-SinkLaws = record {
  opened = λ s. s.opened;
  open_yes = λ s f h. refl;
  open_no = λ s f h k. cc;
  close_closes = λ s. refl;
  write_keeps = λ s xs n. refl;
}

abbrev pub apple_sink : Platform → AudioSink AppleAudioSink
apple_sink env = record {
  open_sink = AppleSink.open_sink env;
  close = AppleSink.close;
  write = AppleSink.write;
}

-- The laws hold of the CoreAudio sink, whichever of the platform's calls fail.
pub apple_sink-SinkLaws : (env : Platform) → SinkLaws AppleAudioSink (apple_sink env)
unfolding AppleSink.open_sink AppleSink.write
apple_sink-SinkLaws env = record {
  opened = λ s. s.opened;
  open_yes = λ s f h. ground arith;
  open_no = λ s f h k. ground arith;
  close_closes = λ s. refl;
  write_keeps = λ s xs n. ground arith;
}
