-- ===== src/Audio/AppleSink/Tests.antt =====
-- A ring of six samples that has gone round, and the theorems at concrete inputs.
use gwl_airplay.Base.{◌≡◌, refl, true, false, [], ◌∷◌, some, take, arith}
use gwl_airplay.Audio.{PcmFormat}
use gwl_airplay.Audio.AppleSink.{
  AppleAudioSink, Platform, write, read_loop, consume, sample_bytes, render, write_loop,
}
use gwl_airplay.Audio.AppleSink.Refine.{put, get, Reply, run, run_queue, view, run_refines}
use gwl_airplay.Audio.AppleSink.Queue.{IsRunning, played, Advanced, render_lem}

abbrev stereo : PcmFormat
stereo = record { sample_rate = 2; channels = 2; bits_per_sample = 16 }

abbrev turned : AppleAudioSink
turned = record {
  unit = true;
  format = stereo;
  ring = 3 ∷ 4 ∷ 0 ∷ 0 ∷ 1 ∷ 2 ∷ [];
  read_pos = 4;
  write_pos = 2;
  available = 4;
  opened = true;
}

abbrev closed : AppleAudioSink
closed = record turned {
  unit = false;
  opened = false;
  ring = [];
  read_pos = 0;
  write_pos = 0;
  available = 0;
}

abbrev willing : Platform
willing = record { instance_new = true; set_format = true; set_callback = true; start = true }

turned-IsRunning : IsRunning turned
turned-IsRunning = record { on = refl; read_in = omega arith; fits = omega arith; write_at = refl }

-- A buffer for two frames and a half of the three that are asked for, of which there are two.
render_past_end :
    (render turned 3 (some (10 ∷ []))).0 ≡ (1 ∷ 0 ∷ 2 ∷ 0 ∷ 3 ∷ 0 ∷ 4 ∷ 0 ∷ 0 ∷ 0 ∷ []) ∷ []
unfolding render consume read_loop
render_past_end = refl

-- Two buffers get silence, and two frames are gone.
render_two_buffers :
    ((render turned 2 (some (4 ∷ 4 ∷ []))).0 ≡ (0 ∷ 0 ∷ 0 ∷ 0 ∷ []) ∷ (0 ∷ 0 ∷ 0 ∷ 0 ∷ []) ∷ [])
    × ((render turned 2 (some (4 ∷ 4 ∷ []))).1.available ≡ 0)
unfolding render consume read_loop
render_two_buffers = (refl, refl)

write_refused : (write turned (5 ∷ 6 ∷ 7 ∷ 8 ∷ []) 2).0 ≡ false
unfolding write
write_refused = refl

render_lem_example :
    let (out, t) = render turned 3 (some (10 ∷ [])) in
    (out ≡ take 10 (sample_bytes (played turned 3)) ∷ []) × Advanced turned 3 t
render_lem_example = (render_lem turned 3 turned-IsRunning).2 10

run_refines_example :
    run turned (get 1 (some (4 ∷ [])) ∷ put (5 ∷ 6 ∷ []) 1 ∷ get 3 (some (8 ∷ [])) ∷ [])
    ≡ run_queue
        (view turned)
        (get 1 (some (4 ∷ [])) ∷ put (5 ∷ 6 ∷ []) 1 ∷ get 3 (some (8 ∷ [])) ∷ [])
run_refines_example =
    run_refines (get 1 (some (4 ∷ [])) ∷ put (5 ∷ 6 ∷ []) 1 ∷ get 3 (some (8 ∷ [])) ∷ []) turned
      turned-IsRunning (refl, omega arith, tt)

played_in_order :
    run turned (get 1 (some (4 ∷ [])) ∷ put (5 ∷ 6 ∷ []) 1 ∷ get 2 (some (8 ∷ [])) ∷ [])
    ≡ Reply.heard ((1 ∷ 0 ∷ 2 ∷ 0 ∷ []) ∷ [])
      ∷ Reply.taken true
      ∷ Reply.heard ((3 ∷ 0 ∷ 4 ∷ 0 ∷ 5 ∷ 0 ∷ 6 ∷ 0 ∷ []) ∷ [])
      ∷ []
unfolding run write render consume write_loop read_loop
played_in_order = refl
