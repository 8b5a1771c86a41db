-- ===== src/Audio/Clock.antt =====
-- src/audio_clock.cpp, AudioClock. A TimeNs is the 64 bits of its two's complement; where the sums leave the
-- signed range, which the source's language leaves open, they wrap around. `now` is the system's clock.
mod Tests
use gwl_airplay.Base.{ℕ, ◌≡◌, ◌+◌, ◌-◌, ◌%◌, ◌^◌, ◌<◌, Bool, true, false, not, arith, if◌then◌else◌}

pub record AudioClock : Type 0 where
  pub started : Bool
  pub media_origin : ℕ
  pub wall_origin : ℕ

abbrev pub reset : AudioClock → AudioClock
reset c = record { started = false; media_origin = 0; wall_origin = 0 }

abbrev pub start : ℕ → ℕ → AudioClock → AudioClock
start media_timestamp wall_time_ns c = record {
  started = true;
  media_origin = media_timestamp;
  wall_origin = wall_time_ns;
}

-- The difference of two TimeNs.
abbrev pub minus : ℕ → ℕ → ℕ
minus a b = (a + (2 ^ 64 - b)) % 2 ^ 64

pub media_to_wall : AudioClock → ℕ → ℕ
media_to_wall c media_timestamp =
    if not c.started then 0 else (c.wall_origin + minus media_timestamp c.media_origin) % 2 ^ 64

-- On a clock that is started at any media and wall time, the media time `d` later is at the wall time `d` later,
-- also where the media time wraps around, and two media times are as far apart as their wall times.
pub media_to_wall-start :
    (c : AudioClock) (media wall d : ℕ)
    → media < 2 ^ 64
    → wall < 2 ^ 64
    → d < 2 ^ 64
    → media_to_wall (start media wall c) ((media + d) % 2 ^ 64) ≡ (wall + d) % 2 ^ 64
unfolding media_to_wall
media_to_wall-start c media wall d m w h = omega arith
