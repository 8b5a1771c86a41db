-- ===== src/Audio/Clock/Tests.antt =====
-- A clock whose media time wraps around.
use gwl_airplay.Base.{◌≡◌, ◌^◌, ◌-◌, ◌+◌, ◌%◌, false, arith}
use gwl_airplay.Audio.Clock.{AudioClock, start, media_to_wall, media_to_wall-start}

abbrev stopped : AudioClock
stopped = record { started = false; media_origin = 0; wall_origin = 0 }

wraps_around : media_to_wall (start (2 ^ 64 - 1) 100 stopped) ((2 ^ 64 - 1 + 5) % 2 ^ 64) ≡ 105
wraps_around =
    media_to_wall-start stopped (2 ^ 64 - 1) 100 5 (omega arith) (omega arith) (omega arith)
