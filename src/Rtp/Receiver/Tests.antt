-- ===== src/Rtp/Receiver/Tests.antt =====
-- A receiver that gets a handler and a socket, and the theorems at concrete inputs.
use gwl_airplay.Base.{ℕ, ◌≡◌, refl, true, false, none, some, arith}
use gwl_airplay.Rtp.Receiver.{RtpReceiver, Network, running, close, bind}
use gwl_airplay.Rtp.Receiver.Cycle.{IsWhole, close-IsWhole, bind-IsWhole}

abbrev idle : RtpReceiver ℕ
idle = record { fd = none; port = 0; handler = none; worker_running = false; has_worker = false }

abbrev willing : Network
willing = record { socket = some 5; bind = true; getsockname = some 6000 }

idle-IsWhole : IsWhole idle
idle-IsWhole = record { thread = refl; on_socket = ground arith; served = ground arith }

bind-IsWhole_example : IsWhole (bind idle willing).1
bind-IsWhole_example = (bind-IsWhole idle willing idle-IsWhole).0

close-IsWhole_example : running (close (bind idle willing).1) ≡ false
close-IsWhole_example = (close-IsWhole (bind idle willing).1).1
