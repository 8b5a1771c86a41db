-- ===== src/Rtp/Receiver.antt =====
-- The life cycle of RtpReceiver, src/rtp.cpp: the socket, the handler and the worker thread, which calls
-- `receive` (Packet) while `worker_running` holds.
pub mod Cycle
mod Tests
use gwl_airplay.Base.{ℕ, Bool, true, false, not, Option, none, some, is_some, if◌then◌else◌}

-- `RtpReceiver::Impl`; `fd` is none where the source has -1.
pub record RtpReceiver {ℓ} (F : Type ℓ) : Type ℓ where
  pub fd : Option ℕ
  pub port : ℕ
  pub handler : Option F
  pub worker_running : Bool
  pub has_worker : Bool

-- What the calls of `bind` give: the new socket, whether it is bound, and the port of getsockname.
pub record Network : Type 0 where
  pub socket : Option ℕ
  pub bind : Bool
  pub getsockname : Option ℕ

abbrev port_of : Option ℕ → ℕ → ℕ
port_of none port = port
port_of (some actual) port = actual

module _ {ℓ} {F : Type ℓ} where
  pub stop_worker : RtpReceiver F → RtpReceiver F
  stop_worker r = record r { worker_running = false; has_worker = false }

  pub start_worker : RtpReceiver F → RtpReceiver F
  start_worker r =
      if r.worker_running then r else record r { worker_running = true; has_worker = true }

  abbrev pub running : RtpReceiver F → Bool
  running r = is_some r.fd

  pub close : RtpReceiver F → RtpReceiver F
  unfolding stop_worker
  close r = let q = stop_worker r in if not (running q) then q else record q { fd = none; port = 0 }

  bind_on : RtpReceiver F → Network → Option ℕ → Bool × RtpReceiver F
  unfolding close start_worker
  bind_on r net none = (false, record r { fd = none })
  bind_on r net (some fd) =
      let q = record r { fd = some fd } in
      if not net.bind
      then (false, close q)
      else let bound = record q { port = port_of net.getsockname r.port } in
        (true, if is_some bound.handler then start_worker bound else bound)

  pub bind : RtpReceiver F → Network → Bool × RtpReceiver F
  unfolding bind_on
  bind r net = if running r then (true, r) else bind_on r net net.socket

  pub set_packet_handler : RtpReceiver F → Option F → RtpReceiver F
  unfolding start_worker
  set_packet_handler r handler =
      let q = record r { handler = handler } in if running q then start_worker q else q

  pub clear_packet_handler : RtpReceiver F → RtpReceiver F
  unfolding stop_worker
  clear_packet_handler r = record (stop_worker r) { handler = none }
