-- ===== src/Rtp/Worker.antt =====
-- RtpReceiver::receive of src/rtp.cpp around the parser of Packet, and the loop of the worker that start_worker
-- makes.
use gwl_airplay.Base.{ℕ, Bool, not, ◌&&◌, List, [], ◌∷◌, Option, none, some, ltb, if◌then◌else◌}
use gwl_airplay.Rtp.{RtpPacket}
use gwl_airplay.Rtp.Packet.{parse}
use gwl_airplay.Rtp.Receiver.{RtpReceiver, running}

-- What a call of `receive` finds: whether select says that there is something to read, and the bytes of
-- recvfrom, or none where it fails.
pub record Arrival : Type 0 where
  pub ready : Bool
  pub recvfrom : Option (List ℕ)

-- A round of the worker: the receiver as it is by then, and what arrives.
pub record Round {ℓ} (F : Type ℓ) : Type ℓ where
  pub receiver : RtpReceiver F
  pub arrival : Arrival

abbrev parsed : Option (List ℕ) → Option RtpPacket
parsed none = none
parsed (some datagram) = parse datagram

module _ {ℓ} {F : Type ℓ} where
  unfoldable pub receive : RtpReceiver F → Arrival → ℕ → Option RtpPacket
  receive r a timeout_ms =
      if not (running r)
      then none
      else if ltb 0 timeout_ms && not a.ready
      then none
      else parsed a.recvfrom

module _ {ℓ κ} {F : Type ℓ} {A : Type κ} (call : F → RtpPacket → A → A) where
  abbrev called : Option F → RtpPacket → A → A
  called none packet a = a
  called (some handler) packet a = call handler packet a

  abbrev handed : Option F → Option RtpPacket → A → A
  handed handler none a = a
  handed handler (some packet) a = called handler packet a

  -- The worker's loop, on what its handlers change.
  unfoldable pub work : List (Round F) → A → A
  unfolding receive
  work [] a = a
  work (r ∷ rounds) a =
      let rest = work rounds (handed r.receiver.handler (receive r.receiver r.arrival 100) a) in
      if not r.receiver.worker_running then a else rest
