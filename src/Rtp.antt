-- ===== src/Rtp.antt =====
-- include/airplay2/rtp.h: the packet that the receiver, the jitter buffer and the audio pipeline
-- share. The parts of the RTP path are the child modules.
pub mod Packet
pub mod Receiver
pub mod Worker
pub mod Jitter
use gwl_airplay.Base.{ℕ, Bool, List}

-- `struct RtpPacket`
pub record RtpPacket : Type 0 where
  pub payload_type : ℕ
  pub sequence : ℕ
  pub timestamp : ℕ
  pub ssrc : ℕ
  pub marker : Bool
  pub payload : List ℕ
