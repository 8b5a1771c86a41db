-- ===== src/Rtsp/State/Order.antt =====
-- The media path: what a packet changes, and the order in which packets are handed on.
use gwl_airplay.Base.{
  suc, ◌<◌, ◌≡◌, ◌∙◌, sym, ap, subst, true, not, List, ◌++◌, arith, if◌then◌else◌, length,
}
use gwl_airplay.Rtp.{RtpPacket}
use gwl_airplay.Rtp.Jitter
use gwl_airplay.Rtp.Jitter.{RtpJitterBuffer}
use gwl_airplay.Rtp.Jitter.Invariant.{IsValid, push-IsValid}
use gwl_airplay.Rtp.Jitter.Delivery.{Drained, drain_lem}
use gwl_airplay.Audio.Pipeline.{AlacDecoder, AudioSink}
use gwl_airplay.Rtsp.State.{RtspSession, hand_on, handle_media_packet}

module _ {ℓ κ} {D : Type ℓ} {S : Type κ} (dec : AlacDecoder D) (out : AudioSink S) where
  -- A packet changes neither the state of the session nor its sockets.
  pub handle_media_packet_keeps :
      (s : RtspSession D S) (p : RtpPacket)
      → let t = handle_media_packet dec out s p in
        (t.recording ≡ s.recording)
        × (t.configured ≡ s.configured)
        × (t.media_receiver ≡ s.media_receiver)
  unfolding handle_media_packet hand_on
  handle_media_packet_keeps s p = (ground arith, ground arith, ground arith)

  pub taken :
      (s : RtspSession D S) (p : RtpPacket)
      → s.recording ≡ true
      → (Jitter.push s.jitter_buffer p).0 ≡ true
      → handle_media_packet dec out s p ≡ hand_on dec out s p (Jitter.push s.jitter_buffer p).1
  unfolding handle_media_packet
  taken s p r e =
      let (taken, buffer) = Jitter.push s.jitter_buffer p in
      let dropped = record s { jitter_buffer = buffer } in
      let handed = hand_on dec out s p buffer in
      ap (λ b. if not b then s else if not taken then dropped else handed) r
      ∙ ap (λ b. if not b then dropped else handed) e

  -- The packets that a call hands on, and the session after it.
  pub record HandsOn (s t : RtspSession D S) (buffer : RtpJitterBuffer) : Type (ℓ ⊔ κ) where
    pub packets : List RtpPacket
    pub appended : t.delivered ≡ s.delivered ++ packets
    pub drained : Drained buffer (packets, t.jitter_buffer)

  hand_on-HandsOn :
      (s : RtspSession D S) (p : RtpPacket) (buffer : RtpJitterBuffer)
      → IsValid buffer
      → s.has_handler ≡ true
      → HandsOn s (hand_on dec out s p buffer) buffer
  unfolding hand_on
  hand_on-HandsOn s p buffer v h =
      let r = Jitter.drain (suc (length buffer.packets)) buffer in
      record {
        packets = r.0;
        appended = ap (λ b. if b then s.delivered ++ r.0 else s.delivered) h;
        drained = drain_lem (suc (length buffer.packets)) buffer (omega arith) v;
      }

  -- A recording session whose buffer takes a packet gives its handler packets with consecutive sequence
  -- numbers, from the one that the buffer expects on, and keeps a valid buffer that has nothing more to
  -- give.
  pub handle_media_packet-HandsOn :
      (s : RtspSession D S) (p : RtpPacket)
      → p.sequence < 65536
      → IsValid s.jitter_buffer
      → s.recording ≡ true
      → s.has_handler ≡ true
      → (Jitter.push s.jitter_buffer p).0 ≡ true
      → HandsOn s (handle_media_packet dec out s p) (Jitter.push s.jitter_buffer p).1
  handle_media_packet-HandsOn s p b v r h e =
      let buffer = (Jitter.push s.jitter_buffer p).1 in
      subst (λ t. HandsOn s t buffer) (sym (taken s p r e))
        (hand_on-HandsOn s p buffer (push-IsValid s.jitter_buffer p b v) h)
