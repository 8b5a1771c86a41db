-- ===== src/Rtsp/State/Stream.antt =====
-- The whole media path: datagrams that arrive in order go through to the handler.
mod Tests
use gwl_airplay.Base.{
  All, ℕ, suc, ◌≤◌, ◌<◌, ◌≡◌, ◌∙◌, refl, ap, sym, subst, true, false, not, List, [], ◌∷◌, ◌++◌, map,
  Option, none, some, arith, length, append_assoc, append-nil, if◌then◌else◌,
}
use gwl_airplay.Base.Words.{inc16}
use gwl_airplay.Rtp.{RtpPacket}
use gwl_airplay.Rtp.Packet.Wire.{Wire, IsWire, write}
use gwl_airplay.Rtp.Packet.RoundTrip.{parse-write}
use gwl_airplay.Rtp.Receiver.{RtpReceiver, running}
use gwl_airplay.Rtp.Worker.{Round, receive, work}
use gwl_airplay.Rtp.Jitter
use gwl_airplay.Rtp.Jitter.{RtpJitterBuffer, RtpStreamStats}
use gwl_airplay.Rtp.Jitter.InOrder.{waiting_for, counted, held, push_next, drain_next}
use gwl_airplay.Audio.Pipeline.{AlacDecoder, AudioSink}
use gwl_airplay.Rtsp.State.Order.{taken}
use gwl_airplay.Rtsp.State.{RtspSession, hand_on, handle_media_packet}

-- Packets with consecutive sequence numbers, from `expected` on.
abbrev pub IsInOrder : ℕ → List RtpPacket → Type 0
IsInOrder expected [] = Unit {0}
IsInOrder expected (p ∷ ps) = (p.sequence ≡ expected) × IsInOrder (inc16 expected) ps

module _ {ℓ κ} {D : Type ℓ} {S : Type κ} (dec : AlacDecoder D) (out : AudioSink S) where
  abbrev pub handle_all : List RtpPacket → RtspSession D S → RtspSession D S
  handle_all [] s = s
  handle_all (p ∷ ps) s = handle_all ps (handle_media_packet dec out s p)

  -- A session that records for a handler, with an empty buffer that waits for `expected`.
  pub record IsStreaming (capacity expected : ℕ) (stats : RtpStreamStats) (s : RtspSession D S)
      : Type (ℓ ⊔ κ) where
    pub recording : s.recording ≡ true
    pub has_handler : s.has_handler ≡ true
    pub buffer : s.jitter_buffer ≡ waiting_for capacity expected stats

  module _ (capacity : ℕ) (h : 1 ≤ capacity) where
    handle_next :
        (p : RtpPacket) (stats : RtpStreamStats) (s : RtspSession D S)
        → IsStreaming capacity p.sequence stats s
        → IsStreaming capacity (inc16 p.sequence) (counted stats) (handle_media_packet dec out s p)
          × ((handle_media_packet dec out s p).delivered ≡ s.delivered ++ (p ∷ []))
    unfolding hand_on
    handle_next p stats s i =
        let pushed : Jitter.push s.jitter_buffer p ≡ (true, held capacity p stats) =
          ap (λ b. Jitter.push b p) i.buffer ∙ push_next capacity p stats h in
        let size = λ (b : RtpJitterBuffer). suc (length b.packets) in
        let buffer = (Jitter.push s.jitter_buffer p).1 in
        let drained : Jitter.drain (size buffer) buffer
            ≡ (p ∷ [], waiting_for capacity (inc16 p.sequence) (counted stats)) =
          ap (λ r. Jitter.drain (size r.1) r.1) pushed ∙ drain_next capacity p stats 1 in
        let packets = (Jitter.drain (size buffer) buffer).0 in
        let e = taken dec out s p i.recording (ap (λ r. r.0) pushed) in
        (
          record {
            recording = ap (λ t. t.recording) e ∙ i.recording;
            has_handler = ap (λ t. t.has_handler) e ∙ i.has_handler;
            buffer = ap (λ t. t.jitter_buffer) e ∙ ap (λ r. r.1) drained;
          },
          ap (λ t. t.delivered) e
              ∙ ap (λ b. if b then s.delivered ++ packets else s.delivered) i.has_handler
              ∙ ap (λ r. s.delivered ++ r.0) drained,
        )

    -- Packets with consecutive numbers from the one that a recording session with an empty buffer waits for on
    -- reach its handler, all of them and in their order, and none stays in the buffer.
    pub handle_all-delivered :
        (ps : List RtpPacket) (expected : ℕ) (stats : RtpStreamStats) (s : RtspSession D S)
        → IsInOrder expected ps
        → IsStreaming capacity expected stats s
        → ((handle_all ps s).delivered ≡ s.delivered ++ ps)
          × ((handle_all ps s).jitter_buffer.packets ≡ [])
    handle_all-delivered [] expected stats s o i =
        (sym (append-nil s.delivered), ap (λ b. b.packets) i.buffer)
    handle_all-delivered (p ∷ ps) expected stats s (e, o) i =
        let (j, d) =
          handle_next p stats s (subst (λ n. IsStreaming capacity n stats s) (sym e) i) in
        let j' =
          subst
            (λ n. IsStreaming capacity (inc16 n) (counted stats) (handle_media_packet dec out s p))
            e j in
        let (a, b) =
          handle_all-delivered ps (inc16 expected) (counted stats) (handle_media_packet dec out s p)
            o j' in
        (a ∙ ap (λ xs. xs ++ ps) d ∙ append_assoc s.delivered (p ∷ []) ps, b)

  -- A receiver with a socket and a handler, whose worker runs.
  pub record IsListening {F : Type 0} (r : RtpReceiver F) (handler : F) : Type 0 where
    pub open_ : running r ≡ true
    pub handled : r.handler ≡ some handler
    pub works : r.worker_running ≡ true

  -- What the session installs as its packet handler.
  abbrev pub handle_packet : Unit {0} → RtpPacket → RtspSession D S → RtspSession D S
  handle_packet handler p s = handle_media_packet dec out s p

  abbrev pub round_of : RtpReceiver (Unit {0}) → Wire → Round (Unit {0})
  round_of r w = record {
    receiver = r;
    arrival = record { ready = true; recvfrom = some (write w) };
  }

  work-handle_all :
      (r : RtpReceiver (Unit {0})) (ws : List Wire) (s : RtspSession D S)
      → IsListening r tt
      → All IsWire ws
      → work handle_packet (map (round_of r) ws) s ≡ handle_all (map (λ w. w.packet) ws) s
  unfolding work receive
  work-handle_all r [] s l a = refl
  work-handle_all r (w ∷ ws) s l (a, rest) =
      rw (l.works, l.open_, l.handled, parse-write w a)
        (work-handle_all r ws (handle_media_packet dec out s w.packet) l rest)

  -- From the datagrams to the handler: what a sender writes with consecutive sequence numbers, from the one that
  -- a recording session with a handler and an empty buffer waits for on, reaches the session's handler through
  -- the running worker of an open receiver, all of it and in its order.
  pub work-delivered :
      (capacity : ℕ)
      → 1 ≤ capacity
      → (r : RtpReceiver (Unit {0})) (ws : List Wire) (expected : ℕ) (stats : RtpStreamStats)
        (s : RtspSession D S)
      → IsListening r tt
      → All IsWire ws
      → IsInOrder expected (map (λ w. w.packet) ws)
      → IsStreaming capacity expected stats s
      → (work handle_packet (map (round_of r) ws) s).delivered
        ≡ s.delivered ++ map (λ w. w.packet) ws
  work-delivered capacity h r ws expected stats s l a o i =
      ap (λ t. t.delivered) (work-handle_all r ws s l a)
      ∙ (handle_all-delivered capacity h (map (λ w. w.packet) ws) expected stats s o i).0
