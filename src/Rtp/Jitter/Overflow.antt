-- ===== src/Rtp/Jitter/Overflow.antt =====
-- What `push` counts, and what it throws away when the buffer is full.
use gwl_airplay.Base.{
  ℕ, suc, ◌+◌, ◌≤◌, ◌<◌, ◌≡◌, refl, ◌∙◌, true, false, [], ◌∷◌, none, some, arith, length, ◌==◌,
  if◌then◌else◌, is_some,
}
use gwl_airplay.Base.Map.{
  nat_ord, lookup, insert, KeysFrom, KeysFrom-mono, insert-KeysFrom, length-insert, lookup-insert,
  lookup-insert_self,
}
use gwl_airplay.Base.Words.{inc16, inc64}
use gwl_airplay.Rtp.{RtpPacket}
use gwl_airplay.Rtp.Jitter.{RtpJitterBuffer, Packets, sequence_before, evict, store, push}
use native.Mathlib.Decide.{dec_lt}
use gwl_airplay.Rtp.Jitter.Delivery.{push_accepted}
use gwl_airplay.Rtp.Jitter.Invariant.{IsValid, evict_fits}

-- `push` counts every packet as received; it refuses exactly the late and the duplicate ones, counts
-- each as discarded and keeps the map; and it takes the others, with the discards unchanged.
pub push_counts :
    (b : RtpJitterBuffer) (p : RtpPacket)
    → b.initialized ≡ true
    → let (taken, c) = push b p in
      (c.stats.received ≡ inc64 b.stats.received)
      × (taken ≡ (
          if sequence_before p.sequence b.expected_sequence
          then false
          else if is_some (lookup p.sequence b.packets)
          then false
          else true))
      × (c.stats.discarded ≡ (if taken then b.stats.discarded else inc64 b.stats.discarded))
      × (taken ≡ false → c.packets ≡ b.packets)
      × (taken ≡ false → c.expected_sequence ≡ b.expected_sequence)
unfolding push store
push_counts b p i = ground arith

lookup_empty : (k : ℕ) (m : Packets) → length m ≡ 0 → lookup k m ≡ none
lookup_empty k [] h = refl
lookup_empty k ((j, q) ∷ m) h = absurd (omega arith)

-- The first packet of a stream is always taken, and the stream starts at its number.
pub push_first :
    (b : RtpJitterBuffer) (p : RtpPacket)
    → IsValid b
    → b.initialized ≡ false
    → p.sequence < 65536
    → ((push b p).0 ≡ true)
      × ((push b p).1.expected_sequence ≡ p.sequence)
      × (lookup p.sequence (push b p).1.packets ≡ some p)
unfolding push store
push_first b p v i h = ground (
  arith,
  lookup_empty p.sequence b.packets (v.fresh i),
  length-insert p.sequence p b.packets,
  lookup-insert_self p.sequence p b.packets,
  evict_fits b.capacity p.sequence b.stats.lost (insert p.sequence p b.packets),
)

-- With room for it, a packet that is taken counts as reordered when it is not the expected one.
push_reordered :
    (b : RtpJitterBuffer) (p : RtpPacket)
    → b.initialized ≡ true
    → sequence_before p.sequence b.expected_sequence ≡ false
    → lookup p.sequence b.packets ≡ none
    → (push b p).1.stats.reordered
      ≡ (if p.sequence == b.expected_sequence then b.stats.reordered else inc64 b.stats.reordered)
unfolding push store
push_reordered b p i late known = ground arith

-- A packet that comes right behind the expected one, in order, counts as reordered when the expected
-- one has not been popped yet.
pub in_order_counted_reordered :
    (b : RtpJitterBuffer) (p q : RtpPacket)
    → IsValid b
    → b.initialized ≡ true
    → length b.packets + 2 ≤ b.capacity
    → p.sequence ≡ b.expected_sequence
    → q.sequence ≡ inc16 b.expected_sequence
    → lookup p.sequence b.packets ≡ none
    → lookup q.sequence b.packets ≡ none
    → (push (push b p).1 q).1.stats.reordered ≡ inc64 b.stats.reordered
in_order_counted_reordered b p q v i room ep eq' kp kq =
    let late : sequence_before p.sequence b.expected_sequence ≡ false = ground arith in
    let late' : sequence_before q.sequence b.expected_sequence ≡ false = ground arith in
    let (_, m, e, i', cap) = push_accepted b p i late kp (omega arith) in
    let known : lookup q.sequence (push b p).1.packets ≡ none =
      rw m (lookup-insert q.sequence p.sequence p b.packets ∙ ground arith) in
    push_reordered (push b p).1 q i' (rw e late') known
    ∙ ground (arith, e, push_reordered b p i late kp)

-- The eviction of a buffer that holds one packet too many: only the head of the map goes.
evict_head :
    (capacity e l k : ℕ) (q : RtpPacket) (m : Packets)
    → length m ≡ capacity
    → evict capacity e l ((k, q) ∷ m)
      ≡ (if k == e then inc16 e else inc16 k, if k == e then l else inc64 l, m)
unfolding evict
evict_head capacity e l k q m h = ground (
  arith,
  evict_fits capacity (if k == e then inc16 e else inc16 k) (if k == e then l else inc64 l) m,
)

evict_no_stale :
    (capacity e l : ℕ) (m : Packets)
    → length m ≤ suc capacity
    → KeysFrom e m
    → KeysFrom (evict capacity e l m).0 (evict capacity e l m).2
evict_no_stale capacity e l [] h s = unfold evict in tt
evict_no_stale capacity e l ((k, q) ∷ m) h s = elim (dec_lt (length m) capacity) [
  | yes fits ↦ rw (evict_fits capacity e l ((k, q) ∷ m) (omega arith)) s
  | no over ↦
      rw (evict_head capacity e l k q m (omega arith))
        (KeysFrom-mono (if k == e then inc16 e else inc16 k) (suc k) m (ground arith) s.1)
]

-- While the numbers in the buffer have not wrapped round (all are numerically at or above the
-- expected one), taking one more packet leaves nothing behind the new expected number, even where
-- the buffer is full and a packet is thrown away.
pub store_no_stale :
    (b : RtpJitterBuffer) (p : RtpPacket)
    → IsValid b
    → KeysFrom b.expected_sequence b.packets
    → b.expected_sequence ≤ p.sequence
    → lookup p.sequence b.packets ≡ none
    → KeysFrom (store b p).expected_sequence (store b p).packets
unfolding store
store_no_stale b p v s h known =
    evict_no_stale b.capacity b.expected_sequence b.stats.lost (insert p.sequence p b.packets)
      (omega (arith, length-insert p.sequence p b.packets known, v.bounded))
      (insert-KeysFrom b.expected_sequence p.sequence p b.packets h s)
