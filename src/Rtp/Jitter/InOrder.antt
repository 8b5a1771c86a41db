-- ===== src/Rtp/Jitter/InOrder.antt =====
-- A packet that the buffer is waiting for goes straight through.
use gwl_airplay.Base.{ℕ, zero, suc, ◌≤◌, ◌≡◌, ◌∙◌, refl, ap, true, false, [], ◌∷◌, some, arith}
use gwl_airplay.Base.Map.{nat_ord}
use gwl_airplay.Base.Words.{inc16, inc64}
use gwl_airplay.Rtp.{RtpPacket}
use gwl_airplay.Rtp.Jitter.{
  RtpJitterBuffer, RtpStreamStats, sequence_before, evict, store, arrive, push, take_found, pop,
  drain,
}

-- A buffer that holds nothing and waits for `expected`.
abbrev pub waiting_for : ℕ → ℕ → RtpStreamStats → RtpJitterBuffer
waiting_for capacity expected stats = record {
  capacity = capacity;
  initialized = true;
  expected_sequence = expected;
  packets = [];
  stats = stats;
}

-- A packet has been received, and nothing else has happened.
abbrev pub counted : RtpStreamStats → RtpStreamStats
counted s = record s { received = inc64 s.received }

not_before : (e : ℕ) → sequence_before e e ≡ false
not_before e = ground arith

drain_empty :
    (fuel capacity expected : ℕ) (stats : RtpStreamStats)
    → drain fuel (waiting_for capacity expected stats) ≡ ([], waiting_for capacity expected stats)
unfolding drain pop take_found
drain_empty zero capacity expected stats = refl
drain_empty (suc fuel) capacity expected stats = refl

drain-some :
    (fuel : ℕ) (b : RtpJitterBuffer) (q : RtpPacket) (c : RtpJitterBuffer)
    → pop b ≡ some (q, c)
    → drain (suc fuel) b ≡ (q ∷ (drain fuel c).0, (drain fuel c).1)
unfolding drain
drain-some fuel b q c e = rw (drain, e) refl

module _ (capacity : ℕ) (p : RtpPacket) (stats : RtpStreamStats) where
  abbrev pub held : RtpJitterBuffer
  held = record (waiting_for capacity p.sequence (counted stats)) { packets = (p.sequence, p) ∷ [] }

  store_next : 1 ≤ capacity → store (waiting_for capacity p.sequence (counted stats)) p ≡ held
  unfolding store evict
  store_next h = ground arith

  pub push_next : 1 ≤ capacity → push (waiting_for capacity p.sequence stats) p ≡ (true, held)
  unfolding push arrive
  push_next h = rw (not_before p.sequence) (ap (λ b. (true, b)) (store_next h))

  pop-held : pop held ≡ some (p, waiting_for capacity (inc16 p.sequence) (counted stats))
  unfolding pop take_found
  pop-held = ground arith

  pub drain_next :
      (fuel : ℕ)
      → drain (suc fuel) held ≡ (p ∷ [], waiting_for capacity (inc16 p.sequence) (counted stats))
  drain_next fuel =
      drain-some fuel held p (waiting_for capacity (inc16 p.sequence) (counted stats)) pop-held
      ∙ ap (λ r. (p ∷ r.0, r.1)) (drain_empty fuel capacity (inc16 p.sequence) (counted stats))
