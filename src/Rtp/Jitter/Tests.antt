-- ===== src/Rtp/Jitter/Tests.antt =====
-- Runs of the jitter buffer: those of tests/core_tests.cpp, and the theorems at concrete inputs.
use gwl_airplay.Base.{ℕ, ◌*◌, ◌≡◌, refl, true, false, List, [], ◌∷◌, map, arith}
use gwl_airplay.Base.Map.{nat_ord}
use gwl_airplay.Rtp.{RtpPacket}
use gwl_airplay.Rtp.Jitter.{RtpJitterBuffer, no_stats, new, evict, store, push, pop, drain}
use gwl_airplay.Rtp.Jitter.Invariant.{IsValid, push-IsValid}
use gwl_airplay.Rtp.Jitter.Delivery.{Drained, drain_lem, push_all, batch_delivery, delivered}
use gwl_airplay.Rtp.Jitter.Overflow.{push_first}

abbrev packet : ℕ → RtpPacket
packet s = record {
  payload_type = 0;
  sequence = s;
  timestamp = s * 352;
  ssrc = 0;
  marker = false;
  payload = 1 ∷ 2 ∷ 3 ∷ [];
}

-- A running buffer with no packet that expects the number `e`.
abbrev waiting : ℕ → ℕ → RtpJitterBuffer
waiting capacity e = record {
  capacity = capacity;
  initialized = true;
  expected_sequence = e;
  packets = [];
  stats = no_stats;
}

-- Two packets from before the wrap and one from after it, in a full buffer that waits for 65533.
abbrev wrapped : RtpJitterBuffer
wrapped = record (waiting 2 65533) { packets = (65534, packet 65534) ∷ (65535, packet 65535) ∷ [] }

wrapped-IsValid : IsValid wrapped
wrapped-IsValid = ground arith

waiting-IsValid : IsValid (waiting 8 65535)
waiting-IsValid = ground arith

numbers : List RtpPacket → List ℕ
numbers = map (λ p. p.sequence)

reordering :
    numbers (drain 8 (push_all (new 8) (packet 100 ∷ packet 102 ∷ packet 101 ∷ []))).0
    ≡ 100 ∷ 101 ∷ 102 ∷ []
unfolding numbers drain push_all new push store evict pop
reordering = refl

-- The test of the source asserts 1 here.
reordering_counts_two :
    (push_all (new 8) (packet 100 ∷ packet 102 ∷ packet 101 ∷ [])).stats.reordered ≡ 2
unfolding push_all new push store evict
reordering_counts_two = refl

wraparound : numbers (drain 8 (push_all (new 8) (packet 65535 ∷ packet 0 ∷ []))).0 ≡ 65535 ∷ 0 ∷ []
unfolding numbers drain push_all new push store evict pop
wraparound = refl

duplicate : (push (push (new 8) (packet 10)).1 (packet 10)).0 ≡ false
unfolding new push store evict
duplicate = refl

push-IsValid_example : IsValid (push wrapped (packet 0)).1
push-IsValid_example = push-IsValid wrapped (packet 0) (omega arith) wrapped-IsValid

drain_lem_example : Drained wrapped (drain 3 wrapped)
drain_lem_example = drain_lem 3 wrapped (omega arith) wrapped-IsValid

batch_delivery_example :
    (drain 9 (push_all (waiting 8 65535) (packet 1 ∷ packet 65535 ∷ packet 0 ∷ []))).0
    ≡ packet 65535 ∷ packet 0 ∷ packet 1 ∷ []
unfolding delivered
batch_delivery_example =
    batch_delivery 9 (waiting 8 65535) (packet 1 ∷ packet 65535 ∷ packet 0 ∷ []) (omega arith)
      waiting-IsValid refl (ground arith)

push_first_example : (push (new 4) (packet 7)).0 ≡ true
unfolding new
push_first_example = (push_first (new 4) (packet 7) (ground arith) refl (omega arith)).0
