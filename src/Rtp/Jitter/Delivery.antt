-- ===== src/Rtp/Jitter/Delivery.antt =====
-- What a consumer of the jitter buffer gets: the packets in sequence, whatever order they came in.
use gwl_airplay.Base.{
  ℕ, zero, suc, ◌+◌, ◌-◌, ◌%◌, ◌≤◌, ◌<◌, ◌≡◌, refl, ap, ◌∙◌, subst, ◌≢◌, inl, inr, true, false,
  List, [], ◌∷◌, Option, none, some, arith, length, ◌==◌, if◌then◌else◌, Option-cases,
}
use gwl_airplay.Base.Map.{
  nat_ord, lookup, insert, erase, lookup-erase, lookup-insert, length-insert,
}
use mathlib.Core.Path.{fun_ext}
use gwl_airplay.Base.Words.{inc16}
use gwl_airplay.Rtp.{RtpPacket}
use gwl_airplay.Rtp.Jitter.{RtpJitterBuffer, sequence_before, store, push, pop, drain}
use gwl_airplay.Rtp.Jitter.Invariant.{
  IsValid, pop_lem, pop_missing, pop_found, push-IsValid, evict_fits,
}

-- The numbers of the packets count up from `e`, modulo 2 ^ 16.
abbrev pub Consecutive : ℕ → List RtpPacket → Type 0
Consecutive e [] = Unit {0}
Consecutive e (p ∷ ps) = (p.sequence ≡ e) × Consecutive (inc16 e) ps

module _ (fuel : ℕ) (b : RtpJitterBuffer) where
  drain-none : pop b ≡ none → drain (suc fuel) b ≡ ([], b)
  unfolding drain
  drain-none e = rw (e, drain)

  drain-some :
      (p : RtpPacket) (c : RtpJitterBuffer)
      → pop b ≡ some (p, c)
      → drain (suc fuel) b ≡ (p ∷ (drain fuel c).0, (drain fuel c).1)
  unfolding drain
  drain-some p c e = rw (e, drain)

-- What a drain establishes: the packets are consecutive, none is left to pop, and the buffer is valid.
pub record Drained (b : RtpJitterBuffer) (r : List RtpPacket × RtpJitterBuffer) : Type 0 where
  pub ordered : Consecutive b.expected_sequence r.0
  pub valid : IsValid r.1
  pub finished : pop r.1 ≡ none

-- The loop that empties a valid buffer ends, within as many rounds as it holds packets: it hands out
-- packets with consecutive sequence numbers from the expected one on, and leaves a valid buffer from
-- which nothing more can be popped.
pub drain_lem :
    (fuel : ℕ) (b : RtpJitterBuffer)
    → length b.packets < fuel
    → IsValid b
    → Drained b (drain fuel b)
drain_lem zero b h v = absurd (omega arith)
drain_lem (suc fuel) b h v = elim (Option-cases (pop b)) [
  | inl e ↦ rw (drain-none fuel b e) (record { ordered = tt; valid = v; finished = e })
  | inr ((p, c), e) ↦
      let (s, n, l, w) = pop_lem b v e in
      let rest = drain_lem fuel c (omega (arith, l)) w in
      rw (drain-some fuel b p c e) (record {
        ordered = (s, subst (λ k. Consecutive k (drain fuel c).0) n rest.ordered);
        valid = rest.valid;
        finished = rest.finished;
      })
]

-- The longest run of packets from `e` on that `f` knows, of at most `n`.
unfoldable pub delivered : ℕ → ℕ → (ℕ → Option RtpPacket) → List RtpPacket
delivered zero e f = []
delivered (suc n) e f = elim (f e) [ none ↦ [] | some p ↦ p ∷ delivered n (inc16 e) f ]

-- A number that the run does not reach may be forgotten.
delivered_forget :
    (n e k : ℕ) (f g : ℕ → Option RtpPacket)
    → ((j : ℕ) → j ≢ k → f j ≡ g j)
    → e < 65536
    → k < 65536
    → n ≤ (k + 65536 - e) % 65536
    → delivered n e f ≡ delivered n e g
unfolding delivered
delivered_forget zero e k f g same he hk far = refl
delivered_forget (suc n) e k f g same he hk far =
    let rest = delivered_forget n (inc16 e) k f g same (omega arith) hk (omega arith) in
    ground (arith, same e (λ q. omega (arith, q)), rest)

-- Draining hands out the longest run of packets that the buffer holds from the expected number on.
pub drain-delivered :
    (fuel : ℕ) (b : RtpJitterBuffer)
    → fuel ≤ 65536
    → IsValid b
    → b.initialized ≡ true
    → (drain fuel b).0 ≡ delivered fuel b.expected_sequence (λ j. lookup j b.packets)
unfolding delivered
drain-delivered zero b h v i = unfold drain in refl
drain-delivered (suc fuel) b h v i = elim (Option-cases (lookup b.expected_sequence b.packets)) [
  | inl e ↦ rw (drain-none fuel b (pop_missing b i e)) (rw (e, delivered))
  | inr (p, e) ↦
      let c : RtpJitterBuffer = record b {
        packets = erase b.expected_sequence b.packets;
        expected_sequence = inc16 b.expected_sequence;
      } in
      let ec = pop_found b i p e in
      rw (drain-some fuel b p c ec) (
        rw (e, delivered)
          (ap (◌∷◌ p) (
            drain-delivered fuel c (omega arith) (pop_lem b v ec).3 i
            ∙ delivered_forget fuel (inc16 b.expected_sequence) b.expected_sequence _ _
                (λ j ne. lookup-erase 0 j b.expected_sequence b.packets v.sorted ∙ ground arith)
                (omega arith) v.in_range (omega arith))))
]

-- Packets handed to `push` one after the other.
unfoldable pub push_all : RtpJitterBuffer → List RtpPacket → RtpJitterBuffer
push_all b [] = b
push_all b (p ∷ ps) = push_all (push b p).1 ps

-- The packet with the number `j`, in a list.
abbrev pub find : ℕ → List RtpPacket → Option RtpPacket
find j [] = none
find j (p ∷ ps) = if j == p.sequence then some p else find j ps

-- The packets are new to the buffer and to one another, none is late, and there is room for them.
abbrev pub IsBatch : RtpJitterBuffer → List RtpPacket → Type 0
IsBatch b [] = length b.packets ≤ b.capacity
IsBatch b (p ∷ ps) =
    (p.sequence < 65536)
    × (sequence_before p.sequence b.expected_sequence ≡ false)
    × (lookup p.sequence b.packets ≡ none)
    × (find p.sequence ps ≡ none)
    × (length b.packets + suc (length ps) ≤ b.capacity)
    × IsBatch b ps

-- A packet that is neither late nor known, pushed where there is room, is put into the map.
pub push_accepted :
    (b : RtpJitterBuffer) (p : RtpPacket)
    → b.initialized ≡ true
    → sequence_before p.sequence b.expected_sequence ≡ false
    → lookup p.sequence b.packets ≡ none
    → length b.packets < b.capacity
    → ((push b p).0 ≡ true)
      × ((push b p).1.packets ≡ insert p.sequence p b.packets)
      × ((push b p).1.expected_sequence ≡ b.expected_sequence)
      × ((push b p).1.initialized ≡ true)
      × ((push b p).1.capacity ≡ b.capacity)
unfolding push store
push_accepted b p i late known room = ground (
  arith,
  length-insert p.sequence p b.packets known,
  evict_fits b.capacity b.expected_sequence b.stats.lost (insert p.sequence p b.packets),
)

-- What is still to come stays a batch when a packet of another number is put in.
IsBatch-insert :
    (b c : RtpJitterBuffer) (p : RtpPacket) (ps : List RtpPacket)
    → c.packets ≡ insert p.sequence p b.packets
    → c.expected_sequence ≡ b.expected_sequence
    → c.capacity ≡ b.capacity
    → length c.packets ≡ suc (length b.packets)
    → length b.packets + suc (length ps) ≤ b.capacity
    → find p.sequence ps ≡ none
    → IsBatch b ps
    → IsBatch c ps
IsBatch-insert b c p [] m e cap l room distinct h = omega arith
IsBatch-insert b c p (q ∷ qs) m e cap l room distinct (r, late, known, once, fits, rest) = (
  r,
  rw e late,
  rw m (lookup-insert q.sequence p.sequence p b.packets ∙ ground arith),
  once,
  omega arith,
  IsBatch-insert b c p qs m e cap l (omega arith) (ground arith) rest,
)

abbrev pub or_else : Option RtpPacket → Option RtpPacket → Option RtpPacket
or_else none o = o
or_else (some p) o = some p

-- The buffer after a batch.
pub record Took (b c : RtpJitterBuffer) (ps : List RtpPacket) : Type 0 where
  pub valid : IsValid c
  pub ready : c.initialized ≡ true
  pub same : c.expected_sequence ≡ b.expected_sequence
  pub holds : (j : ℕ) → lookup j c.packets ≡ or_else (find j ps) (lookup j b.packets)

pub push_all-Took :
    (b : RtpJitterBuffer) (ps : List RtpPacket)
    → IsValid b
    → b.initialized ≡ true
    → IsBatch b ps
    → Took b (push_all b ps) ps
unfolding push_all
push_all-Took b [] v i h = record { valid = v; ready = i; same = refl; holds = λ j. refl }
push_all-Took b (p ∷ ps) v i (r, late, known, once, fits, rest) =
    let (_, m, e, i', cap) = push_accepted b p i late known (omega arith) in
    let l : length (push b p).1.packets ≡ suc (length b.packets) =
      rw m (length-insert p.sequence p b.packets known) in
    let t =
      push_all-Took (push b p).1 ps (push-IsValid b p r v) i'
        (IsBatch-insert b (push b p).1 p ps m e cap l fits once rest) in
    record {
      valid = t.valid;
      ready = t.ready;
      same = t.same ∙ e;
      holds = λ j. t.holds j ∙ rw m (ground (arith, lookup-insert j p.sequence p b.packets));
    }

-- A batch of packets that arrive in any order, none of them late, known or too many, is handed out in
-- the order of the sequence numbers: draining gives the longest run, from the expected number on, of
-- the packets that came and those that were there.
pub batch_delivery :
    (fuel : ℕ) (b : RtpJitterBuffer) (ps : List RtpPacket)
    → fuel ≤ 65536
    → IsValid b
    → b.initialized ≡ true
    → IsBatch b ps
    → (drain fuel (push_all b ps)).0
      ≡ delivered fuel b.expected_sequence (λ j. or_else (find j ps) (lookup j b.packets))
batch_delivery fuel b ps h v i k =
    let t = push_all-Took b ps v i k in
    drain-delivered fuel (push_all b ps) h t.valid t.ready
    ∙ ap (λ e. delivered fuel e (λ j. lookup j (push_all b ps).packets)) t.same
    ∙ ap (delivered fuel b.expected_sequence) (fun_ext t.holds)
