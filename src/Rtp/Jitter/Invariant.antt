-- ===== src/Rtp/Jitter/Invariant.antt =====
-- What every operation of the jitter buffer keeps.
use gwl_airplay.Base.{
  ℕ, suc, ◌≤◌, ◌<◌, ◌≡◌, refl, sym, ◌⊎◌, true, false, [], ◌∷◌, Option, none, some, arith, length,
  All, ◌∙◌, subst, Bool-cases, ◌==◌, if◌then◌else◌, inl, inr,
}
use gwl_airplay.Base.Map.{
  nat_ord, lookup, insert, erase, KeysFrom, KeysFrom-mono, insert-KeysFrom, erase-KeysFrom,
  length-erase, insert-All, erase-All, lookup-All,
}
use gwl_airplay.Base.Words.{inc16, inc64}
use gwl_airplay.Rtp.{RtpPacket}
use gwl_airplay.Rtp.Jitter.{
  RtpJitterBuffer, Packets, new, reset, evict, store, arrive, push, take_found, pop,
}

-- An entry stands under the sequence number of its packet, a 16-bit number.
abbrev pub IsEntry : ℕ × RtpPacket → Type 0
IsEntry e = (e.1.sequence ≡ e.0) × (e.0 < 65536)

pub record IsValid (b : RtpJitterBuffer) : Type 0 where
  pub has_room : 1 ≤ b.capacity
  pub bounded : length b.packets ≤ b.capacity
  pub sorted : KeysFrom 0 b.packets
  pub entries : All IsEntry b.packets
  pub in_range : b.expected_sequence < 65536
  pub fresh : b.initialized ≡ false → length b.packets ≡ 0

module _ (capacity : ℕ) where
  pub evict-bounded : (e l : ℕ) (m : Packets) → length (evict capacity e l m).2 ≤ capacity
  unfolding evict
  evict-bounded e l [] = omega arith
  evict-bounded e l ((k, p) ∷ m) =
      ground (
        arith,
        evict-bounded (if k == e then inc16 e else inc16 k) (if k == e then l else inc64 l) m,
      )

  pub evict-in_range : (e l : ℕ) (m : Packets) → e < 65536 → (evict capacity e l m).0 < 65536
  unfolding evict
  evict-in_range e l [] h = h
  evict-in_range e l ((k, p) ∷ m) h = ground (
    arith,
    evict-in_range (if k == e then inc16 e else inc16 k) (if k == e then l else inc64 l) m,
  )

  pub evict-KeysFrom :
      (lo e l : ℕ) (m : Packets) → KeysFrom lo m → KeysFrom lo (evict capacity e l m).2
  unfolding evict
  evict-KeysFrom lo e l [] h = tt
  evict-KeysFrom lo e l ((k, p) ∷ m) h = ground (
    arith,
    evict-KeysFrom lo (if k == e then inc16 e else inc16 k) (if k == e then l else inc64 l) m,
    KeysFrom-mono lo (suc k) m,
  )

  pub evict-All :
      (P : ℕ × RtpPacket → Type 0) (e l : ℕ) (m : Packets)
      → All P m
      → All P (evict capacity e l m).2
  unfolding evict
  evict-All P e l [] h = tt
  evict-All P e l ((k, p) ∷ m) h =
      ground
        (arith, evict-All P (if k == e then inc16 e else inc16 k) (if k == e then l else inc64 l) m)

-- A map within the capacity is left alone.
pub evict_fits :
    (capacity e l : ℕ) (m : Packets) → length m ≤ capacity → evict capacity e l m ≡ (e, l, m)
unfolding evict
evict_fits capacity e l [] h = refl
evict_fits capacity e l ((k, p) ∷ m) h = ground arith

-- A new buffer is valid, whatever capacity is asked for.
pub new-IsValid : (capacity : ℕ) → IsValid (new capacity)
unfolding new
new-IsValid capacity = ground arith

pub reset-IsValid : (b : RtpJitterBuffer) → IsValid b → IsValid (reset b)
unfolding reset
reset-IsValid b v = ground arith

pub arrive-IsValid :
    (b : RtpJitterBuffer) (p : RtpPacket) → p.sequence < 65536 → IsValid b → IsValid (arrive b p)
unfolding arrive
arrive-IsValid b p h v = ground arith

pub store-IsValid :
    (b : RtpJitterBuffer) (p : RtpPacket)
    → p.sequence < 65536
    → b.initialized ≡ true
    → IsValid b
    → IsValid (store b p)
unfolding store
store-IsValid b p h i v = record {
  has_room = v.has_room;
  bounded = evict-bounded b.capacity b.expected_sequence b.stats.lost m;
  sorted =
      evict-KeysFrom b.capacity 0 b.expected_sequence b.stats.lost m
        (insert-KeysFrom 0 p.sequence p b.packets (omega arith) v.sorted);
  entries =
      evict-All b.capacity IsEntry b.expected_sequence b.stats.lost m
        (insert-All IsEntry p.sequence p b.packets (refl, h) v.entries);
  in_range = evict-in_range b.capacity b.expected_sequence b.stats.lost m v.in_range;
  fresh = λ e. absurd (ground (arith, i, e));
}
  where
    m : Packets
    m = insert p.sequence p b.packets

-- `push` keeps the buffer valid, whether it takes the packet or not.
pub push-IsValid :
    (b : RtpJitterBuffer) (p : RtpPacket) → p.sequence < 65536 → IsValid b → IsValid (push b p).1
unfolding push
push-IsValid b p h v = ground (arith, arrive-IsValid b p h v, store-IsValid (arrive b p) p h)

-- What `pop` does on its two ways out: it hands out the packet with the expected sequence number,
-- drops it from the map and moves on by one, modulo 2 ^ 16; or the buffer holds no such packet.
abbrev pub Pops : RtpJitterBuffer → Option (RtpPacket × RtpJitterBuffer) → Type 0
Pops b none = (b.initialized ≡ false) ⊎ (lookup b.expected_sequence b.packets ≡ none)
Pops b (some (p, c)) =
    (lookup b.expected_sequence b.packets ≡ some p)
    × (c.packets ≡ erase b.expected_sequence b.packets)
    × (c.expected_sequence ≡ inc16 b.expected_sequence)
    × (c.capacity ≡ b.capacity)
    × (c.initialized ≡ b.initialized)

take_found-Pops :
    (b : RtpJitterBuffer) (o : Option RtpPacket)
    → lookup b.expected_sequence b.packets ≡ o
    → Pops b (take_found b o)
unfolding take_found
take_found-Pops b none h = inr h
take_found-Pops b (some p) h = (h, refl, refl, refl, refl)

pub pop-Pops : (b : RtpJitterBuffer) → Pops b (pop b)
unfolding pop
pop-Pops b = elim (Bool-cases b.initialized) [
  | inl e ↦ simp e (take_found-Pops b (lookup b.expected_sequence b.packets) refl)
  | inr e ↦ simp e (inl refl)
]

-- A successful `pop` hands out the packet whose sequence number is the expected one, expects the
-- next number (modulo 2 ^ 16), holds one packet less, and keeps the buffer valid.
pub pop_lem :
    (b : RtpJitterBuffer) {p : RtpPacket} {c : RtpJitterBuffer}
    → IsValid b
    → pop b ≡ some (p, c)
    → (p.sequence ≡ b.expected_sequence)
      × (c.expected_sequence ≡ inc16 b.expected_sequence)
      × (length b.packets ≡ suc (length c.packets))
      × IsValid c
pop_lem b {p} {c} v e = go (subst (Pops b) e (pop-Pops b))
  where
    go :
        Pops b (some (p, c))
        → (p.sequence ≡ b.expected_sequence)
          × (c.expected_sequence ≡ inc16 b.expected_sequence)
          × (length b.packets ≡ suc (length c.packets))
          × IsValid c
    go (found, rest, next, cap, init) =
        let shorter = length-erase b.expected_sequence p b.packets found in
        (
          (lookup-All IsEntry b.expected_sequence p b.packets v.entries found).0,
          next,
          rw rest shorter,
          record {
            has_room = rw cap v.has_room;
            bounded = rw (rest, cap) (omega (arith, v.bounded, shorter));
            sorted = rw rest (erase-KeysFrom 0 b.expected_sequence b.packets v.sorted);
            entries = rw rest (erase-All IsEntry b.expected_sequence b.packets v.entries);
            in_range = rw next (omega arith);
            fresh = λ h. rw rest (absurd (omega (arith, shorter, v.fresh (sym init ∙ h))));
          },
        )

module _ (b : RtpJitterBuffer) (i : b.initialized ≡ true) where
  -- The two cases of `pop` by what the map holds under the expected number.
  pub pop_missing : lookup b.expected_sequence b.packets ≡ none → pop b ≡ none
  unfolding pop
  pop_missing e = ground arith

  pub pop_found :
      (p : RtpPacket)
      → lookup b.expected_sequence b.packets ≡ some p
      → pop b
        ≡ some (
          p,
          record b {
            packets = erase b.expected_sequence b.packets;
            expected_sequence = inc16 b.expected_sequence;
          },
        )
  unfolding pop
  pop_found p e = ground arith
