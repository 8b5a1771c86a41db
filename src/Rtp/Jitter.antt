-- ===== src/Rtp/Jitter.antt =====
-- src/rtp_jitter_buffer.cpp: packets by sequence number, handed out in the order of the 16-bit
-- sequence numbers. `packets_` is a std::map, so `begin()` is the numerically smallest key.
pub mod Invariant
pub mod Delivery
pub mod Overflow
pub mod InOrder
mod Tests
use gwl_airplay.Base.{
  ℕ, zero, suc, ◌+◌, ◌-◌, ◌%◌, Bool, true, false, not, List, [], ◌∷◌, Option, none, some, ltb, leb,
  ◌==◌, if◌then◌else◌, length, is_some,
}
use gwl_airplay.Base.Map.{nat_ord, lookup, insert, erase}
use gwl_airplay.Base.Words.{inc16, inc64}
use gwl_airplay.Rtp.{RtpPacket}

-- `struct RtpStreamStats`
pub record RtpStreamStats : Type 0 where
  pub received : ℕ
  pub discarded : ℕ
  pub reordered : ℕ
  pub lost : ℕ

abbrev pub no_stats : RtpStreamStats
no_stats = record { received = 0; discarded = 0; reordered = 0; lost = 0 }

abbrev pub Packets : Type 0
Packets = List (ℕ × RtpPacket)

pub record RtpJitterBuffer : Type 0 where
  pub capacity : ℕ
  pub initialized : Bool
  pub expected_sequence : ℕ
  pub packets : Packets
  pub stats : RtpStreamStats

-- The constructor.
pub new : ℕ → RtpJitterBuffer
new capacity = record {
  capacity = if capacity == 0 then 1 else capacity;
  initialized = false;
  expected_sequence = 0;
  packets = [];
  stats = no_stats;
}

pub reset : RtpJitterBuffer → RtpJitterBuffer
reset b = record b { initialized = false; expected_sequence = 0; packets = []; stats = no_stats }

-- `static_cast<std::int16_t>(a - b) < 0`
abbrev pub sequence_before : ℕ → ℕ → Bool
sequence_before a b = leb 32768 ((a + 65536 - b) % 65536)

-- The loop `while (packets_.size() > capacity_)`, on the map, `expected_sequence_` and `lost`.
pub evict : ℕ → ℕ → ℕ → Packets → ℕ × ℕ × Packets
evict capacity expected lost [] = (expected, lost, [])
evict capacity expected lost ((k, p) ∷ m) =
    let next =
      evict capacity (if k == expected then inc16 expected else inc16 k)
        (if k == expected then lost else inc64 lost) m in
    if ltb capacity (length ((k, p) ∷ m)) then next else (expected, lost, (k, p) ∷ m)

abbrev pub count_discarded : RtpStreamStats → RtpStreamStats
count_discarded s = record s { discarded = inc64 s.discarded }

-- `push` from the emplacement on: `b` has counted the packet and is initialized.
pub store : RtpJitterBuffer → RtpPacket → RtpJitterBuffer
store b p =
    let (expected, lost, m) =
      evict b.capacity b.expected_sequence b.stats.lost (insert p.sequence p b.packets) in
    record b {
      expected_sequence = expected;
      packets = m;
      stats = record {
        received = b.stats.received;
        discarded = b.stats.discarded;
        reordered =
            if p.sequence == b.expected_sequence
            then b.stats.reordered
            else inc64 b.stats.reordered;
        lost = lost;
      };
    }

-- The first lines of `push`: the packet is counted, and the first one sets the expected number.
pub arrive : RtpJitterBuffer → RtpPacket → RtpJitterBuffer
arrive b p = record b {
  initialized = true;
  expected_sequence = if b.initialized then b.expected_sequence else p.sequence;
  stats = record {
    received = inc64 b.stats.received;
    discarded = b.stats.discarded;
    reordered = b.stats.reordered;
    lost = b.stats.lost;
  };
}

pub push : RtpJitterBuffer → RtpPacket → Bool × RtpJitterBuffer
unfolding arrive
push b p =
    let c = arrive b p in
    if sequence_before p.sequence c.expected_sequence
    then (false, record c { stats = count_discarded c.stats })
    else if is_some (lookup p.sequence c.packets)
    then (false, record c { stats = count_discarded c.stats })
    else (true, store c p)

take_found : RtpJitterBuffer → Option RtpPacket → Option (RtpPacket × RtpJitterBuffer)
take_found b none = none
take_found b (some p) = some (
  p,
  record b {
    packets = erase b.expected_sequence b.packets;
    expected_sequence = inc16 b.expected_sequence;
  },
)

-- `none` is std::nullopt, and the buffer is then unchanged.
pub pop : RtpJitterBuffer → Option (RtpPacket × RtpJitterBuffer)
unfolding take_found
pop b = if not b.initialized then none else take_found b (lookup b.expected_sequence b.packets)

-- `while (auto ordered = pop())` of RtspSession::handle_media_packet, with fuel: what is handed on,
-- in order, and the buffer at the end.
pub drain : ℕ → RtpJitterBuffer → List RtpPacket × RtpJitterBuffer
drain zero b = ([], b)
drain (suc fuel) b = elim (pop b) [
  | none ↦ ([], b)
  | some (p, c) ↦ let (ps, d) = drain fuel c in (p ∷ ps, d)
]
