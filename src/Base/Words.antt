-- ===== src/Base/Words.antt =====
-- Unsigned machine words in network byte order. A shift left joined by `|` to bytes that do not
-- overlap is a sum; `v >> k` is `v / 2 ^ k`; a cast to std::uint8_t is `% 256`.
use Prim.Native.Nat.{ℕ, ◌+◌, ◌*◌, ◌/◌, ◌%◌, ◌^◌}
use mathlib.Core.List.{List, [], ◌∷◌}

abbrev pub be16 : ℕ → ℕ → ℕ
be16 hi lo = hi * 256 + lo

abbrev pub be32 : ℕ → ℕ → ℕ → ℕ → ℕ
be32 a b c d = a * 16777216 + b * 65536 + c * 256 + d

-- `b.push_back(v >> 8); b.push_back(v)`
abbrev pub bytes16 : ℕ → List ℕ
bytes16 v = (v / 256 % 256) ∷ (v % 256) ∷ []

abbrev pub bytes32 : ℕ → List ℕ
bytes32 v = (v / 16777216 % 256) ∷ (v / 65536 % 256) ∷ (v / 256 % 256) ∷ (v % 256) ∷ []

-- Increments of the counters.
abbrev pub inc16 : ℕ → ℕ
inc16 n = (n + 1) % 65536

abbrev pub inc64 : ℕ → ℕ
inc64 n = (n + 1) % 2 ^ 64
