-- ===== src/Audio/Fmtp.antt =====
-- parse_uint and parse_alac_fmtp of src/alac_config.cpp.
pub mod Outcome
mod Tests
use gwl_airplay.Base.{
  ℕ, suc, ◌+◌, ◌-◌, ◌*◌, ◌%◌, ◌^◌, Bool, true, false, not, ◌&&◌, ◌||◌, List, [], ◌∷◌, Option, ◌>>=◌,
  none, some, ltb, leb, ◌==◌, if◌then◌else◌, length, take, drop, codes, bytes_eq, is_some,
}
use gwl_airplay.Text.{isspace, trim, trim_front, find, getlines}
use gwl_airplay.Audio.{AlacConfig, valid}

-- The value of a digit of base 36.
abbrev pub digit_value : ℕ → Option ℕ
digit_value c =
    if leb 48 c && leb c 57
    then some (c - 48)
    else if leb 97 c && leb c 122
    then some (c - 87)
    else if leb 65 c && leb c 90
    then some (c - 55)
    else none

abbrev pub is_digit : ℕ → ℕ → Bool
is_digit base c = elim (digit_value c) [ none ↦ false | some d ↦ ltb d base ]

-- The digits of the base, up to the first other character, and their value.
abbrev pub span_digits : ℕ → List ℕ → List ℕ
span_digits base [] = []
span_digits base (c ∷ cs) =
    let rest = span_digits base cs in
    elim (digit_value c) [ none ↦ [] | some d ↦ if ltb d base then d ∷ rest else [] ]

abbrev pub from_base : ℕ → ℕ → List ℕ → ℕ
from_base base acc [] = acc
from_base base acc (d ∷ ds) = from_base base (acc * base + d) ds

-- std::stoul(text, &consumed, 0): the number and `consumed`; `skipped` characters come before `text`.
-- `none` is an exception.
abbrev pub stoul_in : ℕ → Bool → ℕ → List ℕ → Option (ℕ × ℕ)
stoul_in base negative skipped text =
    let ds = span_digits base text in
    let n = from_base base 0 ds in
    if (length ds == 0) || leb (2 ^ 64) n
    then none
    else some (if negative then (2 ^ 64 - n) % 2 ^ 64 else n, skipped + length ds)

-- "0x" before a hexadecimal digit.
abbrev pub has_hex : List ℕ → Bool
has_hex (a ∷ b ∷ c ∷ cs) = (a == 48) && (((b == 120) || (b == 88)) && is_digit 16 c)
has_hex _ = false

abbrev pub has_octal : List ℕ → Bool
has_octal [] = false
has_octal (c ∷ cs) = c == 48

abbrev pub stoul_prefix : Bool → ℕ → List ℕ → Option (ℕ × ℕ)
stoul_prefix negative skipped text =
    if has_hex text
    then stoul_in 16 negative (skipped + 2) (drop 2 text)
    else if has_octal text
    then stoul_in 8 negative skipped text
    else stoul_in 10 negative skipped text

abbrev pub stoul_signed : ℕ → List ℕ → Option (ℕ × ℕ)
stoul_signed skipped [] = none
stoul_signed skipped (c ∷ cs) =
    if c == 45
    then stoul_prefix true (suc skipped) cs
    else if c == 43
    then stoul_prefix false (suc skipped) cs
    else stoul_prefix false skipped (c ∷ cs)

abbrev pub stoul_any : List ℕ → Option (ℕ × ℕ)
stoul_any text = stoul_signed (length text - length (trim_front text)) (trim_front text)

-- `parse_uint`; `none` is `return false`.
pub parse_uint : List ℕ → Option ℕ
parse_uint value = do
  let cleaned = trim value
  (n, consumed) ← stoul_any cleaned
  if not (consumed == length cleaned) || ltb (2 ^ 32 - 1) n then none else some n

-- The if-chain over the keys; `none` is `return false`.
pub set_field : List ℕ → ℕ → AlacConfig → Option AlacConfig
set_field key number c =
    if bytes_eq key (codes "sampleRate")
      || (bytes_eq key (codes "sample_rate") || bytes_eq key (codes "sample-rate"))
    then some (record c { sample_rate = number })
    else if bytes_eq key (codes "channels")
    then (if ltb 255 number then none else some (record c { num_channels = number }))
    else if bytes_eq key (codes "bitDepth")
        || (bytes_eq key (codes "bit_depth") || bytes_eq key (codes "bit-depth"))
    then (if ltb 65535 number then none else some (record c { bit_depth = number }))
    else if bytes_eq key (codes "frameLength")
        || (bytes_eq key (codes "frame_length") || bytes_eq key (codes "frame-length"))
    then some (record c { frame_length = number })
    else some c

-- A round of the loop: a token without an equals sign, or whose value is no number, is passed over.
pub token : List ℕ → AlacConfig → Option AlacConfig
unfolding parse_uint set_field
token text c = elim (find (codes "=") text) [
  | none ↦ some c
  | some eq ↦ elim (parse_uint (trim (drop (suc eq) text))) [
    | none ↦ some c
    | some number ↦ set_field (trim (take eq text)) number c
  ]
]

pub tokens : List (List ℕ) → AlacConfig → Option AlacConfig
unfolding token
tokens [] c = some c
tokens (t ∷ ts) c = token t c >>= λ c'. tokens ts c'

finish : AlacConfig → Option AlacConfig → Bool × AlacConfig
finish result none = (false, result)
finish result (some c) = if valid c then (true, c) else (false, result)

-- `parse_alac_fmtp`, with `result` after it.
pub parse_alac_fmtp : List ℕ → AlacConfig → Bool × AlacConfig
unfolding finish tokens
parse_alac_fmtp fmtp result = finish result (tokens (getlines 59 fmtp) result)
