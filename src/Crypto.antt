-- ===== src/Crypto.antt =====
-- src/crypto.cpp: the key and the initialisation vector of an SDP, as hexadecimal or base64 text.
pub mod Decode
pub mod Session
mod Tests
use gwl_airplay.Base.{
  ℕ, ◌+◌, ◌-◌, ◌*◌, ◌/◌, ◌%◌, ◌^◌, Bool, true, false, not, ◌&&◌, ◌||◌, List, [], ◌∷◌, ◌++◌, Option,
  ◌>>=◌, none, some, leb, ◌==◌, if◌then◌else◌, length, is_some,
}
use gwl_airplay.Text.{isspace}

-- `hex_value`
abbrev pub hex_value : ℕ → Option ℕ
hex_value c =
    if leb 48 c && leb c 57
    then some (c - 48)
    else if leb 97 c && leb c 102
    then some (10 + c - 97)
    else if leb 65 c && leb c 70
    then some (10 + c - 65)
    else none

-- The loop of `decode_hex`, on a text of even length.
pub hex_loop : List ℕ → Option (List ℕ)
hex_loop [] = some []
hex_loop (c ∷ []) = none
hex_loop (c ∷ d ∷ text) = do
  hi ← hex_value c
  lo ← hex_value d
  rest ← hex_loop text
  some ((hi * 16 + lo) ∷ rest)

pub decode_hex : List ℕ → Option (List ℕ)
unfolding hex_loop
decode_hex text = if (length text == 0) || not (length text % 2 == 0) then none else hex_loop text

-- The position in `table`.
abbrev pub base64_value : ℕ → Option ℕ
base64_value c =
    if leb 65 c && leb c 90
    then some (c - 65)
    else if leb 97 c && leb c 122
    then some (c - 71)
    else if leb 48 c && leb c 57
    then some (c + 4)
    else if c == 43
    then some 62
    else if c == 47
    then some 63
    else none

-- One character's six bits: `buffer`, `bits` and `out` after it.
abbrev pub six_bits : ℕ → ℕ → ℕ → List ℕ → ℕ × ℕ × List ℕ
six_bits v buffer bits out =
    let buffer' = (buffer * 64 + v) % 2 ^ 32 in
    if leb 8 (bits + 6)
    then (buffer', bits + 6 - 8, out ++ (buffer' / 2 ^ (bits + 6 - 8) % 256 ∷ []))
    else (buffer', bits + 6, out)

pub base64_loop : List ℕ → ℕ → ℕ → List ℕ → Option (List ℕ)
base64_loop [] buffer bits out = some out
base64_loop (c ∷ text) buffer bits out = elim (isspace c) [
  | true ↦ base64_loop text buffer bits out
  | false ↦ elim (c == 61) [
    | true ↦ some out
    | false ↦ elim (base64_value c) [
      | none ↦ none
      | some v ↦
          let (buffer', bits', out') = six_bits v buffer bits out in
          base64_loop text buffer' bits' out'
    ]
  ]
]

abbrev non_empty : Option (List ℕ) → Option (List ℕ)
non_empty none = none
non_empty (some out) = if length out == 0 then none else some out

pub decode_base64 : List ℕ → Option (List ℕ)
unfolding base64_loop
decode_base64 text = non_empty (base64_loop text 0 0 [])

-- `struct CryptoParameters`
pub record CryptoParameters : Type 0 where
  pub encrypted_key : List ℕ
  pub iv : List ℕ
  pub fingerprint : List ℕ

abbrev pub valid : CryptoParameters → Bool
valid p = not (length p.encrypted_key == 0) && (length p.iv == 16)

abbrev pub no_parameters : CryptoParameters
no_parameters = record { encrypted_key = []; iv = []; fingerprint = [] }

-- The first of two decodings that succeeds; an attribute that is not there is empty.
abbrev pub either : Option (List ℕ) → Option (List ℕ) → Option (List ℕ)
either none second = second
either (some out) second = some out

pub key_of : List ℕ → Option (List ℕ)
unfolding decode_base64 decode_hex
key_of text = if length text == 0 then some [] else either (decode_base64 text) (decode_hex text)

pub iv_of : List ℕ → Option (List ℕ)
unfolding decode_base64 decode_hex
iv_of text = if length text == 0 then some [] else either (decode_hex text) (decode_base64 text)

with_parts : List ℕ → Option (List ℕ) → Option (List ℕ) → Bool × CryptoParameters
with_parts fingerprint none iv = (false, no_parameters)
with_parts fingerprint (some key) none = (false, no_parameters)
with_parts fingerprint (some key) (some iv) =
    let result : CryptoParameters = record {
      encrypted_key = key;
      iv = iv;
      fingerprint = fingerprint;
    } in
    (valid result, result)

-- `extract_crypto_parameters`, on the attributes of the SDP.
unfoldable pub extract_crypto_parameters : List ℕ → List ℕ → List ℕ → Bool × CryptoParameters
unfolding with_parts key_of iv_of
extract_crypto_parameters fingerprint rsaaeskey aesiv =
    with_parts fingerprint (key_of rsaaeskey) (iv_of aesiv)
