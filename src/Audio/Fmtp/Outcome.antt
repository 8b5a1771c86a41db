-- ===== src/Audio/Fmtp/Outcome.antt =====
-- What parse_alac_fmtp leaves in the configuration.
use gwl_airplay.Base.{
  ℕ, suc, ◌-◌, ◌^◌, ◌<◌, ◌≤◌, ◌≡◌, Option, none, not, ◌||◌, ltb, ◌==◌, if◌then◌else◌, ◌>>=◌, length,
  ◌⊎◌, inl, inr, refl, true, false, List, [], ◌∷◌, some, arith, Bool-cases, Option-cases, drop,
  take, codes,
}
use gwl_airplay.Text.{find, trim, getlines}
use gwl_airplay.Audio.{AlacConfig, valid}
use gwl_airplay.Audio.Fmtp.{
  stoul_any, parse_uint, set_field, token, tokens, finish, parse_alac_fmtp,
}

-- What a text may change: the four fields that it names, each within the width of its field.
pub record Merged (c d : AlacConfig) : Type 0 where
  pub compatible_version : d.compatible_version ≡ c.compatible_version
  pub pb : d.pb ≡ c.pb
  pub mb : d.mb ≡ c.mb
  pub kb : d.kb ≡ c.kb
  pub max_run : d.max_run ≡ c.max_run
  pub max_frame_bytes : d.max_frame_bytes ≡ c.max_frame_bytes
  pub avg_bit_rate : d.avg_bit_rate ≡ c.avg_bit_rate
  pub codec_data : d.codec_data ≡ c.codec_data
  pub rate_fits : c.sample_rate < 2 ^ 32 → d.sample_rate < 2 ^ 32
  pub length_fits : c.frame_length < 2 ^ 32 → d.frame_length < 2 ^ 32
  pub channels_fit : c.num_channels ≤ 255 → d.num_channels ≤ 255
  pub depth_fits : c.bit_depth ≤ 65535 → d.bit_depth ≤ 65535

Merged-refl : (c : AlacConfig) → Merged c c
Merged-refl c = ground arith

Merged-trans : (b c d : AlacConfig) → Merged b c → Merged c d → Merged b d
Merged-trans b c d h k = ground arith

parse_uint_of-lt :
    (size : ℕ) (o : Option (ℕ × ℕ)) (n : ℕ)
    → (do (m, consumed) ← o; if not (consumed == size) || ltb (2 ^ 32 - 1) m then none else some m)
      ≡ some n
    → n < 2 ^ 32
parse_uint_of-lt size none n h = absurd (ground arith)
parse_uint_of-lt size (some (m, consumed)) n h = ground arith

parse_uint-lt : (value : List ℕ) (n : ℕ) → parse_uint value ≡ some n → n < 2 ^ 32
unfolding parse_uint
parse_uint-lt value n h = parse_uint_of-lt (length (trim value)) (stoul_any (trim value)) n h

set_field-Merged :
    (key : List ℕ) (n : ℕ) (c d : AlacConfig) → n < 2 ^ 32 → set_field key n c ≡ some d → Merged c d
unfolding set_field
set_field-Merged key n c d small h = ground arith

token-Merged : (t : List ℕ) (c d : AlacConfig) → token t c ≡ some d → Merged c d
unfolding token
token-Merged t c d h = elim (Option-cases (find (codes "=") t)) [
  | inl e ↦ ground (arith, Merged-refl c)
  | inr (eq, e) ↦ elim (Option-cases (parse_uint (trim (drop (suc eq) t)))) [
    | inl f ↦ ground (arith, Merged-refl c)
    | inr (n, f) ↦
        set_field-Merged (trim (take eq t)) n c d (parse_uint-lt (trim (drop (suc eq) t)) n f)
          (ground arith)
  ]
]

tokens-Merged : (ts : List (List ℕ)) (c d : AlacConfig) → tokens ts c ≡ some d → Merged c d
unfolding tokens
tokens-Merged [] c d h = ground (arith, Merged-refl c)
tokens-Merged (t ∷ ts) c d h = elim (Option-cases (token t c)) [
  | inl e ↦ absurd (ground arith)
  | inr (c', e) ↦ Merged-trans c c' d (token-Merged t c c' e) (tokens-Merged ts c' d (ground arith))
]

-- `parse_alac_fmtp` fails and leaves the configuration as it was, or it succeeds with a valid one, in which
-- only the sample rate, the channels, the bit depth and the frame length may differ; where these fitted
-- their fields before, the rate and the length 32 bits, the channels 8 and the depth 16, they do so after.
pub parse_alac_fmtp_outcome :
    (fmtp : List ℕ) (c : AlacConfig)
    → let r = parse_alac_fmtp fmtp c in
      ((r.0 ≡ false) × (r.1 ≡ c)) ⊎ ((r.0 ≡ true) × (valid r.1 ≡ true) × Merged c r.1)
unfolding parse_alac_fmtp finish
parse_alac_fmtp_outcome fmtp c = elim (Option-cases (tokens (getlines 59 fmtp) c)) [
  | inl e ↦ rw e (inl (refl, refl))
  | inr (d, e) ↦ elim (Bool-cases (valid d)) [
    | inl v ↦ rw (e, v) (inr (refl, v, tokens-Merged (getlines 59 fmtp) c d e))
    | inr v ↦ rw (e, v) (inl (refl, refl))
  ]
]
