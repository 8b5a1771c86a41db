-- ===== src/Text/Decimal.antt =====
-- A number that std::to_string writes is read back.
use gwl_airplay.Base.{
  ℕ, zero, suc, ◌+◌, ◌*◌, ◌/◌, ◌%◌, ◌≤◌, ◌<◌, ◌≡◌, ◌∙◌, refl, ap, ◌^◌, ◌≢◌, List, [], ◌∷◌, some,
  arith, length, ◌==◌, Bool-cases, inl, inr, All,
}
use gwl_airplay.Text.{digits, from_digits, digits_loop, to_string, stoul}

-- The characters 0 to 9.
abbrev pub IsDigit : ℕ → Type 0
IsDigit c = (48 ≤ c) × (c ≤ 57)

digits_loop-IsDigit :
    (fuel n : ℕ) (out : List ℕ) → All IsDigit out → All IsDigit (digits_loop fuel n out)
unfolding digits_loop
digits_loop-IsDigit zero n out h = h
digits_loop-IsDigit (suc fuel) n out h =
    let d : IsDigit (48 + n % 10) = omega arith in
    elim (Bool-cases (n / 10 == 0)) [
      | inl e ↦ rw e (d, h)
      | inr e ↦ rw e (digits_loop-IsDigit fuel (n / 10) ((48 + n % 10) ∷ out) (d, h))
    ]

digits-digit : (d : ℕ) (out : List ℕ) → d < 10 → digits ((48 + d) ∷ out) ≡ d ∷ digits out
digits-digit d out h = ground arith

from_digits-digits_loop :
    (fuel n : ℕ) (out : List ℕ)
    → n < fuel
    → from_digits 0 (digits (digits_loop fuel n out)) ≡ from_digits n (digits out)
unfolding digits_loop
from_digits-digits_loop zero n out h = absurd (omega arith)
from_digits-digits_loop (suc fuel) n out h =
    let e = digits-digit (n % 10) out (omega arith) in
    elim (Bool-cases (n / 10 == 0)) [
      | inl z ↦
          let m : 0 * 10 + n % 10 ≡ n = ground arith in
          rw (z, e) (ap (λ k. from_digits k (digits out)) m)
      | inr z ↦
          let ih = from_digits-digits_loop fuel (n / 10) ((48 + n % 10) ∷ out) (ground arith) in
          let m : n / 10 * 10 + n % 10 ≡ n = omega arith in
          rw z (ih ∙ rw e (ap (λ k. from_digits k (digits out)) m))
    ]

pub to_string-IsDigit : (n : ℕ) → All IsDigit (to_string n)
to_string-IsDigit n = digits_loop-IsDigit (suc n) n [] tt

-- All the characters are read, and give the number back.
pub from_digits-to_string : (n : ℕ) → from_digits 0 (digits (to_string n)) ≡ n
from_digits-to_string n = from_digits-digits_loop (suc n) n [] (omega arith)

-- A positive number does not begin with a zero.
abbrev pub NoZero : List ℕ → Type 0
NoZero [] = ⊥
NoZero (c ∷ cs) = c ≢ 48

digits_loop-NoZero :
    (fuel n : ℕ) (out : List ℕ) → n < fuel → 0 < n → NoZero (digits_loop fuel n out)
unfolding digits_loop
digits_loop-NoZero zero n out h p = absurd (omega arith)
digits_loop-NoZero (suc fuel) n out h p = elim (Bool-cases (n / 10 == 0)) [
  | inl z ↦ rw z (ground arith)
  | inr z ↦
      rw z (digits_loop-NoZero fuel (n / 10) ((48 + n % 10) ∷ out) (ground arith) (ground arith))
]

pub to_string-NoZero : (n : ℕ) → 0 < n → NoZero (to_string n)
to_string-NoZero n p = digits_loop-NoZero (suc n) n [] (omega arith) p

-- A number below 2 ^ 64 is read back by std::stoul, from its digits with the end of the text behind.
stoul-digits :
    (text : List ℕ)
    → All IsDigit text
    → 0 < length (digits text)
    → from_digits 0 (digits text) < 2 ^ 64
    → stoul text ≡ some (from_digits 0 (digits text))
stoul-digits [] h l b = absurd (omega arith)
stoul-digits (c ∷ cs) (d, h) l b = ground arith

length-digits : (text : List ℕ) → All IsDigit text → length (digits text) ≡ length text
length-digits [] h = refl
length-digits (c ∷ cs) (d, h) = ground (arith, length-digits cs h)

digits_loop-length : (fuel n : ℕ) (out : List ℕ) → length out ≤ length (digits_loop fuel n out)
unfolding digits_loop
digits_loop-length zero n out = omega arith
digits_loop-length (suc fuel) n out =
    ground (arith, digits_loop-length fuel (n / 10) ((48 + n % 10) ∷ out))

to_string-ne-nil : (n : ℕ) → 0 < length (to_string n)
unfolding digits_loop
to_string-ne-nil n = ground (arith, digits_loop-length n (n / 10) ((48 + n % 10) ∷ []))

-- std::stoul reads back what std::to_string wrote, below 2 ^ 64.
pub stoul-to_string : (n : ℕ) → n < 2 ^ 64 → stoul (to_string n) ≡ some n
stoul-to_string n b =
    let e = from_digits-to_string n in
    let h = to_string-IsDigit n in
    stoul-digits (to_string n) h (omega (arith, length-digits (to_string n) h, to_string-ne-nil n))
      (omega (arith, e, b))
    ∙ ap some e
