-- ===== src/Text/Lines.antt =====
-- Lines, and white space at their ends.
use gwl_airplay.Base.{
  ℕ, ◌≡◌, ◌≢◌, refl, ap, true, List, [], ◌∷◌, ◌++◌, map, arith, All, Bool-cases, inl, inr,
  append_assoc, All-append,
}
use gwl_airplay.Text.{isspace, trim_front, trim_back, trim, getlines}

-- Each line with `end` and a delimiter behind it.
abbrev pub lines_text : ℕ → List ℕ → List (List ℕ) → List ℕ
lines_text delim end [] = []
lines_text delim end (l ∷ ls) = l ++ (end ++ (delim ∷ lines_text delim end ls))

getlines-delim :
    (delim : ℕ) (l rest : List ℕ)
    → All (λ c. c ≢ delim) l
    → getlines delim (l ++ (delim ∷ rest)) ≡ l ∷ getlines delim rest
getlines-delim delim [] rest h = ground arith
getlines-delim delim (c ∷ l) rest (n, h) = ground (arith, getlines-delim delim l rest h)

-- The lines of a text that is made of lines.
pub getlines-lines_text :
    (delim : ℕ) (end : List ℕ) (ls : List (List ℕ))
    → All (λ c. c ≢ delim) end
    → All (All (λ c. c ≢ delim)) ls
    → getlines delim (lines_text delim end ls) ≡ map (λ l. l ++ end) ls
getlines-lines_text delim end [] e h = refl
getlines-lines_text delim end (l ∷ ls) e (p, h) =
    let k = All-append (λ c. c ≢ delim) l end p e in
    rw
      (
        ← append_assoc l end (delim ∷ lines_text delim end ls),
        getlines-delim delim (l ++ end) (lines_text delim end ls) k,
      )
      (ap (◌∷◌ (l ++ end)) (getlines-lines_text delim end ls e h))

-- A blank behind a text is trimmed away.
trim_back-space : (c : ℕ) (l : List ℕ) → isspace c ≡ true → trim_back (l ++ (c ∷ [])) ≡ trim_back l
trim_back-space c [] h = ground arith
trim_back-space c (x ∷ l) h = rw (trim_back-space c l h) refl

trim_front-space :
    (c : ℕ) (l : List ℕ)
    → isspace c ≡ true
    → trim_back (trim_front (l ++ (c ∷ []))) ≡ trim_back (trim_front l)
trim_front-space c [] h = ground arith
trim_front-space c (x ∷ l) h = elim (Bool-cases (isspace x)) [
  | inl e ↦ rw e (trim_front-space c l h)
  | inr e ↦ rw e (trim_back-space c (x ∷ l) h)
]

pub trim-space : (c : ℕ) (l : List ℕ) → isspace c ≡ true → trim (l ++ (c ∷ [])) ≡ trim l
trim-space c l h = trim_front-space c l h
