-- ===== src/Audio/AppleSink/Window.antt =====
-- The part of a ring that holds samples, and what the two loops do to it.
use gwl_airplay.Base.{
  ℕ, zero, suc, ◌+◌, ◌-◌, ◌%◌, ◌≤◌, ◌<◌, ◌≡◌, refl, sym, ap, ap₂, ◌∙◌, ◌≢◌, List, [], ◌∷◌, ◌++◌,
  arith, length, length-set, get_or, set, append_assoc, append-nil,
}
use native.Mathlib.Nat.{mod-add-mod, mod-eq_of_lt, mod-eq-sub-mod, mod-lt}
use native.Mathlib.Decide.{dec_lt}
use gwl_airplay.Audio.AppleSink.{write_loop, read_loop}

-- The position `n` steps behind `p`, going round.
abbrev pub after : List ℕ → ℕ → ℕ → ℕ
after ring p n = (p + n) % length ring

-- The `n` samples from position `p` on.
abbrev pub window : List ℕ → ℕ → ℕ → List ℕ
window ring p zero = []
window ring p (suc n) = get_or ring p 0 ∷ window ring (after ring p 1) n

pub after-after : (ring : List ℕ) (p m n : ℕ) → after ring (after ring p m) n ≡ after ring p (m + n)
after-after ring p m n =
    mod-add-mod (p + m) (length ring) n ∙ ap (λ k. k % length ring) (omega arith)

after-ne :
    (ring : List ℕ) (p n : ℕ) → p < length ring → suc n < length ring → after ring p (suc n) ≢ p
after-ne ring p n h k = elim (dec_lt (p + suc n) (length ring)) [
  | yes q ↦ omega (arith, mod-eq_of_lt q)
  | no q ↦ omega (
    arith,
    mod-eq-sub-mod {n = p + suc n} {m = length ring} (omega arith),
    mod-eq_of_lt {n = p + suc n - length ring} {m = length ring} (omega arith),
  )
]

get_or-set : (ring : List ℕ) (i v : ℕ) → i < length ring → get_or (set ring i v) i 0 ≡ v
get_or-set [] i v h = absurd (omega arith)
get_or-set (x ∷ xs) zero v h = refl
get_or-set (x ∷ xs) (suc i) v h = get_or-set xs i v (omega arith)

get_or-set_other : (ring : List ℕ) (i j v : ℕ) → i ≢ j → get_or (set ring i v) j 0 ≡ get_or ring j 0
get_or-set_other [] i j v h = refl
get_or-set_other (x ∷ xs) zero zero v h = absurd (h refl)
get_or-set_other (x ∷ xs) zero (suc j) v h = refl
get_or-set_other (x ∷ xs) (suc i) zero v h = refl
get_or-set_other (x ∷ xs) (suc i) (suc j) v h = get_or-set_other xs i j v (λ e. h (ap suc e))

-- A write to the position right behind a window that does not fill the ring adds to the window.
window-set :
    (ring : List ℕ) (v n p i : ℕ)
    → p < length ring
    → n < length ring
    → i ≡ after ring p n
    → window (set ring i v) p (suc n) ≡ window ring p n ++ (v ∷ [])
window-set ring v zero p i hp hn e =
    let q : i ≡ p = e ∙ ap (λ k. k % length ring) (omega arith) ∙ mod-eq_of_lt hp in
    rw q (ap (λ x. x ∷ []) (get_or-set ring p v hp))
window-set ring v (suc n) p i hp hn e =
    let next = after ring p 1 in
    let l = length-set ring i v in
    ap₂ ◌∷◌ (get_or-set_other ring i p v (λ q. after-ne ring p n hp hn (sym e ∙ q))) (
      ap (λ (k : ℕ). window (set ring i v) ((p + 1) % k) (suc n)) l
      ∙ window-set ring v n next i (mod-lt (p + 1) (omega arith)) (omega arith)
          (e ∙ sym (after-after ring p 1 n ∙ ap (after ring p) (omega arith))))

-- The loop of `write` adds its samples behind a window that leaves room for them.
pub write_loop-window :
    (ring : List ℕ) (p n pos : ℕ) (xs : List ℕ)
    → p < length ring
    → n + length xs ≤ length ring
    → pos ≡ after ring p n
    → let (ring', pos') = write_loop ring pos xs in
      (window ring' p (n + length xs) ≡ window ring p n ++ xs)
      × (pos' ≡ after ring p (n + length xs))
      × (length ring' ≡ length ring)
unfolding write_loop
write_loop-window ring p n pos [] hp h e =
    let z : n + 0 ≡ n = omega arith in rw z (sym (append-nil (window ring p n)), e, refl)
write_loop-window ring p n pos (x ∷ xs) hp h e =
    let ring' = set ring pos x in
    let l = length-set ring pos x in
    let z : suc n + length xs ≡ n + suc (length xs) = omega arith in
    let next : (pos + 1) % length ring ≡ after ring p (suc n) =
      rw e (mod-add-mod (p + n) (length ring) 1 ∙ ap (λ k. k % length ring) (omega arith)) in
    let (w, q, m) =
      write_loop-window ring' p (suc n) ((pos + 1) % length ring) xs (omega (arith, l))
        (omega (arith, l)) (next ∙ ap (λ (k : ℕ). (p + suc n) % k) (sym l)) in
    (
      ap (window (write_loop ring' ((pos + 1) % length ring) xs).0 p) (sym z)
          ∙ w
          ∙ ap (λ ys. ys ++ xs) (window-set ring x n p pos hp (omega arith) e)
          ∙ append_assoc (window ring p n) (x ∷ []) xs,
      q ∙ ap₂ (λ (j k : ℕ). (p + j) % k) z l,
      m ∙ l,
    )

pub window-add :
    (ring : List ℕ) (p m n : ℕ)
    → p < length ring
    → window ring p (m + n) ≡ window ring p m ++ window ring (after ring p m) n
window-add ring p zero n hp =
    ap₂ (window ring) (sym (mod-eq_of_lt hp) ∙ ap (λ k. k % length ring) (omega arith))
      (omega arith)
window-add ring p (suc m) n hp =
    let z : suc m + n ≡ suc (m + n) = omega arith in
    let y : 1 + m ≡ suc m = omega arith in
    rw z (
      ap (◌∷◌ (get_or ring p 0)) (
        window-add ring (after ring p 1) m n (mod-lt (p + 1) (omega arith))
        ∙ ap (λ k. window ring (after ring p 1) m ++ window ring k n)
            (after-after ring p 1 m ∙ ap (after ring p) y)))

-- The loop of `render` reads the first samples of the window.
pub read_loop-window :
    (ring : List ℕ) (p n : ℕ)
    → p < length ring
    → read_loop ring p n ≡ (window ring p n, after ring p n)
unfolding read_loop
read_loop-window ring p zero hp =
    ap (λ (k : ℕ). ([], k)) (sym (mod-eq_of_lt hp) ∙ ap (λ k. k % length ring) (omega arith))
read_loop-window ring p (suc n) hp =
    let y : 1 + n ≡ suc n = omega arith in
    rw (read_loop-window ring (after ring p 1) n (mod-lt (p + 1) (omega arith))) (
      ap (λ (k : ℕ). (get_or ring p 0 ∷ window ring (after ring p 1) n, k))
        (after-after ring p 1 n ∙ ap (after ring p) y))
