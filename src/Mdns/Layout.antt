-- ===== src/Mdns/Layout.antt =====
-- The names of the packet against a description of DNS names by their labels.
use gwl_airplay.Base.{
  ℕ, zero, suc, ◌≤◌, ◌<◌, ◌≡◌, ◌≢◌, refl, List, [], ◌∷◌, ◌++◌, arith, length, drop, All,
  length-append, le→ltb,
}
use gwl_airplay.Mdns.{label, name_loop, name}

-- A label that DNS allows: 1 to 63 characters without a dot.
pub record IsLabel (l : List ℕ) : Type 0 where
  pub not_empty : 0 < length l
  pub short : length l ≤ 63
  pub no_dot : All (λ c. c ≢ 46) l

-- The text of a name, with a dot between its labels.
abbrev pub dotted : List (List ℕ) → List ℕ
dotted [] = []
dotted (l ∷ []) = l
dotted (l ∷ m ∷ ls) = l ++ (46 ∷ dotted (m ∷ ls))

-- The bytes of a name.
abbrev pub wire : List (List ℕ) → List ℕ
wire [] = 0 ∷ []
wire (l ∷ ls) = length l ∷ (l ++ wire ls)

label-dot : (l rest : List ℕ) → All (λ c. c ≢ 46) l → label (l ++ (46 ∷ rest)) ≡ l
label-dot [] rest h = refl
label-dot (c ∷ l) rest (n, h) = ground (arith, label-dot l rest h)

label_self : (l : List ℕ) → All (λ c. c ≢ 46) l → label l ≡ l
label_self [] h = refl
label_self (c ∷ l) (n, h) = ground (arith, label_self l h)

drop-dot : (l rest : List ℕ) → drop (suc (length l)) (l ++ (46 ∷ rest)) ≡ rest
drop-dot [] rest = refl
drop-dot (c ∷ l) rest = drop-dot l rest

drop_past : (l : List ℕ) → drop (suc (length l)) l ≡ []
drop_past [] = refl
drop_past (c ∷ l) = drop_past l

name_loop-nil : (fuel : ℕ) → name_loop fuel [] ≡ 0 ∷ []
unfolding name_loop
name_loop-nil zero = refl
name_loop-nil (suc fuel) = refl

name_loop-label :
    (fuel : ℕ) (text l rest : List ℕ)
    → label text ≡ l
    → drop (suc (length l)) text ≡ rest
    → 0 < length text
    → length l ≤ 63
    → name_loop (suc fuel) text ≡ length l ∷ (l ++ name_loop fuel rest)
unfolding name_loop
name_loop-label fuel [] l rest e d p s = absurd (omega arith)
name_loop-label fuel (c ∷ cs) l rest e d p s = rw (e, d, le→ltb 63 (length l) s) refl

name_loop-dotted :
    (fuel : ℕ) (ls : List (List ℕ))
    → All IsLabel ls
    → length (dotted ls) ≤ fuel
    → name_loop fuel (dotted ls) ≡ wire ls
name_loop-dotted fuel [] h f = name_loop-nil fuel
name_loop-dotted zero (l ∷ []) (p, h) f = absurd (omega (arith, p.not_empty))
name_loop-dotted (suc fuel) (l ∷ []) (p, h) f =
    rw
      (
        name_loop-label fuel l l [] (label_self l p.no_dot) (drop_past l) p.not_empty p.short,
        name_loop-nil fuel,
      )
      refl
name_loop-dotted zero (l ∷ m ∷ ls) (p, h) f =
    absurd (omega (arith, length-append l (46 ∷ dotted (m ∷ ls)), p.not_empty))
name_loop-dotted (suc fuel) (l ∷ m ∷ ls) (p, h) f =
    let n = length-append l (46 ∷ dotted (m ∷ ls)) in
    let rest = name_loop-dotted fuel (m ∷ ls) h (omega (arith, n, p.not_empty)) in
    rw
      (
        name_loop-label fuel (l ++ (46 ∷ dotted (m ∷ ls))) l (dotted (m ∷ ls))
            (label-dot l (dotted (m ∷ ls)) p.no_dot) (drop-dot l (dotted (m ∷ ls)))
            (omega (arith, n)) p.short,
        rest,
      )
      refl

-- The name of labels that DNS allows is written as these labels, each behind its length, and a zero.
pub name-dotted : (ls : List (List ℕ)) → All IsLabel ls → name (dotted ls) ≡ wire ls
unfolding name
name-dotted ls h = name_loop-dotted (length (dotted ls)) ls h (omega arith)
