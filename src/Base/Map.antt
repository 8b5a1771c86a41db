-- ===== src/Base/Map.antt =====
-- std::map: an association list kept in the order of its keys.
use Prim.Native.Nat.{ℕ, suc, compare, Ordering, ◌≤◌, ◌<◌}
use mathlib.Core.Path.{◌≡◌, refl, subst}
use mathlib.Core.Option.{Option, none, some}
use mathlib.Core.List.{List, [], ◌∷◌}
use native.Mathlib.Omega.{arith}
use native.Mathlib.Decide.{ℕ_discrete}
use gwl_airplay.Base.Tests.{◌==◌, if◌then◌else◌}
use gwl_airplay.Base.Lists.{length, All}
use gwl_airplay.Base.Bytes.{bytes_cmp, bytes_cmp→eq, bytes_cmp_refl}

-- The comparison of the keys.
pub record Ord {ℓ} (K : Type ℓ) : Type ℓ where
  pub cmp : K → K → Ordering
  pub cmp_eq : (a b : K) → cmp a b ≡ Ordering.eq → a ≡ b
  pub cmp_refl : (a : K) → cmp a a ≡ Ordering.eq

pub compare→eq : (a b : ℕ) → compare a b ≡ Ordering.eq → a ≡ b
compare→eq a b h = ground arith

pub compare_refl : (a : ℕ) → compare a a ≡ Ordering.eq
compare_refl a = ground arith

instance abbrev pub nat_ord : Ord ℕ
nat_ord = record { cmp = compare; cmp_eq = compare→eq; cmp_refl = compare_refl }

instance abbrev pub bytes_ord : Ord (List ℕ)
bytes_ord = record { cmp = bytes_cmp; cmp_eq = bytes_cmp→eq; cmp_refl = bytes_cmp_refl }

module _ {ℓ κ} {K : Type ℓ} {V : Type κ} ⦃o : Ord K⦄ where
  -- `m.find(k)`
  abbrev pub lookup : K → List (K × V) → Option V
  lookup k [] = none
  lookup k ((j, v) ∷ m) = elim (o.cmp k j) [ Ordering.eq ↦ some v | _ ↦ lookup k m ]

  -- `m[k] = v`
  abbrev pub insert : K → V → List (K × V) → List (K × V)
  insert k v [] = (k, v) ∷ []
  insert k v ((j, w) ∷ m) = elim (o.cmp k j) [
    | Ordering.lt ↦ (k, v) ∷ (j, w) ∷ m
    | Ordering.eq ↦ (k, v) ∷ m
    | Ordering.gt ↦ (j, w) ∷ insert k v m
  ]

  -- `m.erase(m.find(k))`
  abbrev pub erase : K → List (K × V) → List (K × V)
  erase k [] = []
  erase k ((j, w) ∷ m) = elim (o.cmp k j) [ Ordering.eq ↦ m | _ ↦ (j, w) ∷ erase k m ]

module _ {ℓ κ} {K : Type ℓ} {V : Type κ} ⦃o : Ord K⦄ where
  -- What was stored last under a key is found.
  pub lookup-insert_self : (k : K) (v : V) (m : List (K × V)) → lookup k (insert k v m) ≡ some v
  lookup-insert_self k v [] = rw (o.cmp_refl k)
  lookup-insert_self k v ((j, w) ∷ m) = ground (arith, o.cmp_refl k, lookup-insert_self k v m)

module _ {κ} {V : Type κ} where
  -- The keys rise, from `lo` on.
  abbrev pub KeysFrom : ℕ → List (ℕ × V) → Type 0
  KeysFrom lo [] = Unit {0}
  KeysFrom lo ((k, v) ∷ m) = (lo ≤ k) × KeysFrom (suc k) m

  pub KeysFrom-mono : (lo hi : ℕ) (m : List (ℕ × V)) → lo ≤ hi → KeysFrom hi m → KeysFrom lo m
  KeysFrom-mono lo hi [] h s = tt
  KeysFrom-mono lo hi ((k, v) ∷ m) h s = (omega arith, s.1)

  pub insert-KeysFrom :
      (lo k : ℕ) (v : V) (m : List (ℕ × V)) → lo ≤ k → KeysFrom lo m → KeysFrom lo (insert k v m)
  insert-KeysFrom lo k v [] h s = (h, tt)
  insert-KeysFrom lo k v ((j, w) ∷ m) h s = ground (arith, insert-KeysFrom (suc j) k v m)

  pub erase-KeysFrom : (lo k : ℕ) (m : List (ℕ × V)) → KeysFrom lo m → KeysFrom lo (erase k m)
  erase-KeysFrom lo k [] s = tt
  erase-KeysFrom lo k ((j, w) ∷ m) s =
      ground (arith, erase-KeysFrom (suc j) k m, KeysFrom-mono lo (suc j) m)

  pub lookup_below : (lo k : ℕ) (m : List (ℕ × V)) → k < lo → KeysFrom lo m → lookup k m ≡ none
  lookup_below lo k [] h s = refl
  lookup_below lo k ((j, w) ∷ m) h s = ground (arith, lookup_below (suc j) k m)

  pub lookup-insert :
      (j k : ℕ) (v : V) (m : List (ℕ × V))
      → lookup j (insert k v m) ≡ (if j == k then some v else lookup j m)
  lookup-insert j k v [] = ground arith
  lookup-insert j k v ((i, w) ∷ m) = ground (arith, lookup-insert j k v m)

  pub lookup-erase :
      (lo j k : ℕ) (m : List (ℕ × V))
      → KeysFrom lo m
      → lookup j (erase k m) ≡ (if j == k then none else lookup j m)
  lookup-erase lo j k [] s = ground arith
  lookup-erase lo j k ((i, w) ∷ m) s =
      ground (arith, lookup-erase (suc i) j k m, lookup_below (suc i) j m)

  pub length-insert :
      (k : ℕ) (v : V) (m : List (ℕ × V))
      → lookup k m ≡ none
      → length (insert k v m) ≡ suc (length m)
  length-insert k v [] h = refl
  length-insert k v ((i, w) ∷ m) h = ground (arith, length-insert k v m)

  pub length-erase :
      (k : ℕ) (v : V) (m : List (ℕ × V)) → lookup k m ≡ some v → length m ≡ suc (length (erase k m))
  length-erase k v [] h = cc
  length-erase k v ((i, w) ∷ m) h = ground (arith, length-erase k v m)

  -- A property of every entry.
  pub insert-All {η} :
      (P : (ℕ × V) → Type η) (k : ℕ) (v : V) (m : List (ℕ × V))
      → P (k, v)
      → All P m
      → All P (insert k v m)
  insert-All P k v [] p h = (p, tt)
  insert-All P k v ((i, w) ∷ m) p h = ground (arith, insert-All P k v m)

  pub erase-All {η} :
      (P : (ℕ × V) → Type η) (k : ℕ) (m : List (ℕ × V)) → All P m → All P (erase k m)
  erase-All P k [] h = tt
  erase-All P k ((i, w) ∷ m) h = ground (arith, erase-All P k m)

  pub lookup-All {η} :
      (P : (ℕ × V) → Type η) (k : ℕ) (v : V) (m : List (ℕ × V))
      → All P m
      → lookup k m ≡ some v
      → P (k, v)
  lookup-All P k v [] h e = absurd (none-ne-some e)
    where
      none-ne-some : none ≡ some v → ⊥
      none-ne-some q = cc
  lookup-All P k v ((i, w) ∷ m) h e = elim (ℕ_discrete k i) [
    | yes p ↦ subst P (ground arith) h.0
    | no p ↦ lookup-All P k v m h.1 (ground arith)
  ]
