-- ===== src/Rtsp/Plist/Offsets.antt =====
-- The objects of a list that is put together stand where its offsets say.
use gwl_airplay.Base.{
  ℕ, zero, suc, ◌+◌, ◌-◌, ◌*◌, ◌%◌, ◌^◌, ◌≤◌, ◌<◌, ◌≡◌, ◌∙◌, refl, sym, ap, subst, Bool, List, [],
  ◌∷◌, ◌++◌, append_assoc, arith, length, take, drop, replicate, length-append, take-append,
  drop-append_of_eq, ◌==◌, codes,
}
use gwl_airplay.Rtsp.Plist.{
  offsets_from, concat, table, be_bytes, size_loop, last_or, write_objects,
}

-- Each object stands at its offset.
abbrev pub Placed : List ℕ → List ℕ → List (List ℕ) → Type 0
Placed d [] [] = Unit {0}
Placed d (i ∷ is) (o ∷ os) = (take (length o) (drop i d) ≡ o) × Placed d is os
Placed d [] (o ∷ os) = ⊥
Placed d (i ∷ is) [] = ⊥

Placed-offsets_from :
    (pre : List ℕ) (os : List (List ℕ)) (rest : List ℕ)
    → Placed (pre ++ (concat os ++ rest)) (offsets_from (length pre) os) os
unfolding offsets_from
Placed-offsets_from pre [] rest = tt
Placed-offsets_from pre (o ∷ os) rest =
    let here : take (length o) (drop (length pre) (pre ++ ((o ++ concat os) ++ rest))) ≡ o =
      rw
        (
          drop-append_of_eq (length pre) pre ((o ++ concat os) ++ rest) refl,
          append_assoc o (concat os) rest,
        )
        (take-append o (concat os ++ rest)) in
    let e : (pre ++ o) ++ (concat os ++ rest) ≡ pre ++ ((o ++ concat os) ++ rest) =
      append_assoc pre o (concat os ++ rest)
      ∙ ap (λ l. pre ++ l) (sym (append_assoc o (concat os) rest)) in
    let later : Placed ((pre ++ o) ++ (concat os ++ rest)) (offsets_from (length (pre ++ o)) os)
        os =
      Placed-offsets_from (pre ++ o) os rest in
    (
      here,
      subst (λ d. Placed d (offsets_from (length pre + length o) os) os) e
          (subst (λ n. Placed ((pre ++ o) ++ (concat os ++ rest)) (offsets_from n os) os)
            (length-append pre o) later),
    )

-- The trailer of a property list is its last 32 bytes.
abbrev pub trailer : List ℕ → List ℕ
trailer d = drop (length d - 32) d

abbrev pub be_value : ℕ → List ℕ → ℕ
be_value acc [] = acc
be_value acc (b ∷ bs) = be_value (acc * 256 + b) bs

-- Where the table of offsets, of as many entries as there are objects, ends by the trailer.
abbrev pub table_end : List ℕ → ℕ
table_end d =
    let t = trailer d in
    let size = be_value 0 (take 1 (drop 6 t)) in
    let count = be_value 0 (take 8 (drop 8 t)) in
    let table_offset = be_value 0 (drop 24 t) in table_offset + count * size

-- The table of offsets ends where the trailer begins.
abbrev pub is_consistent : List ℕ → Bool
is_consistent d = table_end d + 32 == length d

be_value-be_bytes8 : (n : ℕ) → n < 2 ^ 64 → be_value 0 (be_bytes 8 n) ≡ n
unfolding be_bytes
be_value-be_bytes8 n h = omega arith

length-be_bytes : (k n : ℕ) → length (be_bytes k n) ≡ k
unfolding be_bytes
length-be_bytes zero n = refl
length-be_bytes (suc k) n = ap suc (length-be_bytes k n)

length-table : (size : ℕ) (os : List ℕ) → length (table size os) ≡ length os * size
length-table size [] = omega arith
length-table size (o ∷ os) = grind (arith, length-append, length-be_bytes, length-table size os)

length-offsets_from : (start : ℕ) (os : List (List ℕ)) → length (offsets_from start os) ≡ length os
unfolding offsets_from
length-offsets_from start [] = refl
length-offsets_from start (o ∷ os) = ap suc (length-offsets_from (start + length o) os)

size_loop-le : (fuel last size : ℕ) → size_loop fuel last size ≤ size + fuel
unfolding size_loop
size_loop-le zero last size = omega arith
size_loop-le (suc fuel) last size = ground (arith, size_loop-le fuel last (suc size))

-- The 32 bytes of a trailer.
abbrev trailer_bytes : ℕ → ℕ → ℕ → List ℕ
trailer_bytes size count offset =
    replicate 6 0 ++ (size % 256 ∷ 1 ∷ (be_bytes 8 count ++ (replicate 8 0 ++ be_bytes 8 offset)))

trailer-append :
    (front : List ℕ) (size count offset : ℕ)
    → trailer (front ++ trailer_bytes size count offset) ≡ trailer_bytes size count offset
unfolding be_bytes
trailer-append front size count offset =
    drop-append_of_eq (length (front ++ trailer_bytes size count offset) - 32) front
      (trailer_bytes size count offset)
      (omega (arith, length-append front (trailer_bytes size count offset)))

table_end-append :
    (front : List ℕ) (size count offset : ℕ)
    → size < 256
    → count < 2 ^ 64
    → offset < 2 ^ 64
    → table_end (front ++ trailer_bytes size count offset) ≡ offset + count * size
unfolding be_bytes
table_end-append front size count offset s c o =
    let e = trailer-append front size count offset in
    let vc = be_value-be_bytes8 count c in
    let vo = be_value-be_bytes8 offset o in
    let vs : size % 256 ≡ size = omega arith in
    rw (e, vs, vc, vo) (ap (λ k. offset + count * k) (omega arith))

body-length :
    (objects : List (List ℕ))
    → length (codes "bplist00" ++ concat objects) ≡ 8 + length (concat objects)
body-length objects = length-append (codes "bplist00") (concat objects)

-- What is put together from at most 255 objects, of fewer than 2^63 bytes: the last 32 bytes are a trailer,
-- and by it the table of offsets ends one byte before them.
pub table_end-write_objects :
    (objects : List (List ℕ))
    → length objects < 256
    → length (concat objects) < 2 ^ 63
    → table_end (write_objects objects) + 33 ≡ length (write_objects objects)
unfolding write_objects
table_end-write_objects objects n l =
    let offsets = offsets_from 8 objects in
    let body = codes "bplist00" ++ concat objects in
    let size = size_loop 8 (last_or 0 offsets) 1 in
    let entries = table size offsets in
    let front = body ++ (entries ++ (0 ∷ [])) in
    let last = trailer_bytes size (length offsets) (length body) in
    let count : length offsets ≡ length objects = length-offsets_from 8 objects in
    let small = size_loop-le 8 (last_or 0 offsets) 1 in
    let bl = body-length objects in
    let long : length (front ++ last) ≡ length body + length offsets * size + 33 = omega (
      arith,
      length-append front last,
      length-append body (entries ++ (0 ∷ [])),
      length-append entries (0 ∷ []),
      length-table size offsets,
    ) in
    let same : body ++ (entries ++ (0 ∷ last)) ≡ front ++ last =
      ap (λ r. body ++ r) (sym (append_assoc entries (0 ∷ []) last))
      ∙ sym (append_assoc body (entries ++ (0 ∷ [])) last) in
    let ends : table_end (front ++ last) ≡ length body + length offsets * size =
      table_end-append front size (length offsets) (length body) (omega arith) (omega arith)
        (omega arith) in
    subst (λ d. table_end d + 33 ≡ length d) (sym same) (omega (arith, ends, long))

pub write_objects-Placed :
    (objects : List (List ℕ)) → Placed (write_objects objects) (offsets_from 8 objects) objects
unfolding write_objects
write_objects-Placed objects =
    let offsets = offsets_from 8 objects in
    let body = codes "bplist00" ++ concat objects in
    let size = size_loop 8 (last_or 0 offsets) 1 in
    let rest = table size offsets ++ (0 ∷ trailer_bytes size (length offsets) (length body)) in
    subst (λ d. Placed d offsets objects)
      (sym (append_assoc (codes "bplist00") (concat objects) rest))
      (Placed-offsets_from (codes "bplist00") objects rest)
