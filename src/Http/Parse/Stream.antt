-- ===== src/Http/Parse/Stream.antt =====
-- What arrives after a request does not change how the request is read.
use gwl_airplay.Base.{
  ℕ, zero, suc, ◌+◌, ◌-◌, ◌%◌, ◌^◌, ◌≤◌, ◌<◌, ◌≡◌, refl, ap, true, false, ◌||◌, List, [], ◌∷◌, ◌++◌,
  Option, none, some, arith, ltb, length, take, drop, length-append, length-drop, Option-cases,
  Bool-cases, inl, inr,
}
use gwl_airplay.Base.Map.{insert, bytes_ord}
use gwl_airplay.Text.{trim, find, find_at, starts_with, substr}
use gwl_airplay.Http.Parse.{
  crlf, crlf_crlf, Parse, request_line, header_loop, content_length, with_length, with_headers,
  with_line, with_ends, parse_request,
}

starts_with-append :
    (ps xs ys : List ℕ) → starts_with ps xs ≡ true → starts_with ps (xs ++ ys) ≡ true
starts_with-append [] xs ys h = refl
starts_with-append (p ∷ ps) [] ys h = cc
starts_with-append (p ∷ ps) (x ∷ xs) ys h = ground (arith, starts_with-append ps xs ys)

starts_with-length : (ps xs : List ℕ) → starts_with ps xs ≡ true → length ps ≤ length xs
starts_with-length [] xs h = omega arith
starts_with-length (p ∷ ps) [] h = cc
starts_with-length (p ∷ ps) (x ∷ xs) h = ground (arith, starts_with-length ps xs)

pub find-length : (ps xs : List ℕ) (k : ℕ) → find ps xs ≡ some k → k + length ps ≤ length xs
find-length ps [] k h = ground (arith, starts_with-length ps [])
find-length ps (x ∷ xs) k h = elim (Option-cases (find ps xs)) [
  | inl e ↦ ground (arith, starts_with-length ps (x ∷ xs))
  | inr (j, e) ↦ ground (arith, starts_with-length ps (x ∷ xs), find-length ps xs j e)
]

starts_with-append_left :
    (ps xs ys : List ℕ)
    → length ps ≤ length xs
    → starts_with ps (xs ++ ys) ≡ true
    → starts_with ps xs ≡ true
starts_with-append_left [] xs ys l h = refl
starts_with-append_left (p ∷ ps) [] ys l h = absurd (omega arith)
starts_with-append_left (p ∷ ps) (x ∷ xs) ys l h = ground (arith, starts_with-append_left ps xs ys)

-- A needle that is found stays where it is when more text follows.
pub find-append :
    (p : ℕ) (ps xs ys : List ℕ) (k : ℕ)
    → find (p ∷ ps) xs ≡ some k
    → find (p ∷ ps) (xs ++ ys) ≡ some k
find-append p ps [] ys k h = cc
find-append p ps (x ∷ xs) ys k h = elim (Option-cases (find (p ∷ ps) xs)) [
  | inl e ↦ ground (arith, starts_with-append (p ∷ ps) (x ∷ xs) ys)
  | inr (j, e) ↦ ground (
    arith,
    starts_with-append (p ∷ ps) (x ∷ xs) ys,
    starts_with-append_left (p ∷ ps) (x ∷ xs) ys,
    find-append p ps xs ys j e,
    find-length (p ∷ ps) xs j e,
  )
]

drop-append_left : (n : ℕ) (xs ys : List ℕ) → n ≤ length xs → drop n (xs ++ ys) ≡ drop n xs ++ ys
drop-append_left zero xs ys h = refl
drop-append_left (suc n) [] ys h = absurd (omega arith)
drop-append_left (suc n) (x ∷ xs) ys h = drop-append_left n xs ys (omega arith)

take-append_left : (n : ℕ) (xs ys : List ℕ) → n ≤ length xs → take n (xs ++ ys) ≡ take n xs
take-append_left zero xs ys h = refl
take-append_left (suc n) [] ys h = absurd (omega arith)
take-append_left (suc n) (x ∷ xs) ys h = ap (◌∷◌ x) (take-append_left n xs ys (omega arith))

find_at-append :
    (p : ℕ) (ps xs ys : List ℕ) (start k : ℕ)
    → find_at (p ∷ ps) xs start ≡ some k
    → (find_at (p ∷ ps) (xs ++ ys) start ≡ some k) × (k + suc (length ps) ≤ length xs)
find_at-append p ps xs ys start k h = elim (Option-cases (find (p ∷ ps) (drop start xs))) [
  | inl e ↦ absurd (ground arith)
  | inr (j, e) ↦ (
    ground (
      arith,
      length-append xs ys,
      drop-append_left start xs ys,
      find-append p ps (drop start xs) ys j e,
    ),
    ground (arith, length-drop start xs, find-length (p ∷ ps) (drop start xs) j e),
  )
]

find_at-start : (ps xs : List ℕ) (start k : ℕ) → find_at ps xs start ≡ some k → start ≤ k
find_at-start ps xs start k h = elim (Option-cases (find ps (drop start xs))) [
  | inl e ↦ absurd (ground arith)
  | inr (j, e) ↦ ground arith
]

substr-append :
    (xs ys : List ℕ) (start n : ℕ)
    → start + n ≤ length xs
    → substr (xs ++ ys) start n ≡ substr xs start n
substr-append xs ys start n h =
    rw (drop-append_left start xs ys (omega arith))
      (take-append_left n (drop start xs) ys (omega (arith, length-drop start xs)))

-- The header lines that are read from a text are read from a longer one.
header_loop-append :
    (fuel : ℕ) (xs ys : List ℕ) (end start : ℕ) (hs r : List (List ℕ × List ℕ))
    → header_loop fuel xs end start hs ≡ some r
    → header_loop fuel (xs ++ ys) end start hs ≡ some r
unfolding header_loop
header_loop-append zero xs ys end start hs r h = h
header_loop-append (suc fuel) xs ys end start hs r h = elim (Bool-cases (ltb start end)) [
  | inr e ↦ ground arith
  | inl e ↦ elim (Option-cases (find_at crlf xs start)) [
    | inl f ↦ absurd (ground arith)
    | inr (eol, f) ↦ elim (Option-cases (find_at (58 ∷ []) xs start)) [
      | inl g ↦ absurd (ground arith)
      | inr (colon, g) ↦ elim (Bool-cases (ltb end eol || ltb eol colon)) [
        | inl b ↦ absurd (ground arith)
        | inr b ↦
            let (f', lf) = find_at-append 13 (10 ∷ []) xs ys start eol f in
            let (g', lg) = find_at-append 58 [] xs ys start colon g in
            let sg = find_at-start (58 ∷ []) xs start colon g in
            let ek = substr-append xs ys start (colon - start) (ground arith) in
            let ev = substr-append xs ys (colon + 1) (eol - colon - 1) (ground arith) in
            let next =
              header_loop-append fuel xs ys end (eol + 2)
                (insert (trim (substr xs start (colon - start)))
                  (trim (substr xs (colon + 1) (eol - colon - 1))) hs)
                r in
            ground (arith, f', g', ek, ev, next)
      ]
    ]
  ]
]

module _ (max_size : ℕ) (small : max_size < 2 ^ 63) where
  -- The answer of the parser stays as it is when `ys` follows.
  abbrev pub Extends : Parse → Parse → List ℕ → Type 0
  Extends Parse.incomplete q ys = Unit
  Extends Parse.threw q ys = q ≡ Parse.threw
  Extends (Parse.parsed r rest) q ys = q ≡ Parse.parsed r (rest ++ ys)

  with_length-append :
      (xs ys : List ℕ) (end : ℕ) (line : List ℕ × List ℕ × List ℕ) (hs : List (List ℕ × List ℕ))
      (n : Option ℕ)
      → end + 4 ≤ length xs
      → length (xs ++ ys) < 2 ^ 63
      → Extends
          (with_length max_size xs end line hs n)
          (with_length max_size (xs ++ ys) end line hs n)
          ys
  unfolding with_length
  with_length-append xs ys end line hs none l b = tt
  with_length-append xs ys end line hs (some n) l b =
      elim (Bool-cases (ltb (length xs) ((end + 4 + n) % 2 ^ 64))) [
        | inl e ↦ rw e tt
        | inr e ↦
            let e' : ltb (length (xs ++ ys)) ((end + 4 + n) % 2 ^ 64) ≡ false =
              ground (arith, length-append xs ys) in
            elim (Bool-cases (ltb max_size n)) [
              | inl f ↦ rw (e, e', f) refl
              | inr f ↦
                  let whole : (end + 4 + n) % 2 ^ 64 ≡ end + 4 + n =
                    ground (arith, length-append xs ys) in
                  let fits : end + 4 + n ≤ length xs = ground arith in
                  let eb = substr-append xs ys (end + 4) n fits in
                  let ed = drop-append_left (end + 4 + n) xs ys fits in
                  rw (e, e', f, whole, eb, ed) refl
            ]
      ]

  with_headers-append :
      (xs ys : List ℕ) (end : ℕ) (line : List ℕ × List ℕ × List ℕ)
      (hs hs' : Option (List (List ℕ × List ℕ)))
      → ((r : List (List ℕ × List ℕ)) → hs ≡ some r → hs' ≡ some r)
      → end + 4 ≤ length xs
      → length (xs ++ ys) < 2 ^ 63
      → Extends
          (with_headers max_size xs end line hs)
          (with_headers max_size (xs ++ ys) end line hs')
          ys
  unfolding with_headers
  with_headers-append xs ys end line none hs' same l b = tt
  with_headers-append xs ys end line (some r) hs' same l b =
      rw (same r refl) (with_length-append xs ys end line r (content_length r) l b)

  with_line-append :
      (xs ys : List ℕ) (end first : ℕ) (line : Option (List ℕ × List ℕ × List ℕ))
      → end + 4 ≤ length xs
      → length (xs ++ ys) < 2 ^ 63
      → Extends
          (with_line max_size xs end first line)
          (with_line max_size (xs ++ ys) end first line)
          ys
  unfolding with_line
  with_line-append xs ys end first none l b = tt
  with_line-append xs ys end first (some line) l b =
      with_headers-append xs ys end line (header_loop end xs end (first + 2) [])
        (header_loop end (xs ++ ys) end (first + 2) [])
        (λ r h. header_loop-append end xs ys end (first + 2) [] r h) l b

  -- What the parser answers for an input, a request or an exception, it answers for that input with any
  -- text behind it, which is left for the next request. All of it is shorter than 2 ^ 63, and max_size is
  -- below it.
  pub parse_request-append :
      (xs ys : List ℕ)
      → length (xs ++ ys) < 2 ^ 63
      → Extends (parse_request max_size xs) (parse_request max_size (xs ++ ys)) ys
  unfolding parse_request with_ends
  parse_request-append xs ys b = elim (Option-cases (find crlf_crlf xs)) [
    | inl e ↦ rw e tt
    | inr (end, e) ↦ elim (Option-cases (find crlf xs)) [
      | inl f ↦ rw (e, f) tt
      | inr (first, f) ↦
          let l = find-length crlf_crlf xs end e in
          let lf = find-length crlf xs first f in
          let e' = find-append 13 (10 ∷ 13 ∷ 10 ∷ []) xs ys end e in
          let f' = find-append 13 (10 ∷ []) xs ys first f in
          let t = take-append_left first xs ys (omega (arith, lf)) in
          let k = with_line-append xs ys end first (request_line (take first xs)) l b in
          elim (Bool-cases (ltb end first)) [
            | inl g ↦ rw (e, f, g) tt
            | inr g ↦ rw (e, f, e', f', g, t) k
          ]
    ]
  ]
