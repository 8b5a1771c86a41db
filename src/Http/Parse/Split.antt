-- ===== src/Http/Parse/Split.antt =====
-- What a request takes from the input.
use gwl_airplay.Base.{
  ℕ, zero, suc, ◌+◌, ◌%◌, ◌^◌, ◌<◌, ◌≡◌, refl, sym, ap, ◌∙◌, List, [], ◌∷◌, ◌++◌, Option, none,
  some, arith, ltb, length, take, drop, length-drop, length-take, drop-drop, Option-cases,
  Bool-cases, inl, inr,
}
use gwl_airplay.Text.{find, substr}
use gwl_airplay.Http.Parse.{
  crlf, crlf_crlf, Parse, request_line, header_loop, content_length, with_length, with_headers,
  with_line, with_ends, parse_request,
}
use gwl_airplay.Http.Parse.Stream.{find-length}

take-drop : (n : ℕ) (xs : List ℕ) → take n xs ++ drop n xs ≡ xs
take-drop zero xs = refl
take-drop (suc n) [] = refl
take-drop (suc n) (x ∷ xs) = ap (◌∷◌ x) (take-drop n xs)

-- A parsed request and the rest: the head up to the empty line, the body, whose length is the
-- Content-Length, and the rest make up the input.
abbrev pub Splits : List ℕ → Parse → Type 0
Splits xs Parse.incomplete = Unit
Splits xs Parse.threw = Unit
Splits xs (Parse.parsed r rest) =
    (end : ℕ) × (find crlf_crlf xs ≡ some end)
    × (content_length r.headers ≡ some (length r.body))
    × (xs ≡ take (end + 4) xs ++ (r.body ++ rest))

split_at : (m n : ℕ) (xs : List ℕ) → take m xs ++ (substr xs m n ++ drop (m + n) xs) ≡ xs
split_at m n xs = rw (sym (drop-drop n m xs), take-drop n (drop m xs)) (take-drop m xs)

module _ (max_size : ℕ) (small : max_size < 2 ^ 63) where
  with_length-Splits :
      (xs : List ℕ) (end : ℕ) (line : List ℕ × List ℕ × List ℕ) (hs : List (List ℕ × List ℕ))
      (n : Option ℕ)
      → content_length hs ≡ n
      → find crlf_crlf xs ≡ some end
      → length xs < 2 ^ 63
      → Splits xs (with_length max_size xs end line hs n)
  unfolding with_length
  with_length-Splits xs end line hs none c f b = tt
  with_length-Splits xs end line hs (some n) c f b =
      let l = find-length crlf_crlf xs end f in
      elim (Bool-cases (ltb (length xs) ((end + 4 + n) % 2 ^ 64))) [
        | inl e ↦ rw e tt
        | inr e ↦ elim (Bool-cases (ltb max_size n)) [
          | inl g ↦ rw (e, g) tt
          | inr g ↦
              let whole : (end + 4 + n) % 2 ^ 64 ≡ end + 4 + n = ground arith in
              let count : length (substr xs (end + 4) n) ≡ n =
                ground (arith, length-take n (drop (end + 4) xs), length-drop (end + 4) xs) in
              rw (e, g, whole) (end, f, c ∙ ap some (sym count), sym (split_at (end + 4) n xs))
        ]
      ]

  with_headers-Splits :
      (xs : List ℕ) (end : ℕ) (line : List ℕ × List ℕ × List ℕ)
      (hs : Option (List (List ℕ × List ℕ)))
      → find crlf_crlf xs ≡ some end
      → length xs < 2 ^ 63
      → Splits xs (with_headers max_size xs end line hs)
  unfolding with_headers
  with_headers-Splits xs end line none f b = tt
  with_headers-Splits xs end line (some hs) f b =
      with_length-Splits xs end line hs (content_length hs) refl f b

  with_line-Splits :
      (xs : List ℕ) (end first : ℕ) (line : Option (List ℕ × List ℕ × List ℕ))
      → find crlf_crlf xs ≡ some end
      → length xs < 2 ^ 63
      → Splits xs (with_line max_size xs end first line)
  unfolding with_line
  with_line-Splits xs end first none f b = tt
  with_line-Splits xs end first (some line) f b =
      with_headers-Splits xs end line (header_loop end xs end (first + 2) []) f b

  -- A request that is parsed from an input of less than 2 ^ 63 characters takes its head, which ends at
  -- the first empty line, and a body of exactly Content-Length characters; all behind it is left.
  pub parse_request-Splits :
      (xs : List ℕ) → length xs < 2 ^ 63 → Splits xs (parse_request max_size xs)
  unfolding parse_request with_ends
  parse_request-Splits xs b = elim (Option-cases (find crlf_crlf xs)) [
    | inl e ↦ rw e tt
    | inr (end, e) ↦ elim (Option-cases (find crlf xs)) [
      | inl f ↦ rw (e, f) tt
      | inr (first, f) ↦
          let k = with_line-Splits xs end first (request_line (take first xs)) e b in
          elim (Bool-cases (ltb end first)) [ inl g ↦ rw (e, f, g) tt | inr g ↦ rw (e, f, g) k ]
    ]
  ]

  pub parse_request_empty : parse_request max_size [] ≡ Parse.incomplete
  unfolding parse_request with_ends
  parse_request_empty = refl
