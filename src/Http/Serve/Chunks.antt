-- ===== src/Http/Serve/Chunks.antt =====
-- The answers of a connection do not depend on how the requests are cut into segments.
use gwl_airplay.Base.{
  ℕ, zero, suc, ◌+◌, ◌^◌, ◌≤◌, ◌<◌, ◌≡◌, refl, sym, ap, subst, ◌∙◌, Bool, List, [], ◌∷◌, ◌++◌,
  append_assoc, Option, arith, length, take, length-append, length-take, Bool-cases, inl, inr, ◌⊎◌,
}
use gwl_airplay.Http.{HttpRequest, HttpResponse}
use gwl_airplay.Http.Parse.{crlf_crlf, Parse, parse_request}
use gwl_airplay.Http.Parse.Stream.{Extends, parse_request-append, find-length}
use gwl_airplay.Http.Parse.Split.{Splits, parse_request-Splits, parse_request_empty}
use gwl_airplay.Http.Serve.{
  filled, closes, response_text, Connection, Outcome, and_then, respond, answer, drain, receive,
}

-- A request takes four characters at least.
Splits-shorter :
    (xs rest : List ℕ) (r : HttpRequest)
    → Splits xs (Parse.parsed r rest)
    → suc (length rest) ≤ length xs
Splits-shorter xs rest r (end, f, c, e) =
    let l = find-length crlf_crlf xs end f in
    let n : length xs ≡ length (take (end + 4) xs) + (length r.body + length rest) =
      ap length e
      ∙ (length-append (take (end + 4) xs) (r.body ++ rest)
          ∙ ap (λ k. length (take (end + 4) xs) + k) (length-append r.body rest)) in
    omega (arith, n, l, length-take (end + 4) xs)

Parse-cases :
    (p : Parse)
    → (p ≡ Parse.incomplete)
      ⊎ (p ≡ Parse.threw)
      ⊎ ((r : HttpRequest) × (rest : List ℕ) × (p ≡ Parse.parsed r rest))
Parse-cases Parse.incomplete = inl refl
Parse-cases Parse.threw = inr (inl refl)
Parse-cases (Parse.parsed r rest) = inr (inr (r, rest, refl))

module _ {ℓ} {H : Type ℓ} (max_size : ℕ) (handle : Option (H → HttpRequest → HttpResponse × H))
    (send : List (List ℕ) → List ℕ → Bool) (small : max_size < 2 ^ 63) where
  parsed-shorter :
      (xs rest : List ℕ) (r : HttpRequest)
      → length xs < 2 ^ 63
      → parse_request max_size xs ≡ Parse.parsed r rest
      → suc (length rest) ≤ length xs
  parsed-shorter xs rest r b e =
      Splits-shorter xs rest r
        (subst (λ p. Splits xs p) e (parse_request-Splits max_size small xs b))

  parse_empty : (xs : List ℕ) → length xs ≤ 0 → parse_request max_size xs ≡ Parse.incomplete
  parse_empty [] l = parse_request_empty max_size small
  parse_empty (x ∷ xs) l = absurd (omega arith)

  -- After a request the connection is closed, or it waits with what was behind the request.
  answer-cases :
      (c : Connection H) (r : HttpRequest)
      → ((h : H) × (s : List (List ℕ)) × ((i rest : List ℕ)
            → answer max_size handle send (record c { input = i }) r rest ≡ Outcome.closed h s))
        ⊎ ((h : H) × (s : List (List ℕ)) × ((i rest : List ℕ)
              → answer max_size handle send (record c { input = i }) r rest
                ≡ Outcome.waiting (record { input = rest; handler = h; sent = s })))
  unfolding answer
  answer-cases c r =
      let (response', h) = respond max_size handle send handle c.handler r in
      let response = filled r response' in
      let out = response_text response in
      elim (Bool-cases (send c.sent out)) [
        | inr e ↦ inl (h, c.sent, λ i rest. rw e refl)
        | inl e ↦ elim (Bool-cases (closes r response)) [
          | inl f ↦ inl (h, c.sent ++ (out ∷ []), λ i rest. rw (e, f) refl)
          | inr f ↦ inr (h, c.sent ++ (out ∷ []), λ i rest. rw (e, f) refl)
        ]
      ]

  drain_incomplete :
      (fuel : ℕ) (c : Connection H)
      → parse_request max_size c.input ≡ Parse.incomplete
      → drain max_size handle send fuel c ≡ Outcome.waiting c
  unfolding drain
  drain_incomplete zero c e = refl
  drain_incomplete (suc fuel) c e = rw (e, drain) refl

  drain_threw :
      (fuel : ℕ) (c : Connection H)
      → parse_request max_size c.input ≡ Parse.threw
      → drain max_size handle send (suc fuel) c ≡ Outcome.crashed c.handler c.sent
  unfolding drain
  drain_threw fuel c e = rw (e, drain) refl

  drain_parsed :
      (fuel : ℕ) (c : Connection H) (r : HttpRequest) (rest : List ℕ)
      → parse_request max_size c.input ≡ Parse.parsed r rest
      → drain max_size handle send (suc fuel) c
        ≡ and_then (answer max_size handle send c r rest) (λ c'. drain max_size handle send fuel c')
  unfolding drain
  drain_parsed fuel c r rest e = rw (e, drain) refl

  -- More fuel than characters changes nothing.
  drain-fuel :
      (fuel more : ℕ) (c : Connection H)
      → length c.input < 2 ^ 63
      → length c.input ≤ fuel
      → length c.input ≤ more
      → drain max_size handle send fuel c ≡ drain max_size handle send more c
  drain-fuel zero more c b l m =
      drain_incomplete zero c (parse_empty c.input (omega (arith, l)))
      ∙ sym (drain_incomplete more c (parse_empty c.input (omega (arith, l))))
  drain-fuel (suc fuel) zero c b l m =
      drain_incomplete (suc fuel) c (parse_empty c.input (omega (arith, m)))
      ∙ sym (drain_incomplete zero c (parse_empty c.input (omega (arith, m))))
  drain-fuel (suc fuel) (suc more) c b l m = elim (Parse-cases (parse_request max_size c.input)) [
    | inl e ↦ drain_incomplete (suc fuel) c e ∙ sym (drain_incomplete (suc more) c e)
    | inr (inl e) ↦ drain_threw fuel c e ∙ sym (drain_threw more c e)
    | inr (inr (r, rest, e)) ↦
        let k = parsed-shorter c.input rest r b e in
        let same : and_then (answer max_size handle send c r rest)
              (λ c'. drain max_size handle send fuel c')
            ≡ and_then (answer max_size handle send c r rest)
                (λ c'. drain max_size handle send more c') =
          elim (answer-cases c r) [
            | inl (h, s, a) ↦ rw (a c.input rest) refl
            | inr (h, s, a) ↦ rw (a c.input rest) (
                drain-fuel fuel more (record { input = rest; handler = h; sent = s })
                  (omega (arith, k, b)) (omega (arith, k, l)) (omega (arith, k, m)))
          ] in
        drain_parsed fuel c r rest e ∙ (same ∙ sym (drain_parsed more c r rest e))
  ]

  abbrev more_input : Connection H → List ℕ → Connection H
  more_input c ys = record c { input = c.input ++ ys }

  drain-append_incomplete :
      (fuel more : ℕ) (c : Connection H) (ys : List ℕ)
      → length (c.input ++ ys) < 2 ^ 63
      → length (c.input ++ ys) ≤ more
      → parse_request max_size c.input ≡ Parse.incomplete
      → drain max_size handle send more (more_input c ys)
        ≡ and_then (drain max_size handle send fuel c) (λ c'. receive max_size handle send c' ys)
  unfolding receive
  drain-append_incomplete fuel more c ys b m e =
      rw (drain_incomplete fuel c e)
        (drain-fuel more (length (c.input ++ ys)) (more_input c ys) b m (omega arith))

  drain-append :
      (fuel more : ℕ) (c : Connection H) (ys : List ℕ)
      → length (c.input ++ ys) < 2 ^ 63
      → length c.input ≤ fuel
      → length (c.input ++ ys) ≤ more
      → drain max_size handle send more (more_input c ys)
        ≡ and_then (drain max_size handle send fuel c) (λ c'. receive max_size handle send c' ys)
  drain-append zero more c ys b l m =
      drain-append_incomplete zero more c ys b m (parse_empty c.input (omega (arith, l)))
  drain-append (suc fuel) zero c ys b l m =
      drain-append_incomplete (suc fuel) zero c ys b m
        (parse_empty c.input (omega (arith, m, length-append c.input ys)))
  drain-append (suc fuel) (suc more) c ys b l m =
      let la = length-append c.input ys in
      let k = parse_request-append max_size small c.input ys b in
      elim (Parse-cases (parse_request max_size c.input)) [
        | inl e ↦ drain-append_incomplete (suc fuel) (suc more) c ys b m e
        | inr (inl e) ↦
            let e' : parse_request max_size (c.input ++ ys) ≡ Parse.threw =
              subst (λ p. Extends max_size small p (parse_request max_size (c.input ++ ys)) ys) e
                k in
            rw (drain_threw fuel c e) (drain_threw more (more_input c ys) e')
        | inr (inr (r, rest, e)) ↦
            let e' : parse_request max_size (c.input ++ ys) ≡ Parse.parsed r (rest ++ ys) =
              subst (λ p. Extends max_size small p (parse_request max_size (c.input ++ ys)) ys) e
                k in
            let n = parsed-shorter c.input rest r (omega (arith, b, la)) e in
            let lr = length-append rest ys in
            drain_parsed more (more_input c ys) r (rest ++ ys) e'
            ∙ rw (drain_parsed fuel c r rest e) (elim (answer-cases c r) [
              | inl (h, s, a) ↦ rw (a c.input rest, a (c.input ++ ys) (rest ++ ys)) refl
              | inr (h, s, a) ↦
                  rw (a c.input rest, a (c.input ++ ys) (rest ++ ys))
                    (drain-append fuel more (record { input = rest; handler = h; sent = s }) ys
                      (omega (arith, la, lr, n, b)) (omega (arith, n, l))
                      (omega (arith, la, lr, n, m)))
            ])
      ]

  -- What arrives in two segments is answered as what arrives in one: the same responses in the same
  -- order, the same end of the connection, and the same input left over. The input is shorter than 2 ^ 63.
  pub receive-append :
      (c : Connection H) (xs ys : List ℕ)
      → length (c.input ++ (xs ++ ys)) < 2 ^ 63
      → receive max_size handle send c (xs ++ ys)
        ≡ and_then (receive max_size handle send c xs) (λ c'. receive max_size handle send c' ys)
  unfolding receive
  receive-append c xs ys b =
      let a : c.input ++ (xs ++ ys) ≡ (c.input ++ xs) ++ ys = sym (append_assoc c.input xs ys) in
      rw a (
        drain-append (length (c.input ++ xs)) (length ((c.input ++ xs) ++ ys)) (more_input c xs) ys
          (subst (λ k. length k < 2 ^ 63) a b) (omega arith) (omega arith))
