-- ===== src/Mdns/Responder/Query.antt =====
-- Which datagrams the responder answers.
use gwl_airplay.Base.{
  ℕ, zero, suc, ◌+◌, ◌≤◌, ◌≡◌, ◌↔◌, ◌∙◌, inl, inr, Bool-cases, refl, sym, ap, true, List, [], ◌∷◌,
  ◌++◌, arith, length, take, drop, codes, bytes_eq, bytes_eq→eq, true-ne-false, length-append,
  length-take, append_assoc,
}
use gwl_airplay.Mdns.{make_response, scan, query_for_airplay}
use gwl_airplay.Mdns.Service.{MdnsService}
use gwl_airplay.Mdns.Responder.{response_of, exchange}

-- The service's name stands in a list, behind at least `skip` bytes.
pub record Asks (skip : ℕ) (datagram : List ℕ) : Type 0 where
  pub before : List ℕ
  pub after : List ℕ
  pub behind : skip ≤ length before
  pub whole : datagram ≡ before ++ (codes "_airplay" ++ after)

take-drop : (n : ℕ) (xs : List ℕ) → take n xs ++ drop n xs ≡ xs
take-drop zero xs = refl
take-drop (suc n) [] = refl
take-drop (suc n) (x ∷ xs) = ap (λ ys. x ∷ ys) (take-drop n xs)

scan_here : (bs : List ℕ) → bytes_eq (take 8 bs) (codes "_airplay") ≡ true → Asks 0 bs
scan_here bs e = record {
  before = [];
  after = drop 8 bs;
  behind = omega arith;
  whole =
      sym (take-drop 8 bs)
      ∙ ap (λ xs. xs ++ drop 8 bs) (bytes_eq→eq (take 8 bs) (codes "_airplay") e);
}

scan-Asks : (bs : List ℕ) → scan bs ≡ true → Asks 0 bs
unfolding scan
scan-Asks [] e = absurd (true-ne-false (sym e))
scan-Asks (b ∷ bs) e = elim (Bool-cases (bytes_eq (take 8 (b ∷ bs)) (codes "_airplay"))) [
  | inl h ↦ scan_here (b ∷ bs) h
  | inr h ↦
      let a = scan-Asks bs (ground (arith, e, h)) in
      record {
        before = b ∷ a.before;
        after = a.after;
        behind = omega arith;
        whole = ap (λ xs. b ∷ xs) a.whole;
      }
]

scan_append : (before after : List ℕ) → scan (before ++ (codes "_airplay" ++ after)) ≡ true
unfolding scan
scan_append [] after = ground arith
scan_append (b ∷ bs) after = ground (arith, scan_append bs after)

drop-append_before : (n : ℕ) (xs ys : List ℕ) → n ≤ length xs → drop n (xs ++ ys) ≡ drop n xs ++ ys
drop-append_before zero xs ys h = refl
drop-append_before (suc n) [] ys h = absurd (omega arith)
drop-append_before (suc n) (x ∷ xs) ys h = drop-append_before n xs ys (omega arith)

asked : (datagram : List ℕ) → query_for_airplay datagram ≡ true → Asks 12 datagram
unfolding query_for_airplay
asked datagram e =
    let long : 12 ≤ length datagram = ground arith in
    let found : scan (drop 12 datagram) ≡ true = ground arith in
    let a = scan-Asks (drop 12 datagram) found in
    record {
      before = take 12 datagram ++ a.before;
      after = a.after;
      behind =
          omega (arith, length-append (take 12 datagram) a.before, length-take 12 datagram, long);
      whole =
          sym (take-drop 12 datagram)
          ∙ ap (λ xs. take 12 datagram ++ xs) a.whole
          ∙ sym (append_assoc (take 12 datagram) a.before (codes "_airplay" ++ a.after));
    }

answers : (datagram : List ℕ) → Asks 12 datagram → query_for_airplay datagram ≡ true
unfolding query_for_airplay
answers datagram a =
    let name = codes "_airplay" ++ a.after in
    let size : length datagram ≡ length a.before + length name =
      ap length a.whole ∙ length-append a.before name in
    let found : scan (drop 12 datagram) ≡ true =
      ap (λ xs. scan (drop 12 xs)) a.whole
      ∙ ap scan (drop-append_before 12 a.before name a.behind)
      ∙ scan_append (drop 12 a.before) a.after in
    let long : 12 ≤ length datagram = omega (arith, size, a.behind) in ground (arith, found, long)

-- A datagram is answered exactly if the service's name stands in it behind the twelve bytes of a header.
pub query_for_airplay-Asks :
    (datagram : List ℕ) → (query_for_airplay datagram ≡ true) ↔ Asks 12 datagram
unfolding query_for_airplay
query_for_airplay-Asks datagram = (asked datagram, answers datagram)

response_is_query : (t : MdnsService) → query_for_airplay (take 1500 (response_of t)) ≡ true
unfolding query_for_airplay scan make_response
response_is_query t = ground arith

-- A service answers each packet that a service sends, so that two services, or a service that hears itself,
-- answer each other for as many turns as there are.
pub length-exchange :
    (turns : ℕ) (s t : MdnsService) → length (exchange turns s t (response_of t)) ≡ turns
unfolding exchange
length-exchange zero s t = refl
length-exchange (suc turns) s t = rw (response_is_query t, length-exchange turns t s) refl
