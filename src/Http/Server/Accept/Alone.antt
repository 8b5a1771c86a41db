-- ===== src/Http/Server/Accept/Alone.antt =====
-- Connections that are taken one after another do not touch each other.
use gwl_airplay.Base.{
  ℕ, ◌≡◌, refl, ap, sym, Bool, true, false, ◌&&◌, List, [], ◌∷◌, ◌++◌, map, Option, none, some,
  append_assoc, append-nil, true-ne-false,
}
use gwl_airplay.Http.{HttpRequest, HttpResponse}
use gwl_airplay.Http.Serve.{Outcome}
use gwl_airplay.Http.Server.Accept.{
  Client, Round, Thread, Serving, kept, made_by, client_outcome, concluded, serve_client, serve,
}

and_true : (a : Bool) {b : Bool} → (a && b) ≡ true → (a ≡ true) × (b ≡ true)
and_true true e = (refl, e)
and_true false e = absurd (true-ne-false (sym e))

-- The server is not stopped meanwhile.
abbrev pub goes_on : List Round → Bool
goes_on [] = true
goes_on (r ∷ rounds) = (r.running && r.still_running) && goes_on rounds

abbrev pub with_accepted : Option Client → List Client → List Client
with_accepted none clients = clients
with_accepted (some c) clients = c ∷ clients

-- The connections that are taken.
abbrev pub clients_of : List Round → List Client
clients_of [] = []
clients_of (r ∷ rounds) = with_accepted r.accept (clients_of rounds)

module _ {ℓ} {H : Type ℓ} where
  abbrev pub is_closed : Outcome (Option H) → Bool
  is_closed (Outcome.waiting c) = false
  is_closed (Outcome.closed h sent) = true
  is_closed (Outcome.crashed h sent) = false

  abbrev pub all_closed : List (Outcome (Option H)) → Bool
  all_closed [] = true
  all_closed (o ∷ outcomes) = is_closed o && all_closed outcomes

  abbrev pub sent_of : Outcome (Option H) → List (List ℕ)
  sent_of (Outcome.waiting c) = c.sent
  sent_of (Outcome.closed h sent) = sent
  sent_of (Outcome.crashed h sent) = sent

  abbrev pub handler_of : Outcome (Option H) → Option H
  handler_of (Outcome.waiting c) = c.handler
  handler_of (Outcome.closed h sent) = h
  handler_of (Outcome.crashed h sent) = h

  abbrev pub all_kept : List (Outcome (Option H)) → List H
  all_kept [] = []
  all_kept (o ∷ outcomes) = kept (handler_of o) ++ all_kept outcomes

module _ {ℓ κ} {W : Type ℓ} {H : Type κ} (max_size : ℕ) (call : H → HttpRequest → HttpResponse × H)
    (factory : Option (W → Option H × W)) where
  -- What each connection comes to when it is served by itself with the handler that the factory makes for it.
  abbrev pub alone : W → List Client → List (Outcome (Option H))
  alone w [] = []
  alone w (c ∷ clients) =
      let (handler, w') = made_by max_size call factory factory w in
      client_outcome max_size call factory handler c ∷ alone w' clients

  abbrev pub drawn : W → List Client → W
  drawn w [] = w
  drawn w (c ∷ clients) = drawn (made_by max_size call factory factory w).1 clients

  abbrev pub after_all : Thread W H → List Client → Thread W H
  after_all t clients = record {
    world = drawn t.world clients;
    retained_handlers = t.retained_handlers ++ all_kept (alone t.world clients);
    sent = t.sent ++ map sent_of (alone t.world clients);
  }

  abbrev after_one : Thread W H → W → Outcome (Option H) → Thread W H
  after_one t w o = record {
    world = w;
    retained_handlers = t.retained_handlers ++ kept (handler_of o);
    sent = t.sent ++ (sent_of o ∷ []);
  }

  concluded-closed :
      (t : Thread W H) (w : W) (o : Outcome (Option H))
      → is_closed o ≡ true
      → concluded max_size call factory t w o ≡ Serving.accepting (after_one t w o)
  concluded-closed t w (Outcome.waiting c) e = absurd (true-ne-false (sym e))
  concluded-closed t w (Outcome.closed h sent) e = refl
  concluded-closed t w (Outcome.crashed h sent) e = absurd (true-ne-false (sym e))

  after_all_cons :
      (t : Thread W H) (c : Client) (clients : List Client)
      → (let (handler, w) = made_by max_size call factory factory t.world in
          after_all (after_one t w (client_outcome max_size call factory handler c)) clients)
        ≡ after_all t (c ∷ clients)
  after_all_cons t c clients = simp append_assoc

  after_none : (t : Thread W H) → after_all t [] ≡ t
  after_none t = simp append-nil

  serve_accept :
      (r : Round) (rounds : List Round) (t : Thread W H) (a : Option Client)
      → r.accept ≡ a
      → r.running ≡ true
      → r.still_running ≡ true
      → all_closed (alone t.world (with_accepted a (clients_of rounds))) ≡ true
      → ((u : Thread W H)
          → all_closed (alone u.world (clients_of rounds)) ≡ true
          → serve max_size call factory rounds u
            ≡ Serving.accepting (after_all u (clients_of rounds)))
      → serve max_size call factory (r ∷ rounds) t
        ≡ Serving.accepting (after_all t (with_accepted a (clients_of rounds)))
  unfolding serve serve_client
  serve_accept r rounds t none e s n c rec = simp (e, s, n, rec t c) refl
  serve_accept r rounds t (some x) e s n c rec =
      let (handler, w) = made_by max_size call factory factory t.world in
      let o = client_outcome max_size call factory handler x in
      let (one, others) = and_true (is_closed o) c in
      simp (e, s, concluded-closed t w o one, rec (after_one t w o) others, append_assoc) refl

  -- On a server that is not stopped, where each connection by itself would come to its end, all connections
  -- are served in the order in which they come: each is sent what it is sent by itself, with a handler of
  -- its own, every handler is retained, and an accept that fails changes nothing.
  pub serve-alone :
      (rounds : List Round) (t : Thread W H)
      → goes_on rounds ≡ true
      → all_closed (alone t.world (clients_of rounds)) ≡ true
      → serve max_size call factory rounds t ≡ Serving.accepting (after_all t (clients_of rounds))
  unfolding serve
  serve-alone [] t g c = ap Serving.accepting (sym (after_none t))
  serve-alone (r ∷ rounds) t g c =
      let (here, later) = and_true (r.running && r.still_running) g in
      let (running, still) = and_true r.running here in
      serve_accept r rounds t r.accept refl running still c (λ u. serve-alone rounds u later)
