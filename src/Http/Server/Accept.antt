-- ===== src/Http/Server/Accept.antt =====
-- `HttpServer::Impl::serve` of src/http_server.cpp, the accept loop of the server's thread, with the handlers
-- that serve_client makes and retains.
pub mod Alone
mod Tests
use gwl_airplay.Base.{ℕ, Bool, not, List, [], ◌∷◌, ◌++◌, Option, none, some, if◌then◌else◌}
use gwl_airplay.Http.{HttpRequest, HttpResponse, ok_response}
use gwl_airplay.Http.Serve
use gwl_airplay.Http.Serve.{Outcome}

-- A connection's socket: what `running` and `recv` give in each round, and whether `send` takes a text.
pub record Client : Type 0 where
  pub received : List (Bool × List ℕ)
  pub send : List (List ℕ) → List ℕ → Bool

-- A round of the loop: `running` at its head, what `accept` gives, and `running` after an `accept` that fails.
pub record Round : Type 0 where
  pub running : Bool
  pub accept : Option Client
  pub still_running : Bool

-- What the factory draws on, the retained handlers as they are by now, but for that of a connection which is
-- still open, and what each connection was sent.
pub record Thread {ℓ κ} (W : Type ℓ) (H : Type κ) : Type (ℓ ⊔ κ) where
  pub world : W
  pub retained_handlers : List H
  pub sent : List (List (List ℕ))

-- `serving` is a connection that is still open, `crashed` an exception that leaves the thread.
pub data Serving {ℓ κ} (W : Type ℓ) (H : Type κ) : Type (ℓ ⊔ κ) where
  accepting : Thread W H → Serving W H
  ended : Thread W H → Serving W H
  serving : Thread W H → Serve.Connection (Option H) → Serving W H
  crashed : Thread W H → Serving W H

abbrev pub and_accept {ℓ κ} :
    {W : Type ℓ} {H : Type κ} → Serving W H → (Thread W H → Serving W H) → Serving W H
and_accept (Serving.accepting t) next = next t
and_accept (Serving.ended t) next = Serving.ended t
and_accept (Serving.serving t c) next = Serving.serving t c
and_accept (Serving.crashed t) next = Serving.crashed t

-- The handler that is retained, where the factory gave one.
abbrev pub kept {ℓ} : {H : Type ℓ} → Option H → List H
kept none = []
kept (some h) = h ∷ []

module _ {ℓ κ} {W : Type ℓ} {H : Type κ} (max_size : ℕ) (call : H → HttpRequest → HttpResponse × H)
    (factory : Option (W → Option H × W)) where
  abbrev pub made_by : Option (W → Option H × W) → W → Option H × W
  made_by none w = (none, w)
  made_by (some f) w = f w

  -- `handler ? handler(request) : HttpResponse{}`
  abbrev pub handled : Option H → HttpRequest → HttpResponse × Option H
  handled none request = (ok_response, none)
  handled (some h) request = let (response, h') = call h request in (response, some h')

  -- What comes of a connection whose handler is new.
  abbrev pub client_outcome : Option H → Client → Outcome (Option H)
  client_outcome handler c =
      Serve.serve max_size (some handled) c.send
        (record { input = []; handler = handler; sent = [] }) c.received

  abbrev pub concluded : Thread W H → W → Outcome (Option H) → Serving W H
  concluded t w (Outcome.waiting c) = Serving.serving (record t { world = w }) c
  concluded t w (Outcome.closed h sent) = Serving.accepting (record {
    world = w;
    retained_handlers = t.retained_handlers ++ kept h;
    sent = t.sent ++ (sent ∷ []);
  })
  concluded t w (Outcome.crashed h sent) = Serving.crashed (record {
    world = w;
    retained_handlers = t.retained_handlers ++ kept h;
    sent = t.sent ++ (sent ∷ []);
  })

  pub serve_client : Client → Thread W H → Serving W H
  serve_client c t =
      let (handler, w) = made_by factory t.world in concluded t w (client_outcome handler c)

  pub serve : List Round → Thread W H → Serving W H
  serve [] t = Serving.accepting t
  serve (r ∷ rounds) t =
      let rest = serve rounds t in
      if not r.running then Serving.ended t else elim r.accept [
        | none ↦ if not r.still_running then Serving.ended t else rest
        | some c ↦ and_accept (serve_client c t) (λ t'. serve rounds t')
      ]
