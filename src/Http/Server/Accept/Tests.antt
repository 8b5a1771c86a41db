-- ===== src/Http/Server/Accept/Tests.antt =====
-- A handler that counts requests, on a server with two connections and an accept that fails between them.
use gwl_airplay.Base.{
  ℕ, suc, ◌+◌, ◌^◌, ◌≡◌, refl, true, List, [], ◌∷◌, ◌++◌, Option, none, some, codes,
}
use gwl_airplay.Http.{HttpRequest, HttpResponse, ok_response}
use gwl_airplay.Http.Parse.{
  crlf_crlf, parse_request, with_ends, with_line, with_headers, with_length, header_loop,
  request_line,
}
use gwl_airplay.Http.Serve
use gwl_airplay.Http.Server.Accept.{Client, Round, Thread, Serving, serve}
use gwl_airplay.Http.Server.Accept.Alone.{clients_of, all_closed, alone, after_all, serve-alone}

abbrev counting : ℕ → HttpRequest → HttpResponse × ℕ
counting n request = (ok_response, suc n)

abbrev counters : Option (ℕ → Option ℕ × ℕ)
counters = some (λ w. (some w, w + 10))

abbrev get : List ℕ
get = codes "GET / HTTP/1.1" ++ crlf_crlf

-- One that sends two requests in one segment, and one that sends a request and a half.
abbrev twice : Client
twice = record { received = (true, get ++ get) ∷ (true, []) ∷ []; send = λ sent out. true }

abbrev half : Client
half = record { received = (true, get ++ codes "GET") ∷ (true, []) ∷ []; send = λ sent out. true }

abbrev taken : Client → Round
taken c = record { running = true; accept = some c; still_running = true }

abbrev turned_down : Round
turned_down = record { running = true; accept = none; still_running = true }

abbrev rounds : List Round
rounds = taken twice ∷ turned_down ∷ taken half ∷ []

abbrev start : Thread ℕ ℕ
start = record { world = 0; retained_handlers = []; sent = [] }

all_conclude : all_closed (alone (2 ^ 62) counting counters 0 (clients_of rounds)) ≡ true
unfolding Serve.serve Serve.receive Serve.drain Serve.answer Serve.respond parse_request with_ends
    with_line with_headers with_length header_loop request_line
all_conclude = refl

-- The first handler has counted two requests, and the second one.
counts :
    (after_all (2 ^ 62) counting counters start (clients_of rounds)).retained_handlers ≡ 2 ∷ 11 ∷ []
unfolding Serve.serve Serve.receive Serve.drain Serve.answer Serve.respond parse_request with_ends
    with_line with_headers with_length header_loop request_line
counts = refl

serve-alone_example :
    serve (2 ^ 62) counting counters rounds start
    ≡ Serving.accepting (after_all (2 ^ 62) counting counters start (clients_of rounds))
serve-alone_example = serve-alone (2 ^ 62) counting counters rounds start refl all_conclude
