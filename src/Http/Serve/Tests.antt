-- ===== src/Http/Serve/Tests.antt =====
-- A handler that counts requests, and the theorem on segments at concrete inputs.
use gwl_airplay.Base.{ℕ, suc, ◌^◌, ◌≡◌, true, [], ◌++◌, Option, some, arith, codes}
use gwl_airplay.Http.{HttpRequest, HttpResponse, ok_response}
use gwl_airplay.Http.Parse.{crlf_crlf}
use gwl_airplay.Http.Serve.{Connection, and_then, receive}
use gwl_airplay.Http.Serve.Chunks.{receive-append}

abbrev counting : Option (ℕ → HttpRequest → HttpResponse × ℕ)
counting = some (λ n request. (ok_response, suc n))

abbrev fresh : Connection ℕ
fresh = record { input = []; handler = 0; sent = [] }

receive-append_example :
    receive
      (2 ^ 62)
      counting
      (λ sent out. true)
      fresh
      (codes "GET / HT" ++ (codes "TP/1.1" ++ crlf_crlf))
    ≡ and_then
        (receive (2 ^ 62) counting (λ sent out. true) fresh (codes "GET / HT"))
        (λ c. receive (2 ^ 62) counting (λ sent out. true) c (codes "TP/1.1" ++ crlf_crlf))
receive-append_example =
    receive-append (2 ^ 62) counting (λ sent out. true) (omega arith) fresh (codes "GET / HT")
      (codes "TP/1.1" ++ crlf_crlf) (omega arith)
