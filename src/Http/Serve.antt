-- ===== src/Http/Serve.antt =====
-- `HttpServer::Impl::serve_client` of src/http_server.cpp.
pub mod Chunks
mod Tests
use gwl_airplay.Base.{
  ℕ, zero, suc, ◌+◌, ◌/◌, ◌%◌, Bool, true, false, not, ◌||◌, List, [], ◌∷◌, ◌++◌, Option, none,
  some, ltb, ◌==◌, if◌then◌else◌, length, codes, bytes_eq,
}
use gwl_airplay.Text.{header_value, to_string}
use gwl_airplay.Http.{HttpRequest, HttpResponse, ok_response}
use gwl_airplay.Http.Parse.{crlf, Parse, parse_request}

-- The fields that the loop fills in where the handler left them empty.
abbrev pub filled : HttpRequest → HttpResponse → HttpResponse
filled request response = record response {
  reason =
      if length response.reason == 0
      then (if response.status == 200 then codes "OK" else codes "Error")
      else response.reason;
  protocol =
      if length response.protocol == 0
      then (if length request.protocol == 0 then codes "HTTP/1.1" else request.protocol)
      else response.protocol;
}

abbrev pub header_lines : List (List ℕ × List ℕ) → List ℕ
header_lines [] = []
header_lines ((k, v) ∷ headers) = k ++ (codes ": " ++ (v ++ (crlf ++ header_lines headers)))

abbrev pub content_type_line : List ℕ → List ℕ
content_type_line type = if length type == 0 then [] else codes "Content-Type: " ++ (type ++ crlf)

-- The text of a response.
abbrev pub response_text : HttpResponse → List ℕ
response_text r =
    r.protocol
    ++ (codes " "
        ++ (to_string r.status
            ++ (codes " "
                ++ (r.reason
                    ++ (crlf
                        ++ (content_type_line r.content_type
                            ++ (codes "Content-Length: "
                                ++ (to_string (length r.body)
                                    ++ (crlf
                                        ++ (header_lines r.headers ++ (crlf ++ r.body)))))))))))

abbrev pub closes : HttpRequest → HttpResponse → Bool
closes request response =
    bytes_eq (header_value request.headers (codes "Connection")) (codes "close")
    || bytes_eq (header_value response.headers (codes "Connection")) (codes "close")

-- A connection: what was received and not parsed, the state of the handler, and what was sent.
pub record Connection {ℓ} (H : Type ℓ) : Type ℓ where
  pub input : List ℕ
  pub handler : H
  pub sent : List (List ℕ)

-- `crashed` is an exception that leaves serve_client, and with it the server's thread.
pub data Outcome {ℓ} (H : Type ℓ) : Type ℓ where
  waiting : Connection H → Outcome H
  closed : H → List (List ℕ) → Outcome H
  crashed : H → List (List ℕ) → Outcome H

-- What is done next on a connection that is still open.
abbrev pub and_then {ℓ} : {H : Type ℓ} → Outcome H → (Connection H → Outcome H) → Outcome H
and_then (Outcome.waiting c) next = next c
and_then (Outcome.closed h sent) next = Outcome.closed h sent
and_then (Outcome.crashed h sent) next = Outcome.crashed h sent

-- `handle` is the handler, where there is one; `send` says whether the socket takes a text after what
-- was sent before.
module _ {ℓ} {H : Type ℓ} (max_size : ℕ) (handle : Option (H → HttpRequest → HttpResponse × H))
    (send : List (List ℕ) → List ℕ → Bool) where
  unfoldable pub respond :
      Option (H → HttpRequest → HttpResponse × H) → H → HttpRequest → HttpResponse × H
  respond none h request = (ok_response, h)
  respond (some f) h request = f h request

  -- The inner loop after a request is parsed; `rest` is the input behind it.
  unfoldable pub answer : Connection H → HttpRequest → List ℕ → Outcome H
  unfolding respond
  answer c request rest =
      let (response', h) = respond handle c.handler request in
      let response = filled request response' in
      let out = response_text response in
      if not (send c.sent out)
      then Outcome.closed h c.sent
      else if closes request response
      then Outcome.closed h (c.sent ++ (out ∷ []))
      else Outcome.waiting (record { input = rest; handler = h; sent = c.sent ++ (out ∷ []) })

  -- The inner loop. Each request takes four characters at least, so that a fuel of the input's length
  -- is enough.
  unfoldable pub drain : ℕ → Connection H → Outcome H
  unfolding answer
  drain zero c = Outcome.waiting c
  drain (suc fuel) c = elim (parse_request max_size c.input) [
    | Parse.incomplete ↦ Outcome.waiting c
    | Parse.threw ↦ Outcome.crashed c.handler c.sent
    | Parse.parsed request rest ↦ and_then (answer c request rest) (λ c'. drain fuel c')
  ]

  -- One round of the outer loop, from `input.append` on.
  unfoldable pub receive : Connection H → List ℕ → Outcome H
  receive c chunk =
      let input = c.input ++ chunk in drain (length input) (record c { input = input })

  -- The outer loop, on what `running` and `recv` give; a `recv` that fails, or that finds the connection
  -- closed, is the empty list.
  unfoldable pub serve : Connection H → List (Bool × List ℕ) → Outcome H
  serve c [] = Outcome.waiting c
  serve c ((running, chunk) ∷ rest) =
      if not running || (length chunk == 0)
      then Outcome.closed c.handler c.sent
      else and_then (receive c chunk) (λ c'. serve c' rest)
