-- ===== src/Http/Parse/Tests.antt =====
-- A request with a body and the start of the next, and the theorems at concrete inputs.
use gwl_airplay.Base.{ℕ, ◌≡◌, refl, ◌^◌, ◌-◌, List, [], ◌++◌, arith, codes}
use gwl_airplay.Http.Parse.{
  crlf, crlf_crlf, Parse, request_line, header_loop, with_length, with_headers, with_line,
  with_ends, parse_request,
}
use gwl_airplay.Http.Parse.Split.{Splits, parse_request-Splits}

abbrev post : List ℕ
post =
    codes "POST /a RTSP/1.0"
    ++ (crlf ++ (codes "content-length: 2" ++ (crlf_crlf ++ codes "hiGET")))

abbrev negative : List ℕ
negative = codes "GET / HTTP/1.1" ++ (crlf ++ (codes "Content-Length: -1" ++ crlf_crlf))

abbrev body_of : Parse → List ℕ
body_of (Parse.parsed r rest) = r.body
body_of _ = []

abbrev rest_of : Parse → List ℕ
rest_of (Parse.parsed r rest) = rest
rest_of _ = []

post_parts :
    (body_of (parse_request 100 post) ≡ codes "hi")
    × (rest_of (parse_request 100 post) ≡ codes "GET")
unfolding parse_request with_ends with_line with_headers with_length header_loop request_line
post_parts = (refl, refl)

-- A Content-Length of -1 passes the size check, and the body's assign throws.
negative_throws : parse_request (2 ^ 63 - 1) negative ≡ Parse.threw
unfolding parse_request with_ends with_line with_headers with_length header_loop request_line
negative_throws = refl

parse_request-Splits_example : Splits post (parse_request (2 ^ 62) post)
parse_request-Splits_example = parse_request-Splits (2 ^ 62) (omega arith) post (omega arith)
