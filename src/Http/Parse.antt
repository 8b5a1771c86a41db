-- ===== src/Http/Parse.antt =====
-- `parse_request` of src/http_server.cpp, on positions in the input as in the source.
pub mod Stream
pub mod Split
mod Tests
use gwl_airplay.Base.{
  ℕ, zero, suc, ◌+◌, ◌-◌, ◌%◌, ◌^◌, Bool, true, false, ◌||◌, List, [], ◌∷◌, Option, ◌>>=◌, none,
  some, ltb, ◌==◌, if◌then◌else◌, length, take, drop, codes,
}
use gwl_airplay.Base.Map.{insert, bytes_ord}
use gwl_airplay.Text.{trim, header_value, find, find_at, substr, stoul, next_word}
use gwl_airplay.Http.{HttpRequest}

abbrev pub crlf : List ℕ
crlf = 13 ∷ 10 ∷ []

abbrev pub crlf_crlf : List ℕ
crlf_crlf = 13 ∷ 10 ∷ 13 ∷ 10 ∷ []

-- `threw` is an exception that leaves the function: std::string::assign throws std::length_error for more
-- than `max_size` characters. `parsed` carries what is left of the input.
pub data Parse : Type 0 where
  incomplete : Parse
  threw : Parse
  parsed : HttpRequest → List ℕ → Parse

-- The three words of the request line.
unfoldable pub request_line : List ℕ → Option (List ℕ × List ℕ × List ℕ)
request_line line = do
  (method, rest) ← next_word line
  (target, rest') ← next_word rest
  (protocol, end) ← next_word rest'
  some (method, target, protocol)

-- The loop over the header lines. Each round takes two characters at least, and starts before
-- `header_end`, which is the fuel.
unfoldable pub header_loop :
    ℕ → List ℕ → ℕ → ℕ → List (List ℕ × List ℕ) → Option (List (List ℕ × List ℕ))
header_loop zero input header_end start headers =
    if ltb start header_end then none else some headers
header_loop (suc fuel) input header_end start headers = elim (ltb start header_end) [
  | false ↦ some headers
  | true ↦ elim (find_at crlf input start) [
    | none ↦ none
    | some line_end ↦ elim (find_at (58 ∷ []) input start) [
      | none ↦ none
      | some colon ↦ elim (ltb header_end line_end || ltb line_end colon) [
        | true ↦ none
        | false ↦ header_loop fuel input header_end (line_end + 2) (
            insert (trim (substr input start (colon - start)))
              (trim (substr input (colon + 1) (line_end - colon - 1))) headers)
      ]
    ]
  ]
]

abbrev pub content_length : List (List ℕ × List ℕ) → Option ℕ
content_length headers =
    let text = header_value headers (codes "Content-Length") in
    if length text == 0 then some 0 else stoul text

module _ (max_size : ℕ) where
  unfoldable pub with_length :
      List ℕ → ℕ → List ℕ × List ℕ × List ℕ → List (List ℕ × List ℕ) → Option ℕ → Parse
  with_length input header_end line headers none = incomplete
  with_length input header_end (method, target, protocol) headers (some n) =
      let total = (header_end + 4 + n) % 2 ^ 64 in
      if ltb (length input) total
      then incomplete
      else if ltb max_size n
      then threw
      else parsed
          (record {
            method = method;
            target = target;
            protocol = protocol;
            headers = headers;
            body = substr input (header_end + 4) n;
          })
          (drop total input)

  unfoldable pub with_headers :
      List ℕ → ℕ → List ℕ × List ℕ × List ℕ → Option (List (List ℕ × List ℕ)) → Parse
  with_headers input header_end line none = incomplete
  with_headers input header_end line (some headers) =
      with_length input header_end line headers (content_length headers)

  unfoldable pub with_line : List ℕ → ℕ → ℕ → Option (List ℕ × List ℕ × List ℕ) → Parse
  with_line input header_end first_end none = incomplete
  with_line input header_end first_end (some line) =
      with_headers input header_end line
        (header_loop header_end input header_end (first_end + 2) [])

  unfoldable pub with_ends : List ℕ → Option ℕ → Option ℕ → Parse
  unfolding request_line
  with_ends input none first_end = incomplete
  with_ends input (some header_end) none = incomplete
  with_ends input (some header_end) (some first_end) =
      if ltb header_end first_end
      then incomplete
      else with_line input header_end first_end (request_line (take first_end input))

  unfoldable pub parse_request : List ℕ → Parse
  unfolding with_ends
  parse_request input = with_ends input (find crlf_crlf input) (find crlf input)
