-- ===== src/Http.antt =====
-- src/http_server.cpp and include/airplay2/http_server.h: the requests and responses, the parser (Parse),
-- the connection loop (Serve) and the server's life cycle (Server).
pub mod Parse
pub mod Serve
pub mod Server
use gwl_airplay.Base.{
  ℕ, zero, suc, ◌+◌, ◌*◌, ◌-◌, ◌%◌, ◌/◌, ◌^◌, Bool, true, false, not, ◌&&◌, ◌||◌, List, [], ◌∷◌,
  ◌++◌, map, Option, none, some, ltb, leb, ◌==◌, if◌then◌else◌, length, take, drop, codes, bytes_eq,
}

-- `struct HttpRequest`; a std::map is a list in the order of its keys.
pub record HttpRequest : Type 0 where
  pub method : List ℕ
  pub target : List ℕ
  pub protocol : List ℕ
  pub headers : List (List ℕ × List ℕ)
  pub body : List ℕ

-- `struct HttpResponse`
pub record HttpResponse : Type 0 where
  pub status : ℕ
  pub reason : List ℕ
  pub protocol : List ℕ
  pub content_type : List ℕ
  pub headers : List (List ℕ × List ℕ)
  pub body : List ℕ

abbrev pub ok_response : HttpResponse
ok_response = record {
  status = 200;
  reason = codes "OK";
  protocol = codes "HTTP/1.1";
  content_type = codes "text/plain";
  headers = [];
  body = [];
}
