-- ===== src/Rtsp.antt =====
-- src/rtsp.cpp and include/airplay2/rtsp.h: requests and responses, the texts of the headers, the property
-- lists of SETUP (Plist), the session's state and media path (State), and its handlers (Setup,
-- Announce, Session, Event).
pub mod Plist
pub mod State
pub mod Setup
pub mod Announce
pub mod Session
pub mod Event
use gwl_airplay.Base.{
  ℕ, suc, ◌+◌, ◌-◌, ◌<◌, Bool, true, false, ◌||◌, List, [], ◌∷◌, ◌++◌, Option, none, some, ltb, leb,
  ◌==◌, if◌then◌else◌, length, take, drop, codes,
}
use gwl_airplay.Base.Map.{insert, bytes_ord}
use gwl_airplay.Text.{
  ℤ, pos, negsuc, find, find_at, starts_with, digits, from_digits, to_string, header_value,
}

-- `struct RtspRequest`
pub record RtspRequest : Type 0 where
  pub method : List ℕ
  pub uri : List ℕ
  pub cseq : ℤ
  pub headers : List (List ℕ × List ℕ)
  pub body : List ℕ

-- `struct RtspResponse`
pub record RtspResponse : Type 0 where
  pub status : ℕ
  pub reason : List ℕ
  pub headers : List (List ℕ × List ℕ)
  pub body : List ℕ

-- `struct RtpTransport`
pub record RtpTransport : Type 0 where
  pub client_control_port : ℕ
  pub client_timing_port : ℕ
  pub server_control_port : ℕ
  pub server_timing_port : ℕ
  pub server_data_port : ℕ
  pub event_port : ℕ

abbrev pub no_transport : RtpTransport
no_transport = record {
  client_control_port = 0;
  client_timing_port = 0;
  server_control_port = 0;
  server_timing_port = 0;
  server_data_port = 0;
  event_port = 0;
}

-- The `CSeq` header, where the number is positive.
abbrev pub cseq_headers : ℤ → List (List ℕ × List ℕ)
cseq_headers (pos n) = if n == 0 then [] else (codes "CSeq", to_string n) ∷ []
cseq_headers (negsuc n) = []

abbrev pub base_response : RtspRequest → ℕ → List ℕ → RtspResponse
base_response request status reason = record {
  status = status;
  reason = reason;
  headers = insert (codes "Server") (codes "GWL-AirPlay2/0.1") (cseq_headers request.cseq);
  body = [];
}

abbrev pub with_header : List ℕ → List ℕ → RtspResponse → RtspResponse
with_header key value r = record r { headers = insert key value r.headers }

-- The response that most handlers end with.
abbrev pub session_response : RtspRequest → RtspResponse
session_response r =
    with_header (codes "Content-Length") (codes "0")
      (with_header (codes "Session") (codes "GWL-AIRPLAY-1") (base_response r 200 (codes "OK")))

abbrev port_at : List ℕ → ℕ
port_at text =
    let ds = digits text in
    let n = from_digits 0 ds in if (length ds == 0) || ltb 65535 n then 0 else n

-- `parse_port`: the number behind the key, or 0.
abbrev pub parse_port : List ℕ → List ℕ → ℕ
parse_port text key = elim (find key text) [
  | none ↦ 0
  | some i ↦ port_at (drop (i + length key) text)
]

abbrev pub is_binary_plist : List ℕ → Bool
is_binary_plist body = starts_with (codes "bplist00") body

-- The text between "rtsp://" and the next slash.
abbrev pub host_of : List ℕ → List ℕ
host_of uri = elim (find (codes "rtsp://") uri) [
  | none ↦ []
  | some scheme ↦ elim (find_at (codes "/") uri (scheme + 7)) [
    | none ↦ drop (scheme + 7) uri
    | some end ↦ take (end - (scheme + 7)) (drop (scheme + 7) uri)
  ]
]
