-- ===== src/Rtsp/Event.antt =====
-- RtspSession::make_event_handler of src/rtsp.cpp: a request of the event channel's HTTP server is one of
-- RTSP.
use gwl_airplay.Base.{ℕ, ◌≡◌, refl, List, Option, none, some, ◌==◌, if◌then◌else◌, length, codes}
use gwl_airplay.Base.Map.{lookup, bytes_ord}
use gwl_airplay.Text.{ℤ, pos, stoi}
use gwl_airplay.Http.{HttpRequest, HttpResponse}
use gwl_airplay.Audio.Pipeline.{AlacDecoder, AudioSink}
use gwl_airplay.Rtsp.{RtspRequest, RtspResponse}
use gwl_airplay.Rtsp.State.{RtspSession, Network, Reply, session_of}
use gwl_airplay.Rtsp.Session.{handle}

-- The number of `CSeq`, or 0 where it is missing or std::stoi throws.
abbrev pub cseq_number : Option ℤ → ℤ
cseq_number none = pos 0
cseq_number (some n) = n

abbrev pub cseq_of : Option (List ℕ) → ℤ
cseq_of none = pos 0
cseq_of (some text) = cseq_number (stoi text)

abbrev pub rtsp_request : HttpRequest → RtspRequest
rtsp_request q = record {
  method = q.method;
  uri = q.target;
  cseq = cseq_of (lookup (codes "CSeq") q.headers);
  headers = q.headers;
  body = q.body;
}

abbrev pub http_response : HttpRequest → RtspResponse → HttpResponse
http_response q r = record {
  status = r.status;
  reason = r.reason;
  protocol = if length q.protocol == 0 then codes "RTSP/1.0" else q.protocol;
  content_type = codes "";
  headers = r.headers;
  body = r.body;
}

-- What the handler gives: a response, or the exception of `handle`.
pub data Answer {ℓ} (A : Type ℓ) : Type ℓ where
  answered : HttpResponse → A → Answer A
  threw : A → Answer A

module _ {ℓ κ} {D : Type ℓ} {S : Type κ} (dec : AlacDecoder D) (out : AudioSink S) where
  abbrev passed_on : HttpRequest → Reply (RtspSession D S) → Answer (RtspSession D S)
  passed_on q (Reply.replied r s) = Answer.answered (http_response q r) s
  passed_on q (Reply.threw s) = Answer.threw s

  abbrev pub after : Answer (RtspSession D S) → RtspSession D S
  after (Answer.answered r s) = s
  after (Answer.threw s) = s

  pub handle_event : HttpRequest → Network → RtspSession D S → Answer (RtspSession D S)
  handle_event q net s = passed_on q (handle dec out (rtsp_request q) net s)

  passed_on-session :
      (q : HttpRequest) (r : Reply (RtspSession D S)) → after (passed_on q r) ≡ session_of r
  passed_on-session q (Reply.replied r s) = refl
  passed_on-session q (Reply.threw s) = refl

  -- The session after an event request is the one that `handle` leaves for the request of RTSP.
  pub handle_event-session :
      (q : HttpRequest) (net : Network) (s : RtspSession D S)
      → after (handle_event q net s) ≡ session_of (handle dec out (rtsp_request q) net s)
  unfolding handle_event
  handle_event-session q net s = passed_on-session q (handle dec out (rtsp_request q) net s)
