-- ===== src/Receiver/Dispatch.antt =====
-- AirPlayReceiver::Impl::handle_request of src/airplay_receiver.cpp: the requests of one connection, on the
-- parts that `start` makes for it. What is logged is left out.
pub mod Runs
pub mod Requests
pub mod Parts
mod Tests
use gwl_airplay.Base.{
  ℕ, ◌+◌, Bool, true, false, not, ◌||◌, List, [], ◌∷◌, ◌++◌, Option, none, some, ◌==◌,
  if◌then◌else◌, length, take, drop, codes, bytes_eq,
}
use gwl_airplay.Base.Map.{insert, bytes_ord}
use gwl_airplay.Text.{find, to_string}
use gwl_airplay.Http.{HttpRequest, HttpResponse, ok_response}
use gwl_airplay.Pairing.Transient
use gwl_airplay.Pairing.Transient.{TransientPairing}
use gwl_airplay.Pairing.Hkp
use gwl_airplay.Pairing.Hkp.{HkpPairing}
use gwl_airplay.Audio.Pipeline.{AlacDecoder, AudioSink}
use gwl_airplay.Rtsp.{RtspResponse}
use gwl_airplay.Rtsp.State.{RtspSession, Network}
use gwl_airplay.Rtsp.State
use gwl_airplay.Rtsp.Session
use gwl_airplay.Rtsp.Event.{rtsp_request}
use gwl_airplay.Receiver.{make_pi, is_rtsp_media_request, response_for, initial_volume_binary_plist}
use gwl_airplay.Receiver.FairPlay.{FairPlay, hex_bytes, handle_fairplay_setup}

-- The lambda `replace` of device_info_binary_plist.
pub replace : List ℕ → List ℕ → List ℕ → List ℕ
replace from to bytes = if not (length from == length to) then bytes else elim (find from bytes) [
  | none ↦ bytes
  | some i ↦ take i bytes ++ (to ++ drop (i + length to) bytes)
]

-- The literal of device_info_binary_plist.
pub device_info_text : List ℕ
device_info_text =
    codes "62706c6973743030dc0102030405060708090a0b0c0d0e0f0f1011121314151617586465766963654944"
    ++ (codes "5866656174757265735f10116b656570416c6976654c6f77506f7765725f10186b656570416c69766553"
        ++ (codes
              "656e6453746174734173426f64795c6d616e756661637475726572556d6f64656c546e616d655270695f"
            ++ (codes
                  "100f70726f746f636f6c56657273696f6e5d736f7572636556657273696f6e5b737461747573466c6167"
                ++ (codes
                      "735276765f101130303a30303a30303a30303a30303a3030130000001e5a7ffff7095347574c5a417070"
                    ++ (codes
                          "6c655456332c325f101047574c20416972506c61792044656d6f5f102430303030303030302d30303030"
                        ++ (codes
                              "2d343030302d383030302d30303030303030303030303053312e31563232302e36381044100200080021"
                            ++ (codes
                                  "002a003300470062006f0075007a007d008f009d00a900ac00c000c900ca00ce00d900ec01130117011e"
                                ++ (codes
                                    "01200000000000000201000000000000001800000000000000000000000000000122"))))))))

-- `device_info_binary_plist`
pub device_info_binary_plist : List ℕ → List ℕ
unfolding replace hex_bytes device_info_text
device_info_binary_plist device_id =
    replace (codes "00000000-0000-4000-8000-000000000000") (make_pi device_id)
      (replace (codes "00:00:00:00:00:00") device_id (hex_bytes device_info_text))

-- What the handler of a connection keeps: the session, the two pairings and FairPlay's key message.
pub record Connection {ℓ κ ι} (D : Type ℓ) (S : Type κ) (K : Type ι) : Type (ℓ ⊔ κ ⊔ ι) where
  pub session : RtspSession D S
  pub transient : TransientPairing
  pub hkp : HkpPairing K
  pub fairplay_key_message : List ℕ

-- What the calls of one request find outside.
pub record Outside {ι} (K : Type ι) : Type ι where
  pub network : Network
  pub transient : Transient.Env
  pub hkp : Hkp.Env K

-- A response, the exception of `handle`, or the read of a null key.
pub data Outcome {ℓ} (A : Type ℓ) : Type ℓ where
  answered : HttpResponse → A → Outcome A
  threw : A → Outcome A
  crashed : A → Outcome A

abbrev pub connection_of {ℓ} : {A : Type ℓ} → Outcome A → A
connection_of (Outcome.answered r c) = c
connection_of (Outcome.threw c) = c
connection_of (Outcome.crashed c) = c

-- A response that leaves `content_type` as it is.
abbrev pub typed_response : List ℕ → List ℕ → List ℕ → HttpResponse
typed_response protocol type body = record ok_response {
  protocol = protocol;
  headers =
      insert (codes "Content-Length") (to_string (length body))
        (insert (codes "Content-Type") type []);
  body = body;
}

abbrev pub octet_response : List ℕ → HttpResponse
octet_response body = typed_response (codes "RTSP/1.0") (codes "application/octet-stream") body

abbrev pub rtsp_response : RtspResponse → HttpResponse
rtsp_response r = record {
  status = r.status;
  reason = r.reason;
  protocol = codes "RTSP/1.0";
  content_type = [];
  headers = r.headers;
  body = r.body;
}

module _ {ℓ κ ι θ} {D : Type ℓ} {S : Type κ} {K : Type ι} {C : Type θ} (dec : AlacDecoder D)
    (out : AudioSink S) (srp : Transient.Openssl) (ssl : Hkp.Openssl K C) where
  abbrev pub bad_request : HttpRequest → HttpResponse
  bad_request q = response_for 400 (codes "Bad Request") q

  abbrev pub not_allowed : HttpRequest → HttpResponse
  not_allowed q = response_for 405 (codes "Method Not Allowed") q

  -- /info
  pub info : List ℕ → HttpRequest → HttpResponse
  unfolding device_info_binary_plist
  info device_id q =
      let protocol = if length q.protocol == 0 then codes "RTSP/1.0" else q.protocol in
      let body =
        if length q.body == 0
        then initial_volume_binary_plist
        else device_info_binary_plist device_id in
      if not (bytes_eq q.method (codes "GET"))
      then not_allowed q
      else typed_response protocol (codes "application/x-apple-binary-plist") body

  -- /pair-setup: 32 bytes are HKP's, all else the transient pairing's.
  pub pair_setup : HttpRequest → Outside K → Connection D S K → HttpResponse × Connection D S K
  pair_setup q o c =
      let h = Hkp.handle_pair_setup ssl o.hkp c.hkp q.body in
      let t = Transient.handle srp o.transient c.transient q.body in
      if length q.body == 32
      then (
        if not h.handled then bad_request q else octet_response h.response,
        record c { hkp = h.state },
      )
      else (
        if not t.handled then bad_request q else octet_response t.response,
        record c { transient = t.state },
      )

  -- /pair-verify
  abbrev verified_with :
      HttpRequest → Connection D S K → Option (Hkp.Reply K) → Outcome (Connection D S K)
  verified_with q c none = Outcome.crashed c
  verified_with q c (some h) =
      Outcome.answered (if not h.handled then bad_request q else octet_response h.response)
        (record c { hkp = h.state })

  pub pair_verify : HttpRequest → Outside K → Connection D S K → Outcome (Connection D S K)
  pair_verify q o c = verified_with q c (Hkp.handle_pair_verify ssl o.hkp c.hkp q.body)

  -- /fp-setup
  pub fp_setup : HttpRequest → Connection D S K → HttpResponse × Connection D S K
  fp_setup q c =
      let f = handle_fairplay_setup q.body c.fairplay_key_message in
      (
        if length f.response == 0 then bad_request q else octet_response f.response,
        record c { fairplay_key_message = f.key_message },
      )

  -- The requests of RTSP.
  abbrev passed_on : Connection D S K → State.Reply (RtspSession D S) → Outcome (Connection D S K)
  passed_on c (State.Reply.replied r s) =
      Outcome.answered (rtsp_response r) (record c { session = s })
  passed_on c (State.Reply.threw s) = Outcome.threw (record c { session = s })

  pub media_request : HttpRequest → Outside K → Connection D S K → Outcome (Connection D S K)
  media_request q o c = passed_on c (Session.handle dec out (rtsp_request q) o.network c.session)

  abbrev pub is_target : HttpRequest → List ℕ → Bool
  is_target q target = bytes_eq q.target target

  -- A target that takes POST alone.
  abbrev pub posted :
      HttpRequest → Connection D S K → Outcome (Connection D S K) → Outcome (Connection D S K)
  posted q c done =
      if not (bytes_eq q.method (codes "POST")) then Outcome.answered (not_allowed q) c else done

  abbrev pub answered_pair : HttpResponse × Connection D S K → Outcome (Connection D S K)
  answered_pair (r, c) = Outcome.answered r c

  -- `handle_request`, where `device_id` is the configuration's.
  pub handle_request :
      List ℕ → HttpRequest → Outside K → Connection D S K → Outcome (Connection D S K)
  unfolding info pair_setup pair_verify fp_setup media_request
  handle_request device_id q o c =
      if is_target q (codes "/info") || is_target q (codes "/info/")
      then Outcome.answered (info device_id q) c
      else if is_target q (codes "/pair-setup")
      then posted q c (answered_pair (pair_setup q o c))
      else if is_target q (codes "/pair-verify")
      then posted q c (pair_verify q o c)
      else if is_target q (codes "/fp-setup")
      then posted q c (answered_pair (fp_setup q c))
      else if is_rtsp_media_request q
      then media_request q o c
      else Outcome.answered (response_for 404 (codes "Not Found") q) c
