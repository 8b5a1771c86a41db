-- ===== src/Receiver/Dispatch/Runs.antt =====
-- What the requests of a connection come to for its session and its pairing.
use gwl_airplay.Base.{
  ℕ, ◌≡◌, Bool, true, false, not, ◌||◌, List, Option, none, some, if◌then◌else◌, bytes_eq, codes,
  length, ◌==◌,
}
use gwl_airplay.Http.{HttpRequest, HttpResponse}
use gwl_airplay.Rtp.{RtpPacket}
use gwl_airplay.Pairing.Transient
use gwl_airplay.Pairing.Hkp
use gwl_airplay.Pairing.Hkp.Verified
use gwl_airplay.Audio.Pipeline.{AlacDecoder, AudioSink}
use gwl_airplay.Rtsp.State
use gwl_airplay.Rtsp.State.{RtspSession, Network, handle_media_packet}
use gwl_airplay.Rtsp.Session
use gwl_airplay.Rtsp.Session.Reach
use gwl_airplay.Rtsp.Setup.Ready.{IsReady}
use gwl_airplay.Rtsp.Event
use gwl_airplay.Rtsp.Event.{rtsp_request, handle_event}
use gwl_airplay.Receiver.{is_rtsp_media_request, response_for}
use gwl_airplay.Receiver.Dispatch.{
  Connection, Outside, Outcome, connection_of, octet_response, bad_request, not_allowed, info,
  pair_setup, verified_with, pair_verify, fp_setup, passed_on, media_request, is_target, posted,
  answered_pair, handle_request,
}

module _ {ℓ κ ι θ} {D : Type ℓ} {S : Type κ} {K : Type ι} {C : Type θ} (dec : AlacDecoder D)
    (out : AudioSink S) (srp : Transient.Openssl) (ssl : Hkp.Openssl K C) (device_id : List ℕ) where
  -- What happens to a connection: its requests, and what the session's sockets take meanwhile.
  pub data Step : Connection D S K → Connection D S K → Type (ℓ ⊔ κ ⊔ ι) where
    request :
        (c : Connection D S K) (q : HttpRequest) (o : Outside K)
        → Step c (connection_of (handle_request dec out srp ssl device_id q o c))
    packet :
        (c : Connection D S K) (p : RtpPacket)
        → Step c (record c { session = handle_media_packet dec out c.session p })
    event :
        (c : Connection D S K) (q : HttpRequest) (net : Network)
        → Step c (record c { session = Event.after dec out (handle_event dec out q net c.session) })

  pub data Run (a : Connection D S K) : Connection D S K → Type (ℓ ⊔ κ ⊔ ι) where
    here : Run a a
    next : {c d : Connection D S K} → Run a c → Step c d → Run a d

  module _ (a : Connection D S K) where
    -- The session and the pairing have come from those of `a` by their own steps.
    abbrev pub Parts : Connection D S K → Type (ℓ ⊔ κ ⊔ ι)
    Parts c = Reach.Reach dec out a.session c.session × Verified.Reach ssl a.hkp c.hkp

    if-Parts :
        (b : Bool) (x y : Outcome (Connection D S K))
        → Parts (connection_of x)
        → Parts (connection_of y)
        → Parts (connection_of (if b then x else y))
    if-Parts true x y p q = p
    if-Parts false x y p q = q

    if_pair-Parts :
        (b : Bool) (x y : HttpResponse × Connection D S K)
        → Parts x.1
        → Parts y.1
        → Parts (if b then x else y).1
    if_pair-Parts true x y p q = p
    if_pair-Parts false x y p q = q

    pair_setup-Parts :
        (q : HttpRequest) (o : Outside K) (c : Connection D S K)
        → Parts c
        → Parts (pair_setup dec out srp ssl q o c).1
    unfolding pair_setup
    pair_setup-Parts q o c (s, h) =
        let r = Hkp.handle_pair_setup ssl o.hkp c.hkp q.body in
        let t = Transient.handle srp o.transient c.transient q.body in
        if_pair-Parts (length q.body == 32)
          (
            if not r.handled then bad_request dec out srp ssl q else octet_response r.response,
            record c { hkp = r.state },
          )
          (
            if not t.handled then bad_request dec out srp ssl q else octet_response t.response,
            record c { transient = t.state },
          )
          (s, Verified.Reach.next h (Verified.Step.setup o.hkp c.hkp q.body)) (s, h)

    verified_with-Parts :
        (q : HttpRequest) (c : Connection D S K) (r : Option (Hkp.Reply K))
        → Reach.Reach dec out a.session c.session
        → Verified.Reach ssl a.hkp (Verified.state_of ssl c.hkp r)
        → Parts (connection_of (verified_with dec out srp ssl q c r))
    verified_with-Parts q c none s h = (s, h)
    verified_with-Parts q c (some r) s h = (s, h)

    passed_on-Parts :
        (c : Connection D S K) (r : State.Reply (RtspSession D S))
        → Reach.Reach dec out a.session (State.session_of r)
        → Verified.Reach ssl a.hkp c.hkp
        → Parts (connection_of (passed_on dec out srp ssl c r))
    passed_on-Parts c (State.Reply.replied r t) s h = (s, h)
    passed_on-Parts c (State.Reply.threw t) s h = (s, h)

    pair_verify-Parts :
        (q : HttpRequest) (o : Outside K) (c : Connection D S K)
        → Parts c
        → Parts (connection_of (pair_verify dec out srp ssl q o c))
    unfolding pair_verify
    pair_verify-Parts q o c (s, h) =
        verified_with-Parts q c (Hkp.handle_pair_verify ssl o.hkp c.hkp q.body) s
          (Verified.Reach.next h (Verified.Step.verify o.hkp c.hkp q.body))

    media_request-Parts :
        (q : HttpRequest) (o : Outside K) (c : Connection D S K)
        → Parts c
        → Parts (connection_of (media_request dec out srp ssl q o c))
    unfolding media_request
    media_request-Parts q o c (s, h) =
        passed_on-Parts c (Session.handle dec out (rtsp_request q) o.network c.session)
          (Reach.Reach.next s (Reach.Step.request c.session (rtsp_request q) o.network)) h

    fp_setup-Parts :
        (q : HttpRequest) (c : Connection D S K) → Parts c → Parts (fp_setup dec out srp ssl q c).1
    unfolding fp_setup
    fp_setup-Parts q c p = p

    posted-Parts :
        (q : HttpRequest) (c : Connection D S K) (x : Outcome (Connection D S K))
        → Parts c
        → Parts (connection_of x)
        → Parts (connection_of (posted dec out srp ssl q c x))
    posted-Parts q c x p r =
        if-Parts (not (bytes_eq q.method (codes "POST")))
          (Outcome.answered (not_allowed dec out srp ssl q) c) x p r

    handle_request-Parts :
        (q : HttpRequest) (o : Outside K) (c : Connection D S K)
        → Parts c
        → Parts (connection_of (handle_request dec out srp ssl device_id q o c))
    unfolding handle_request
    handle_request-Parts q o c p =
        let setup =
          posted dec out srp ssl q c
            (answered_pair dec out srp ssl (pair_setup dec out srp ssl q o c)) in
        let verify = posted dec out srp ssl q c (pair_verify dec out srp ssl q o c) in
        let fairplay =
          posted dec out srp ssl q c
            (answered_pair dec out srp ssl (fp_setup dec out srp ssl q c)) in
        let media = media_request dec out srp ssl q o c in
        let missing = Outcome.answered (response_for 404 (codes "Not Found") q) c in
        let asked = is_target dec out srp ssl q in
        let e = if is_rtsp_media_request q then media else missing in
        let d = if asked (codes "/fp-setup") then fairplay else e in
        let v = if asked (codes "/pair-verify") then verify else d in
        let b = if asked (codes "/pair-setup") then setup else v in
        if-Parts (asked (codes "/info") || asked (codes "/info/"))
          (Outcome.answered (info dec out srp ssl device_id q) c) b p
          (if-Parts (asked (codes "/pair-setup")) setup v
            (posted-Parts q c (answered_pair dec out srp ssl (pair_setup dec out srp ssl q o c)) p
              (pair_setup-Parts q o c p))
            (if-Parts (asked (codes "/pair-verify")) verify d
              (posted-Parts q c (pair_verify dec out srp ssl q o c) p (pair_verify-Parts q o c p))
              (if-Parts (asked (codes "/fp-setup")) fairplay e
                (posted-Parts q c (answered_pair dec out srp ssl (fp_setup dec out srp ssl q c)) p
                  (fp_setup-Parts q c p))
                (if-Parts (is_rtsp_media_request q) media missing (media_request-Parts q o c p)
                  p))))

    -- Whatever happens to a connection, its session has come from that of `a` by steps of a session, and its
    -- pairing by steps of a pairing.
    Run-Parts : {c : Connection D S K} → Run a c → Parts c
    Run-Parts here = (Reach.Reach.here, Verified.Reach.here)
    Run-Parts (next r (request c q o)) = handle_request-Parts q o c (Run-Parts r)
    Run-Parts (next r (packet c p)) =
        let (s, h) = Run-Parts r in (Reach.Reach.next s (Reach.Step.packet c.session p), h)
    Run-Parts (next r (event c q net)) =
        let (s, h) = Run-Parts r in (Reach.Reach.next s (Reach.Step.event c.session q net), h)

  -- A connection that begins with a session which does not record and a pairing which is not verified:
  -- while it records, its session is configured with its media socket open, and when its pairing counts as
  -- verified, a request has proved the client's key.
  pub Run-IsReady :
      {a c : Connection D S K}
      → a.session.recording ≡ false
      → a.hkp.verified ≡ false
      → Run a c
      → IsReady c.session × (c.hkp.verified ≡ true → Verified.Moment ssl a.hkp c.hkp)
  Run-IsReady {a} e v r =
      let (s, h) = Run-Parts a r in
      (Reach.Reach-IsReady dec out e s, λ t. Verified.Reach-Moment ssl v h t)
