-- ===== src/Receiver/Dispatch/Requests.antt =====
-- Which requests of a connection are for which of its parts, and what a request does to each.
use gwl_airplay.Base.{
  ℕ, ◌≡◌, ◌∙◌, refl, ap, sym, subst, inl, inr, Bool, true, false, not, ◌||◌, ◌&&◌, List, [], ◌∷◌,
  Option, none, some, arith, if◌then◌else◌, bytes_eq, bytes_eq→eq, Bool-cases, codes, length, ◌==◌,
}
use gwl_airplay.Http.{HttpRequest}
use gwl_airplay.Pairing.Transient
use gwl_airplay.Pairing.Transient.{TransientPairing}
use gwl_airplay.Pairing.Hkp
use gwl_airplay.Pairing.Hkp.{HkpPairing}
use gwl_airplay.Pairing.Hkp.Verified
use gwl_airplay.Audio.Pipeline.{AlacDecoder, AudioSink}
use gwl_airplay.Rtsp.State
use gwl_airplay.Rtsp.State.{RtspSession, Network, handle_media_packet}
use gwl_airplay.Rtsp.Session
use gwl_airplay.Rtsp.Event.{rtsp_request}
use gwl_airplay.Receiver.{one_of, is_rtsp_media_request, response_for}
use gwl_airplay.Receiver.FairPlay.{handle_fairplay_setup}
use gwl_airplay.Receiver.Dispatch.{
  Connection, Outside, Outcome, connection_of, info, pair_setup, verified_with, pair_verify,
  fp_setup, passed_on, media_request, is_target, posted, answered_pair, handle_request,
}

-- The requests that are for each part, whatever the order of the tests.
abbrev pub is_post_to : HttpRequest → List ℕ → Bool
is_post_to q target = bytes_eq q.method (codes "POST") && bytes_eq q.target target

abbrev pub for_hkp_setup : HttpRequest → Bool
for_hkp_setup q = is_post_to q (codes "/pair-setup") && (length q.body == 32)

abbrev pub for_transient : HttpRequest → Bool
for_transient q = is_post_to q (codes "/pair-setup") && not (length q.body == 32)

abbrev pub for_hkp_verify : HttpRequest → Bool
for_hkp_verify q = is_post_to q (codes "/pair-verify")

abbrev pub for_fairplay : HttpRequest → Bool
for_fairplay q = is_post_to q (codes "/fp-setup")

abbrev pub own_targets : List (List ℕ)
own_targets =
    codes "/info"
    ∷ codes "/info/"
    ∷ codes "/pair-setup"
    ∷ codes "/pair-verify"
    ∷ codes "/fp-setup"
    ∷ []

abbrev pub for_session : HttpRequest → Bool
for_session q = is_rtsp_media_request q && not (one_of own_targets q.target)

and_false : (b : Bool) → (b && false) ≡ false
and_false true = refl
and_false false = refl

-- A target that is one text is no other one.
other_target : (t a b : List ℕ) → bytes_eq a b ≡ false → bytes_eq t a ≡ true → bytes_eq t b ≡ false
other_target t a b ne e = subst (λ x. bytes_eq x b ≡ false) (sym (bytes_eq→eq t a e)) ne

module _ {ℓ κ ι θ} {D : Type ℓ} {S : Type κ} {K : Type ι} {C : Type θ} (dec : AlacDecoder D)
    (out : AudioSink S) (srp : Transient.Openssl) (ssl : Hkp.Openssl K C) where
  -- What a request does to each part.
  abbrev pub session_step : HttpRequest → Outside K → RtspSession D S → RtspSession D S
  session_step q o s =
      if for_session q
      then State.session_of (Session.handle dec out (rtsp_request q) o.network s)
      else s

  abbrev pub transient_step : HttpRequest → Outside K → TransientPairing → TransientPairing
  transient_step q o t =
      if for_transient q then (Transient.handle srp o.transient t q.body).state else t

  abbrev pub hkp_step : HttpRequest → Outside K → HkpPairing K → HkpPairing K
  hkp_step q o h =
      if for_hkp_setup q
      then (Hkp.handle_pair_setup ssl o.hkp h q.body).state
      else if for_hkp_verify q
      then Verified.state_of ssl h (Hkp.handle_pair_verify ssl o.hkp h q.body)
      else h

  abbrev pub key_step : HttpRequest → List ℕ → List ℕ
  key_step q key = if for_fairplay q then (handle_fairplay_setup q.body key).key_message else key

  -- What a request makes of `c` is `d`.
  pub record Steps (q : HttpRequest) (o : Outside K) (c d : Connection D S K)
      : Type (ℓ ⊔ κ ⊔ ι) where
    pub session : d.session ≡ session_step q o c.session
    pub transient : d.transient ≡ transient_step q o c.transient
    pub hkp : d.hkp ≡ hkp_step q o c.hkp
    pub key : d.fairplay_key_message ≡ key_step q c.fairplay_key_message

  module _ (q : HttpRequest) (o : Outside K) (c : Connection D S K) where
    if-Steps :
        (b : Bool) (x y : Outcome (Connection D S K))
        → (b ≡ true → Steps q o c (connection_of x))
        → (b ≡ false → Steps q o c (connection_of y))
        → Steps q o c (connection_of (if b then x else y))
    if-Steps true x y f g = f refl
    if-Steps false x y f g = g refl

    -- A request that is for no part changes none.
    nobody :
        for_session q ≡ false
        → for_transient q ≡ false
        → for_hkp_setup q ≡ false
        → for_hkp_verify q ≡ false
        → for_fairplay q ≡ false
        → Steps q o c c
    nobody s t h v f = record {
      session = rw s refl;
      transient = rw t refl;
      hkp = rw (h, v) refl;
      key = rw f refl;
    }

    -- A request to one of the receiver's own targets is not for the session.
    own :
        (target : List ℕ)
        → one_of own_targets target ≡ true
        → bytes_eq q.target target ≡ true
        → for_session q ≡ false
    own target e t =
        let same : one_of own_targets q.target ≡ true =
          subst (λ x. one_of own_targets x ≡ true) (sym (bytes_eq→eq q.target target t)) e in
        ap (λ b. is_rtsp_media_request q && not b) same ∙ and_false (is_rtsp_media_request q)

    not_post : (target : List ℕ) → bytes_eq q.target target ≡ false → is_post_to q target ≡ false
    not_post target e =
        ap (λ b. bytes_eq q.method (codes "POST") && b) e
        ∙ and_false (bytes_eq q.method (codes "POST"))

    -- Other targets than the three of the pairings and FairPlay.
    elsewhere :
        (session : Bool)
        → for_session q ≡ session
        → bytes_eq q.target (codes "/pair-setup") ≡ false
        → bytes_eq q.target (codes "/pair-verify") ≡ false
        → bytes_eq q.target (codes "/fp-setup") ≡ false
        → Steps q o c (
            if session
            then record c {
              session =
                  State.session_of (Session.handle dec out (rtsp_request q) o.network c.session);
            }
            else c)
    elsewhere true s p v f = record {
      session = rw s refl;
      transient = rw (not_post (codes "/pair-setup") p) refl;
      hkp = rw (not_post (codes "/pair-setup") p, not_post (codes "/pair-verify") v) refl;
      key = rw (not_post (codes "/fp-setup") f) refl;
    }
    elsewhere false s p v f = record {
      session = rw s refl;
      transient = rw (not_post (codes "/pair-setup") p) refl;
      hkp = rw (not_post (codes "/pair-setup") p, not_post (codes "/pair-verify") v) refl;
      key = rw (not_post (codes "/fp-setup") f) refl;
    }

    posted-Steps :
        (x : Outcome (Connection D S K))
        → (bytes_eq q.method (codes "POST") ≡ true → Steps q o c (connection_of x))
        → for_session q ≡ false
        → Steps q o c (connection_of (posted dec out srp ssl q c x))
    posted-Steps x f s = elim (Bool-cases (bytes_eq q.method (codes "POST"))) [
      | inl e ↦ rw e (f e)
      | inr e ↦ rw e (nobody s (rw e refl) (rw e refl) (rw e refl) (rw e refl))
    ]

    pair_setup-Steps :
        bytes_eq q.method (codes "POST") ≡ true
        → bytes_eq q.target (codes "/pair-setup") ≡ true
        → Steps q o c (pair_setup dec out srp ssl q o c).1
    unfolding pair_setup
    pair_setup-Steps m t =
        let s = own (codes "/pair-setup") refl t in
        let v = other_target q.target (codes "/pair-setup") (codes "/pair-verify") refl t in
        let f = other_target q.target (codes "/pair-setup") (codes "/fp-setup") refl t in
        elim (Bool-cases (length q.body == 32)) [
          | inl e ↦ record {
            session = rw (s, e) refl;
            transient = rw (m, t, e) refl;
            hkp = rw (m, t, e) refl;
            key = rw (m, f, e) refl;
          }
          | inr e ↦ record {
            session = rw (s, e) refl;
            transient = rw (m, t, e) refl;
            hkp = rw (m, t, v, e) refl;
            key = rw (m, f, e) refl;
          }
        ]

    verified_with-hkp :
        (r : Option (Hkp.Reply K))
        → (connection_of (verified_with dec out srp ssl q c r)
            ≡ record c { hkp = Verified.state_of ssl c.hkp r })
    verified_with-hkp none = refl
    verified_with-hkp (some r) = refl

    pair_verify-Steps :
        bytes_eq q.method (codes "POST") ≡ true
        → bytes_eq q.target (codes "/pair-verify") ≡ true
        → Steps q o c (connection_of (pair_verify dec out srp ssl q o c))
    unfolding pair_verify
    pair_verify-Steps m t =
        let s = own (codes "/pair-verify") refl t in
        let p = other_target q.target (codes "/pair-verify") (codes "/pair-setup") refl t in
        let f = other_target q.target (codes "/pair-verify") (codes "/fp-setup") refl t in
        let e = verified_with-hkp (Hkp.handle_pair_verify ssl o.hkp c.hkp q.body) in
        record {
          session = ap (λ d. d.session) e ∙ rw s refl;
          transient = ap (λ d. d.transient) e ∙ rw (m, p) refl;
          hkp = ap (λ d. d.hkp) e ∙ rw (m, t, p) refl;
          key = ap (λ d. d.fairplay_key_message) e ∙ rw (m, f) refl;
        }

    fp_setup-Steps :
        bytes_eq q.method (codes "POST") ≡ true
        → bytes_eq q.target (codes "/fp-setup") ≡ true
        → Steps q o c (fp_setup dec out srp ssl q c).1
    unfolding fp_setup
    fp_setup-Steps m t =
        let s = own (codes "/fp-setup") refl t in
        let p = other_target q.target (codes "/fp-setup") (codes "/pair-setup") refl t in
        let v = other_target q.target (codes "/fp-setup") (codes "/pair-verify") refl t in
        record {
          session = rw s refl;
          transient = rw (m, p) refl;
          hkp = rw (m, v, p) refl;
          key = rw (m, t) refl;
        }

    passed_on-session :
        (r : State.Reply (RtspSession D S))
        → connection_of (passed_on dec out srp ssl c r) ≡ record c { session = State.session_of r }
    passed_on-session (State.Reply.replied r t) = refl
    passed_on-session (State.Reply.threw t) = refl

    media_request-Steps :
        for_session q ≡ true
        → bytes_eq q.target (codes "/pair-setup") ≡ false
        → bytes_eq q.target (codes "/pair-verify") ≡ false
        → bytes_eq q.target (codes "/fp-setup") ≡ false
        → Steps q o c (connection_of (media_request dec out srp ssl q o c))
    unfolding media_request
    media_request-Steps s p v f =
        subst (Steps q o c)
          (sym (passed_on-session (Session.handle dec out (rtsp_request q) o.network c.session)))
          (elsewhere true s p v f)

    info-Steps :
        (target : List ℕ)
        → one_of own_targets target ≡ true
        → bytes_eq target (codes "/pair-setup") ≡ false
        → bytes_eq target (codes "/pair-verify") ≡ false
        → bytes_eq target (codes "/fp-setup") ≡ false
        → bytes_eq q.target target ≡ true
        → Steps q o c c
    info-Steps target e p v f t =
        elsewhere false (own target e t) (other_target q.target target (codes "/pair-setup") p t)
          (other_target q.target target (codes "/pair-verify") v t)
          (other_target q.target target (codes "/fp-setup") f t)

    pub handle_request-Steps :
        (device_id : List ℕ)
        → Steps q o c (connection_of (handle_request dec out srp ssl device_id q o c))
    unfolding handle_request
    handle_request-Steps device_id =
        let t = q.target in
        let setup =
          posted dec out srp ssl q c
            (answered_pair dec out srp ssl (pair_setup dec out srp ssl q o c)) in
        let verify = posted dec out srp ssl q c (pair_verify dec out srp ssl q o c) in
        let fairplay =
          posted dec out srp ssl q c
            (answered_pair dec out srp ssl (fp_setup dec out srp ssl q c)) in
        let media = media_request dec out srp ssl q o c in
        let missing = Outcome.answered (response_for 404 (codes "Not Found") q) c in
        let asked = is_target dec out srp ssl q in
        let e = if is_rtsp_media_request q then media else missing in
        let d = if asked (codes "/fp-setup") then fairplay else e in
        let v = if asked (codes "/pair-verify") then verify else d in
        let b = if asked (codes "/pair-setup") then setup else v in
        if-Steps (asked (codes "/info") || asked (codes "/info/"))
          (Outcome.answered (info dec out srp ssl device_id q) c) b
          (λ i. elim (Bool-cases (asked (codes "/info"))) [
            | inl n ↦ info-Steps (codes "/info") refl refl refl refl n
            | inr n ↦ info-Steps (codes "/info/") refl refl refl refl (ground arith)
          ])
          (λ i.
            if-Steps (asked (codes "/pair-setup")) setup v
              (λ p.
                posted-Steps (answered_pair dec out srp ssl (pair_setup dec out srp ssl q o c))
                  (λ m. pair_setup-Steps m p) (own (codes "/pair-setup") refl p))
              (λ p.
                if-Steps (asked (codes "/pair-verify")) verify d
                  (λ w.
                    posted-Steps (pair_verify dec out srp ssl q o c) (λ m. pair_verify-Steps m w)
                      (own (codes "/pair-verify") refl w))
                  (λ w.
                    if-Steps (asked (codes "/fp-setup")) fairplay e
                      (λ f.
                        posted-Steps (answered_pair dec out srp ssl (fp_setup dec out srp ssl q c))
                          (λ m. fp_setup-Steps m f) (own (codes "/fp-setup") refl f))
                      (λ f.
                        if-Steps (is_rtsp_media_request q) media missing
                          (λ m. media_request-Steps (ground arith) p w f)
                          (λ m. elsewhere false (rw m refl) p w f)))))
