-- ===== src/Rtsp/Session/Recording.antt =====
-- A session records only where it is set up: after RECORD, between a SETUP or an ANNOUNCE and the next
-- TEARDOWN, with its media socket open.
use gwl_airplay.Base.{
  ◌≡◌, ◌∙◌, inl, inr, refl, ap, sym, subst, true, false, not, ◌&&◌, ◌||◌, arith, if◌then◌else◌,
  codes,
}
use gwl_airplay.Audio.Pipeline.{AlacDecoder, AudioSink}
use gwl_airplay.Rtsp.{RtspRequest, base_response, session_response}
use gwl_airplay.Rtsp.State.{RtspSession, Network, runs, Reply, session_of, reset}
use gwl_airplay.Rtsp.Setup.{setup, refused}
use gwl_airplay.Rtsp.Setup.Ready.{IsReady, if-IsReady, Same-IsReady, setup-IsReady}
use gwl_airplay.Rtsp.Announce.{announce}
use gwl_airplay.Rtsp.Announce.Accepted.{announce-Accepted}
use gwl_airplay.Rtsp.Session.{record_request, pause, flush, handle, is_method, options_response}

module _ {ℓ κ} {D : Type ℓ} {S : Type κ} (dec : AlacDecoder D) (out : AudioSink S) where
  announce-IsReady :
      (r : RtspRequest) (s : RtspSession D S) → IsReady s → IsReady (announce dec out r s).1
  announce-IsReady r s w = elim (announce-Accepted dec out r s) [
    | inl (a, e) ↦ subst (λ t. IsReady t) (sym e) w
    | inr a ↦ record {
      configured = λ h. a.configured;
      media = λ h. ap runs a.media ∙ w.media (sym a.recording ∙ h);
    }
  ]

  record_request-IsReady :
      (r : RtspRequest) (s : RtspSession D S)
      → IsReady s
      → IsReady (session_of (record_request dec out r s))
  unfolding record_request
  record_request-IsReady r s w =
      if-IsReady dec out (not (s.configured && runs s.media_receiver)) (refused dec out r s)
        (Reply.replied (session_response r) (record s { recording = true })) (λ e. w)
        (λ e. record { configured = λ h. ground arith; media = λ h. ground arith })

  pub stopped-IsReady : (s : RtspSession D S) → s.recording ≡ false → IsReady s
  stopped-IsReady s e = record { configured = λ h. cc; media = λ h. cc }

  -- Every request keeps the session ready, whichever of its parts fail.
  pub handle-IsReady :
      (r : RtspRequest) (net : Network) (s : RtspSession D S)
      → IsReady s
      → IsReady (session_of (handle dec out r net s))
  unfolding handle reset
  handle-IsReady r net s w =
      let (announced, t) = announce dec out r s in
      let unknown = Reply.replied (base_response r 405 (codes "Method Not Allowed")) s in
      let tear =
        if is_method dec out r (codes "TEARDOWN")
        then Reply.replied (session_response r) (reset dec out s)
        else unknown in
      let param =
        if is_method dec out r (codes "GET_PARAMETER")
          || is_method dec out r (codes "SET_PARAMETER")
        then Reply.replied (session_response r) s
        else tear in
      let flushed =
        if is_method dec out r (codes "FLUSH")
        then Reply.replied (session_response r) (flush dec out s)
        else param in
      let paused =
        if is_method dec out r (codes "PAUSE")
        then Reply.replied (session_response r) (pause dec out s)
        else flushed in
      let recorded =
        if is_method dec out r (codes "RECORD") then record_request dec out r s else paused in
      let set_up =
        if is_method dec out r (codes "SETUP") then setup dec out r net s else recorded in
      let described =
        if is_method dec out r (codes "ANNOUNCE") then Reply.replied announced t else set_up in
      if-IsReady dec out (is_method dec out r (codes "OPTIONS"))
        (Reply.replied (options_response dec out r) s) described (λ e. w)
        λ e.
          if-IsReady dec out (is_method dec out r (codes "ANNOUNCE")) (Reply.replied announced t)
            set_up (λ f. announce-IsReady r s w)
            λ f.
              if-IsReady dec out (is_method dec out r (codes "SETUP")) (setup dec out r net s)
                recorded (λ g. setup-IsReady dec out r net s w)
                λ g.
                  if-IsReady dec out (is_method dec out r (codes "RECORD"))
                    (record_request dec out r s) paused (λ h. record_request-IsReady r s w)
                    λ h.
                      if-IsReady dec out (is_method dec out r (codes "PAUSE"))
                        (Reply.replied (session_response r) (pause dec out s)) flushed
                        (λ i. stopped-IsReady (pause dec out s) refl)
                        λ i.
                          if-IsReady dec out (is_method dec out r (codes "FLUSH"))
                            (Reply.replied (session_response r) (flush dec out s)) param
                            (λ j. Same-IsReady dec out s (flush dec out s) (refl, refl, refl) w)
                            λ j.
                              if-IsReady dec out
                                (is_method dec out r (codes "GET_PARAMETER")
                                  || is_method dec out r (codes "SET_PARAMETER"))
                                (Reply.replied (session_response r) s) tear (λ k. w)
                                λ k.
                                  if-IsReady dec out (is_method dec out r (codes "TEARDOWN"))
                                    (Reply.replied (session_response r) (reset dec out s)) unknown
                                    (λ l. stopped-IsReady (reset dec out s) refl) (λ l. w)
