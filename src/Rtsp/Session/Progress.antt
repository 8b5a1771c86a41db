-- ===== src/Rtsp/Session/Progress.antt =====
-- A sender that announces, sets up and records gets a session that records.
use gwl_airplay.Base.{
  ◌≡◌, ◌∙◌, sym, ap, subst, inl, inr, true, false, not, ◌&&◌, arith, if◌then◌else◌, codes,
}
use gwl_airplay.Audio.Pipeline.{AlacDecoder, AudioSink}
use gwl_airplay.Rtsp.{RtspRequest, is_binary_plist, session_response}
use gwl_airplay.Rtsp.State.{RtspSession, Network, runs, Reply, session_of}
use gwl_airplay.Rtsp.Announce.{announce}
use gwl_airplay.Rtsp.Announce.Accepted.{announce-Accepted}
use gwl_airplay.Rtsp.Setup.{setup, refused}
use gwl_airplay.Rtsp.Setup.Media.{IsServing, IsWilling, setup-IsServing}
use gwl_airplay.Rtsp.Session.{record_request, handle}

module _ {ℓ κ} {D : Type ℓ} {S : Type κ} (dec : AlacDecoder D) (out : AudioSink S) where
  handle-announce :
      (r : RtspRequest) (net : Network) (s : RtspSession D S)
      → r.method ≡ codes "ANNOUNCE"
      → handle dec out r net s ≡ Reply.replied (announce dec out r s).0 (announce dec out r s).1
  unfolding handle
  handle-announce r net s e = simp e

  handle-setup :
      (r : RtspRequest) (net : Network) (s : RtspSession D S)
      → r.method ≡ codes "SETUP"
      → handle dec out r net s ≡ setup dec out r net s
  unfolding handle
  handle-setup r net s e = simp e

  handle_record :
      (r : RtspRequest) (net : Network) (s : RtspSession D S)
      → r.method ≡ codes "RECORD"
      → handle dec out r net s ≡ record_request dec out r s
  unfolding handle
  handle_record r net s e = simp e

  record_request-IsServing :
      (r : RtspRequest) (s : RtspSession D S)
      → IsServing s
      → record_request dec out r s
        ≡ Reply.replied (session_response r) (record s { recording = true })
  unfolding record_request
  record_request-IsServing r s w =
      let e : (s.configured && runs s.media_receiver) ≡ true =
        ground (arith, w.configured, w.media) in
      ap
        (λ b.
          if not b
          then refused dec out r s
          else Reply.replied (session_response r) (record s { recording = true }))
        e

  announced_configured :
      (r : RtspRequest) (s : RtspSession D S)
      → (announce dec out r s).0.status ≡ 200
      → (announce dec out r s).1.configured ≡ true
  announced_configured r s h = elim (announce-Accepted dec out r s) [
    | inl (inl e, same) ↦ absurd (omega (arith, h, e))
    | inl (inr e, same) ↦ absurd (omega (arith, h, e))
    | inr a ↦ a.configured
  ]

  -- In any state, an ANNOUNCE that is answered 200, a SETUP without a property list for which the media
  -- socket can be opened, and a RECORD lead to a session that records, which the RECORD is answered 200 for,
  -- whatever else fails.
  pub announce_setup_record :
      (a b c : RtspRequest) (net : Network) (s : RtspSession D S)
      → a.method ≡ codes "ANNOUNCE"
      → b.method ≡ codes "SETUP"
      → c.method ≡ codes "RECORD"
      → (announce dec out a s).0.status ≡ 200
      → is_binary_plist b.body ≡ false
      → IsWilling net.media
      → let t = session_of (handle dec out b net (session_of (handle dec out a net s))) in
        handle dec out c net t ≡ Reply.replied (session_response c) (record t { recording = true })
  announce_setup_record a b c net s ma mb mc ok plain w =
      let configured = announced_configured a s ok in
      let t = session_of (setup dec out b net (announce dec out a s).1) in
      let serving : IsServing t =
        setup-IsServing dec out b net (announce dec out a s).1 configured plain w in
      let same : t ≡ session_of (handle dec out b net (session_of (handle dec out a net s))) = sym (
        ap session_of (
          ap (λ x. handle dec out b net (session_of x)) (handle-announce a net s ma)
          ∙ handle-setup b net (announce dec out a s).1 mb)) in
      subst
        (λ u.
          handle dec out c net u
          ≡ Reply.replied (session_response c) (record u { recording = true }))
        same (handle_record c net t mc ∙ record_request-IsServing c t serving)
