-- ===== src/Rtsp/Setup/Media.antt =====
-- A SETUP without a property list that can open its media socket.
use gwl_airplay.Base.{
  ℕ, ◌≡◌, ◌∙◌, refl, sym, ap, subst, inl, inr, true, false, not, Option, some, if◌then◌else◌,
  Bool-cases,
}
use gwl_airplay.Rtp.Receiver
use gwl_airplay.Rtp.Receiver.Cycle.{bind_willing, running-set_packet_handler}
use gwl_airplay.Audio.Pipeline.{AlacDecoder, AudioSink}
use gwl_airplay.Rtsp.{RtspRequest, is_binary_plist}
use gwl_airplay.Rtsp.State.{Receivers, RtspSession, Network, made, runs, session_of}
use gwl_airplay.Rtsp.Setup.{
  running_receiver, setup_sockets, with_client_ports, with_media, setup_rtp, setup, failed,
}
use gwl_airplay.Rtsp.Setup.Ready.{Same, setup_sockets-Same, running_receiver_answers}

-- What RECORD asks for.
pub record IsServing {ℓ κ} {D : Type ℓ} {S : Type κ} (s : RtspSession D S) : Type (ℓ ⊔ κ) where
  pub configured : s.configured ≡ true
  pub media : runs s.media_receiver ≡ true

-- The media socket can be opened.
pub record IsWilling (net : Receiver.Network) : Type 0 where
  pub fd : ℕ
  pub socket : net.socket ≡ some fd
  pub bind : net.bind ≡ true

module _ {ℓ κ} {D : Type ℓ} {S : Type κ} (dec : AlacDecoder D) (out : AudioSink S) where
  running_receiver_willing :
      (o : Option Receivers) (net : Receiver.Network)
      → IsWilling net
      → (running_receiver dec out o net).0 ≡ true
  running_receiver_willing o net w = elim (Bool-cases (Receiver.running (made o))) [
    | inl e ↦ rw e refl
    | inr e ↦ rw e (bind_willing (made o) net w.socket w.bind)
  ]

  Same-IsServing : (s t : RtspSession D S) → Same dec out s t → IsServing s → IsServing t
  Same-IsServing s t (a, b, c) w = record {
    configured = b ∙ w.configured;
    media = ap runs c ∙ w.media;
  }

  setup_rtp-IsServing :
      (r : RtspRequest) (net : Network) (s : RtspSession D S)
      → s.configured ≡ true
      → IsWilling net.media
      → IsServing (session_of (setup_rtp dec out r net s))
  unfolding setup_rtp
  setup_rtp-IsServing r net s h w =
      let (has, media) = running_receiver dec out s.media_receiver net.media in
      let c = with_client_ports dec out r s in
      let m = with_media dec out media c in
      let refused = failed dec out r (record c { media_receiver = some media }) in
      let sockets = setup_sockets dec out r net m in
      let opened = running_receiver_willing s.media_receiver net.media w in
      let answers = running_receiver_answers dec out s.media_receiver net.media in
      let ready : IsServing m = record {
        configured = h;
        media = running-set_packet_handler media (some tt) ∙ (sym answers ∙ opened);
      } in
      subst (λ b. IsServing (session_of (if not b then refused else sockets))) (sym opened)
        (Same-IsServing m (session_of sockets) (setup_sockets-Same dec out r net m) ready)

  setup-setup_rtp :
      (r : RtspRequest) (net : Network) (s : RtspSession D S)
      → s.configured ≡ true
      → is_binary_plist r.body ≡ false
      → setup dec out r net s ≡ setup_rtp dec out r net s
  unfolding setup
  setup-setup_rtp r net s h b = elim (Bool-cases s.setup_info_complete) [
    | inl e ↦ rw (e, h, b) refl
    | inr e ↦ rw (e, h, b) refl
  ]

  -- A configured session that can open its media socket has it open after a SETUP without a property list,
  -- whatever comes of the control and the timing socket.
  pub setup-IsServing :
      (r : RtspRequest) (net : Network) (s : RtspSession D S)
      → s.configured ≡ true
      → is_binary_plist r.body ≡ false
      → IsWilling net.media
      → IsServing (session_of (setup dec out r net s))
  setup-IsServing r net s h b w =
      subst (λ x. IsServing (session_of x)) (sym (setup-setup_rtp r net s h b))
        (setup_rtp-IsServing r net s h w)
