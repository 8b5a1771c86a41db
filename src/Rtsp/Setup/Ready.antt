-- ===== src/Rtsp/Setup/Ready.antt =====
-- SETUP keeps a session ready: where it records, it is configured, with its media socket open.
use gwl_airplay.Base.{
  ℕ, ◌≡◌, ◌∙◌, refl, sym, ap, Bool, true, false, not, ◌&&◌, List, Option, none, some, arith,
  if◌then◌else◌, Bool-cases, inl, inr, is_some, codes,
}
use gwl_airplay.Text.{find}
use gwl_airplay.Rtp.Receiver
use gwl_airplay.Rtp.Receiver.{RtpReceiver}
use gwl_airplay.Rtp.Receiver.Cycle.{bind_running, bind_answers, running-set_packet_handler}
use gwl_airplay.Audio.Pipeline.{AlacDecoder, AudioSink}
use gwl_airplay.Rtsp.{RtspRequest, is_binary_plist}
use gwl_airplay.Rtsp.State.{Receivers, RtspSession, Network, made, runs, bound, Reply, session_of}
use gwl_airplay.Rtsp.Setup.{
  start_event_on, start_event_channel, with_ports, setup_info_body, setup_event, with_info,
  with_control, with_timing, setup_timing, setup_info, running_receiver, control_socket,
  timing_socket, setup_sockets, with_client_ports, with_media, setup_rtp, setup_stream, setup,
  failed, plist_reply, refused,
}

-- Where the session records, it is configured and its media receiver runs.
pub record IsReady {ℓ κ} {D : Type ℓ} {S : Type κ} (s : RtspSession D S) : Type (ℓ ⊔ κ) where
  pub configured : s.recording ≡ true → s.configured ≡ true
  pub media : s.recording ≡ true → runs s.media_receiver ≡ true

module _ {ℓ κ} {D : Type ℓ} {S : Type κ} (dec : AlacDecoder D) (out : AudioSink S) where
  pub if-IsReady :
      (b : Bool) (x y : Reply (RtspSession D S))
      → (b ≡ true → IsReady (session_of x))
      → (b ≡ false → IsReady (session_of y))
      → IsReady (session_of (if b then x else y))
  if-IsReady true x y p q = p refl
  if-IsReady false x y p q = q refl

  plist_reply-session :
      (r : RtspRequest) (s : RtspSession D S) (body : Option (List ℕ))
      → session_of (plist_reply dec out r s body) ≡ s
  plist_reply-session r s none = refl
  plist_reply-session r s (some body) = refl

  -- What a request may change while the session is ready.
  abbrev pub Same : RtspSession D S → RtspSession D S → Type 0
  Same s t =
      (t.recording ≡ s.recording)
      × (t.configured ≡ s.configured)
      × (t.media_receiver ≡ s.media_receiver)

  pub Same-IsReady : (s t : RtspSession D S) → Same s t → IsReady s → IsReady t
  Same-IsReady s t (a, b, c) w = record {
    configured = ground (arith, w.configured);
    media = ground (arith, w.media, ap runs c);
  }

  pub setup_sockets-Same :
      (r : RtspRequest) (net : Network) (s : RtspSession D S)
      → Same s (session_of (setup_sockets dec out r net s))
  unfolding setup_sockets control_socket timing_socket
  setup_sockets-Same r net s = (ground arith, ground arith, ground arith)

  setup_sockets-IsReady :
      (r : RtspRequest) (net : Network) (s : RtspSession D S)
      → IsReady s
      → IsReady (session_of (setup_sockets dec out r net s))
  setup_sockets-IsReady r net s w =
      Same-IsReady s (session_of (setup_sockets dec out r net s)) (setup_sockets-Same r net s) w

  made-runs : (o : Option Receivers) → Receiver.running (made o) ≡ runs o
  made-runs none = refl
  made-runs (some r) = refl

  bound_keeps :
      (o : Option Receivers) (net : Receiver.Network) → runs o ≡ true → (bound o net).0 ≡ true
  bound_keeps o net h = ap (λ r. r.0) (bind_running (made o) net (made-runs o ∙ h))

  pub running_receiver_answers :
      (o : Option Receivers) (net : Receiver.Network)
      → (running_receiver dec out o net).0 ≡ Receiver.running (running_receiver dec out o net).1
  running_receiver_answers o net = elim (Bool-cases (Receiver.running (made o))) [
    | inl e ↦ ground (arith, e)
    | inr e ↦ ground (arith, bind_answers (made o) net)
  ]

  running_receiver_keeps :
      (o : Option Receivers) (net : Receiver.Network)
      → runs o ≡ true
      → (running_receiver dec out o net).0 ≡ true
  running_receiver_keeps o net h = ground (arith, made-runs o)

  setup_rtp-IsReady :
      (r : RtspRequest) (net : Network) (s : RtspSession D S)
      → IsReady s
      → IsReady (session_of (setup_rtp dec out r net s))
  unfolding setup_rtp
  setup_rtp-IsReady r net s w =
      let k = running_receiver_keeps s.media_receiver net.media in
      let a = running_receiver_answers s.media_receiver net.media in
      let (has, media) = running_receiver dec out s.media_receiver net.media in
      let c = with_client_ports dec out r s in
      if-IsReady (not has) (failed dec out r (record c { media_receiver = some media }))
        (setup_sockets dec out r net (with_media dec out media c))
        (λ e. record { configured = w.configured; media = λ h. ground (arith, k (w.media h)) })
        (λ e. setup_sockets-IsReady r net (with_media dec out media c) (record {
          configured = w.configured;
          media = λ h. running-set_packet_handler media (some tt) ∙ (sym a ∙ ground arith);
        }))

  start_event-Same :
      (s : RtspSession D S) (net : Network) → Same s (start_event_channel dec out s net.event).1
  unfolding start_event_channel start_event_on
  start_event-Same s net = (ground arith, ground arith, ground arith)

  setup_event-IsReady :
      (r : RtspRequest) (net : Network) (ptp : Bool) (timing : ℕ) (s : RtspSession D S)
      → IsReady s
      → IsReady (session_of (setup_event dec out r net ptp timing s))
  unfolding setup_event
  setup_event-IsReady r net ptp timing s w =
      let (started, s') = start_event_channel dec out s net.event in
      let q = with_ports dec out ptp timing s' in
      let w' = Same-IsReady s s' (start_event-Same s net) w in
      let w'' : IsReady q = record { configured = w'.configured; media = w'.media } in
      if-IsReady (not started) (failed dec out r s')
        (plist_reply dec out r q (setup_info_body dec out r ptp q.transport)) (λ e. w')
        (λ e. rw (plist_reply-session r q (setup_info_body dec out r ptp q.transport)) w'')

  setup_timing-IsReady :
      (r : RtspRequest) (net : Network) (ptp : Bool) (s : RtspSession D S)
      → IsReady s
      → IsReady (session_of (setup_timing dec out r net ptp s))
  unfolding setup_timing
  setup_timing-IsReady r net ptp s w =
      let (has, timing) = bound s.timing_receiver net.timing in
      let t = with_timing dec out timing s in
      let w' : IsReady t = record { configured = w.configured; media = w.media } in
      if-IsReady ptp (setup_event dec out r net true 0 s)
        (if not has then failed dec out r t else setup_event dec out r net false timing.port t)
        (λ e. setup_event-IsReady r net true 0 s w)
        (λ e.
          if-IsReady (not has) (failed dec out r t) (setup_event dec out r net false timing.port t)
            (λ f. w') (λ f. setup_event-IsReady r net false timing.port t w'))

  setup_info-IsReady :
      (r : RtspRequest) (net : Network) (s : RtspSession D S)
      → IsReady s
      → IsReady (session_of (setup_info dec out r net s))
  unfolding setup_info
  setup_info-IsReady r net s w =
      let ptp = is_some (find (codes "PTP") r.body) in
      let (has, media) = bound s.media_receiver net.media in
      let (has_control, control) = bound s.control_receiver net.control in
      let a = with_info dec out media s in
      let b = with_control dec out control a in
      let m : s.recording ≡ true → runs (some media) ≡ true = λ h.
        sym (bind_answers (made s.media_receiver) net.media)
        ∙ bound_keeps s.media_receiver net.media (w.media h) in
      let w' : IsReady b = record { configured = λ h. refl; media = m } in
      if-IsReady (not has) (failed dec out r a)
        (if not has_control then failed dec out r b else setup_timing dec out r net ptp b)
        (λ e. record { configured = λ h. refl; media = m })
        (λ e.
          if-IsReady (not has_control) (failed dec out r b) (setup_timing dec out r net ptp b)
            (λ f. w') (λ f. setup_timing-IsReady r net ptp b w'))

  -- SETUP, in whichever of its forms and whichever of its socket calls fail.
  pub setup-IsReady :
      (r : RtspRequest) (net : Network) (s : RtspSession D S)
      → IsReady s
      → IsReady (session_of (setup dec out r net s))
  unfolding setup setup_stream
  setup-IsReady r net s w =
      let stream = setup_stream dec out r s in
      let rtp = setup_rtp dec out r net s in
      let rest = if is_binary_plist r.body then stream else rtp in
      if-IsReady (not s.setup_info_complete && is_binary_plist r.body) (setup_info dec out r net s)
        (if not s.configured then refused dec out r s else rest) (λ e. setup_info-IsReady r net s w)
        (λ e.
          if-IsReady (not s.configured) (refused dec out r s) rest (λ f. w)
            (λ f.
              if-IsReady (is_binary_plist r.body) stream rtp (λ g. w)
                (λ g. setup_rtp-IsReady r net s w)))
