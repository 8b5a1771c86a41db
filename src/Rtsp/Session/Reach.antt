-- ===== src/Rtsp/Session/Reach.antt =====
-- The steps of a session: requests, also of its event channel, and the packets that its media receiver takes between them.
use gwl_airplay.Base.{◌≡◌, refl, sym, subst, Bool, false, Option}
use gwl_airplay.Http.{HttpRequest}
use gwl_airplay.Rtsp.Event.{rtsp_request, after, handle_event, handle_event-session}
use gwl_airplay.Rtp.{RtpPacket}
use gwl_airplay.Audio.Pipeline.{AlacDecoder, AudioSink, AudioPipeline}
use gwl_airplay.Rtsp.{RtspRequest}
use gwl_airplay.Rtsp.State.{RtspSession, Network, session_of, handle_media_packet}
use gwl_airplay.Rtsp.State.Order.{handle_media_packet_keeps}
use gwl_airplay.Rtsp.Announce.{set_alac_audio_pipeline}
use gwl_airplay.Rtsp.Announce.Accepted.{set_alac_audio_pipeline_keeps}
use gwl_airplay.Rtsp.Setup.Ready.{IsReady, Same-IsReady}
use gwl_airplay.Rtsp.Session.{handle, set_media_packet_handler}
use gwl_airplay.Rtsp.Session.Recording.{stopped-IsReady, handle-IsReady}

module _ {ℓ κ} {D : Type ℓ} {S : Type κ} (dec : AlacDecoder D) (out : AudioSink S) where
  pub data Step : RtspSession D S → RtspSession D S → Type (ℓ ⊔ κ) where
    request :
        (s : RtspSession D S) (r : RtspRequest) (net : Network)
        → Step s (session_of (handle dec out r net s))
    event :
        (s : RtspSession D S) (q : HttpRequest) (net : Network)
        → Step s (after dec out (handle_event dec out q net s))
    packet : (s : RtspSession D S) (p : RtpPacket) → Step s (handle_media_packet dec out s p)
    handler :
        (s : RtspSession D S) (there : Bool) → Step s (set_media_packet_handler dec out there s)
    pipeline :
        (s : RtspSession D S) (p : Option (AudioPipeline D S))
        → Step s (set_alac_audio_pipeline dec out p s)

  pub data Reach (s : RtspSession D S) : RtspSession D S → Type (ℓ ⊔ κ) where
    here : Reach s s
    next : {t u : RtspSession D S} → Reach s t → Step t u → Reach s u

  Step-IsReady : {s t : RtspSession D S} → Step s t → IsReady s → IsReady t
  unfolding set_media_packet_handler
  Step-IsReady (request s r net) w = handle-IsReady dec out r net s w
  Step-IsReady (event s q net) w =
      subst (λ t. IsReady t) (sym (handle_event-session dec out q net s))
        (handle-IsReady dec out (rtsp_request q) net s w)
  Step-IsReady (packet s p) w =
      Same-IsReady dec out s (handle_media_packet dec out s p)
        (handle_media_packet_keeps dec out s p) w
  Step-IsReady (handler s there) w =
      Same-IsReady dec out s (set_media_packet_handler dec out there s) (refl, refl, refl) w
  Step-IsReady (pipeline s p) w =
      Same-IsReady dec out s (set_alac_audio_pipeline dec out p s)
        (set_alac_audio_pipeline_keeps dec out p s) w

  Reach-IsReady_of : {s t : RtspSession D S} → IsReady s → Reach s t → IsReady t
  Reach-IsReady_of w here = w
  Reach-IsReady_of w (next r st) = Step-IsReady st (Reach-IsReady_of w r)

  -- In every session that one which does not record can get to, by any requests, events and packets in any
  -- order and with any of the socket calls failing, recording means that the session is configured and its
  -- media receiver runs.
  pub Reach-IsReady : {s t : RtspSession D S} → s.recording ≡ false → Reach s t → IsReady t
  Reach-IsReady {s} e r = Reach-IsReady_of (stopped-IsReady dec out s e) r
