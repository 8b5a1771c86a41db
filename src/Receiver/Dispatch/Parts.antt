-- ===== src/Receiver/Dispatch/Parts.antt =====
-- What the parts of a connection come to.
use gwl_airplay.Base.{ℕ, ◌≡◌, ◌∙◌, refl, ap, List, [], ◌∷◌}
use gwl_airplay.Http.{HttpRequest}
use gwl_airplay.Rtp.{RtpPacket}
use gwl_airplay.Pairing.Transient
use gwl_airplay.Pairing.Transient.{TransientPairing}
use gwl_airplay.Pairing.Hkp
use gwl_airplay.Pairing.Hkp.{HkpPairing}
use gwl_airplay.Audio.Pipeline.{AlacDecoder, AudioSink}
use gwl_airplay.Rtsp.State.{RtspSession, Network, handle_media_packet}
use gwl_airplay.Rtsp.Event
use gwl_airplay.Rtsp.Event.{rtsp_request, handle_event}
use gwl_airplay.Receiver.Dispatch.{Connection, Outside, connection_of, handle_request}
use gwl_airplay.Receiver.Dispatch.Requests.{
  session_step, transient_step, hkp_step, key_step, handle_request-Steps,
}

module _ {ℓ κ ι θ} {D : Type ℓ} {S : Type κ} {K : Type ι} {C : Type θ} (dec : AlacDecoder D)
    (out : AudioSink S) (srp : Transient.Openssl) (ssl : Hkp.Openssl K C) where
  -- What happens to a connection: its requests, and what the session's sockets take meanwhile.
  pub data Happening : Type ι where
    request : HttpRequest → Outside K → Happening
    packet : RtpPacket → Happening
    event : HttpRequest → Network → Happening

  module _ (device_id : List ℕ) where
    abbrev pub after : Happening → Connection D S K → Connection D S K
    after (request q o) c = connection_of (handle_request dec out srp ssl device_id q o c)
    after (packet p) c = record c { session = handle_media_packet dec out c.session p }
    after (event q net) c = record c {
      session = Event.after dec out (handle_event dec out q net c.session);
    }

    abbrev pub run : List Happening → Connection D S K → Connection D S K
    run [] c = c
    run (h ∷ hs) c = run hs (after h c)

  -- Each part by itself, on what is for it.
  abbrev pub session_after : List Happening → RtspSession D S → RtspSession D S
  session_after [] s = s
  session_after (request q o ∷ hs) s = session_after hs (session_step dec out srp ssl q o s)
  session_after (packet p ∷ hs) s = session_after hs (handle_media_packet dec out s p)
  session_after (event q net ∷ hs) s =
      session_after hs (Event.after dec out (handle_event dec out q net s))

  abbrev pub transient_after : List Happening → TransientPairing → TransientPairing
  transient_after [] t = t
  transient_after (request q o ∷ hs) t = transient_after hs (transient_step dec out srp ssl q o t)
  transient_after (packet p ∷ hs) t = transient_after hs t
  transient_after (event q net ∷ hs) t = transient_after hs t

  abbrev pub hkp_after : List Happening → HkpPairing K → HkpPairing K
  hkp_after [] h = h
  hkp_after (request q o ∷ hs) h = hkp_after hs (hkp_step dec out srp ssl q o h)
  hkp_after (packet p ∷ hs) h = hkp_after hs h
  hkp_after (event q net ∷ hs) h = hkp_after hs h

  abbrev pub key_after : List Happening → List ℕ → List ℕ
  key_after [] key = key
  key_after (request q o ∷ hs) key = key_after hs (key_step dec out srp ssl q key)
  key_after (packet p ∷ hs) key = key_after hs key
  key_after (event q net ∷ hs) key = key_after hs key

  -- Whatever happens to a connection, in whatever order, each of its parts comes to what it comes to by itself
  -- on what is for it alone: the session on the packets, the events and the requests with a method of RTSP to
  -- targets that are not the receiver's own, the HomeKit pairing on POST to /pair-setup with 32 bytes and to
  -- /pair-verify, the transient pairing on POST to /pair-setup with another body, and FairPlay's key message on
  -- POST to /fp-setup.
  pub run_parts :
      (device_id : List ℕ) (hs : List Happening) (c : Connection D S K)
      → let d = run device_id hs c in
        (d.session ≡ session_after hs c.session)
        × (d.transient ≡ transient_after hs c.transient)
        × (d.hkp ≡ hkp_after hs c.hkp)
        × (d.fairplay_key_message ≡ key_after hs c.fairplay_key_message)
  run_parts device_id [] c = (refl, refl, refl, refl)
  run_parts device_id (request q o ∷ hs) c =
      let (s, t, h, k) = run_parts device_id hs (after device_id (request q o) c) in
      let e = handle_request-Steps dec out srp ssl q o c device_id in
      (
        s ∙ ap (session_after hs) e.session,
        t ∙ ap (transient_after hs) e.transient,
        h ∙ ap (hkp_after hs) e.hkp,
        k ∙ ap (key_after hs) e.key,
      )
  run_parts device_id (packet p ∷ hs) c = run_parts device_id hs (after device_id (packet p) c)
  run_parts device_id (event q net ∷ hs) c =
      run_parts device_id hs (after device_id (event q net) c)
