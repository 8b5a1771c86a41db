-- ===== src/Rtsp/Setup/Retry.antt =====
-- A first SETUP whose media socket cannot be opened, and the SETUP after it.
use gwl_airplay.Base.{◌≡◌, ◌∙◌, refl, sym, subst, true, false, Option, none, some}
use gwl_airplay.Rtp.Receiver
use gwl_airplay.Rtp.Receiver.Cycle.{bind_none}
use gwl_airplay.Audio.Pipeline.{AlacDecoder, AudioSink}
use gwl_airplay.Rtsp.{RtspRequest, is_binary_plist}
use gwl_airplay.Rtsp.State.{Receivers, RtspSession, Network, made, runs, bound, Reply, session_of}
use gwl_airplay.Rtsp.Setup.{setup_info, setup_stream, setup, failed, with_info}

module _ {ℓ κ} {D : Type ℓ} {S : Type κ} (dec : AlacDecoder D) (out : AudioSink S) where
  made_idle : (o : Option Receivers) → runs o ≡ false → Receiver.running (made o) ≡ false
  made_idle none e = refl
  made_idle (some r) e = e

  setup_info_unbound :
      (r : RtspRequest) (net : Network) (s : RtspSession D S)
      → (bound s.media_receiver net.media).0 ≡ false
      → setup_info dec out r net s
        ≡ failed dec out r (with_info dec out (bound s.media_receiver net.media).1 s)
  unfolding setup_info
  setup_info_unbound r net s e = rw e refl

  -- The answer to a SETUP, and what the same SETUP gets after it.
  abbrev pub Retried :
      RtspRequest → Network → RtspSession D S → Reply (RtspSession D S) → Type (ℓ ⊔ κ)
  Retried r again s x =
      (x ≡ failed dec out r (session_of x))
      × ((session_of x).transport ≡ s.transport)
      × (setup dec out r again (session_of x) ≡ setup_stream dec out r (session_of x))

  setup_first :
      (r : RtspRequest) (net : Network) (s : RtspSession D S)
      → s.setup_info_complete ≡ false
      → is_binary_plist r.body ≡ true
      → setup dec out r net s ≡ setup_info dec out r net s
  unfolding setup
  setup_first r net s i b = rw (i, b) refl

  setup_later :
      (r : RtspRequest) (net : Network) (s : RtspSession D S)
      → s.setup_info_complete ≡ true
      → s.configured ≡ true
      → is_binary_plist r.body ≡ true
      → setup dec out r net s ≡ setup_stream dec out r s
  unfolding setup
  setup_later r net s i c b = rw (i, c, b) refl

  -- A first SETUP with a property list that cannot open its media socket is answered 500, but the session
  -- counts as set up: the same request again is a SETUP of a stream, answered 200 on any network, with the
  -- ports that the session had before.
  pub setup-Retried :
      (r : RtspRequest) (net again : Network) (s : RtspSession D S)
      → s.setup_info_complete ≡ false
      → is_binary_plist r.body ≡ true
      → runs s.media_receiver ≡ false
      → net.media.socket ≡ none
      → Retried r again s (setup dec out r net s)
  setup-Retried r net again s i b m n =
      let unbound = bind_none (made s.media_receiver) net.media (made_idle s.media_receiver m) n in
      let q = with_info dec out (bound s.media_receiver net.media).1 s in
      let e : setup dec out r net s ≡ failed dec out r q =
        setup_first r net s i b ∙ setup_info_unbound r net s unbound in
      let there : Retried r again s (failed dec out r q) =
        (refl, refl, setup_later r again q refl refl b) in
      subst (Retried r again s) (sym e) there
