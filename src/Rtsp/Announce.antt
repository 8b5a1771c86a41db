-- ===== src/Rtsp/Announce.antt =====
-- RtspSession::announce of src/rtsp.cpp, and set_alac_audio_pipeline.
pub mod Accepted
use gwl_airplay.Base.{
  ℕ, suc, ◌+◌, ◌%◌, ◌^◌, Bool, true, false, not, ◌&&◌, ◌||◌, List, [], ◌∷◌, ◌++◌, Option, none,
  some, ◌==◌, if◌then◌else◌, length, codes, bytes_eq, is_some,
}
use gwl_airplay.Text.{find, to_string, header_value}
use gwl_airplay.Rtp.{RtpPacket}
use gwl_airplay.Rtp.Receiver
use gwl_airplay.Rtp.Receiver.{RtpReceiver}
use gwl_airplay.Rtp.Jitter
use gwl_airplay.Rtp.Jitter.{RtpJitterBuffer}
use gwl_airplay.Http.Server
use gwl_airplay.Http.Server.{Server}
use gwl_airplay.Sdp.{AirPlaySdp, no_sdp, has_audio, has_video, parse_sdp}
use gwl_airplay.Crypto.{CryptoParameters, extract_crypto_parameters}
use gwl_airplay.Crypto.Session.{CryptoSession}
use gwl_airplay.Crypto.Session
use gwl_airplay.Audio.{AlacConfig, no_config, valid}
use gwl_airplay.Audio.Fmtp.{parse_alac_fmtp}
use gwl_airplay.Audio.Pipeline
use gwl_airplay.Audio.Pipeline.{AlacDecoder, AudioSink, AudioPipeline}
use gwl_airplay.Rtsp.{
  RtspRequest, RtspResponse, RtpTransport, no_transport, base_response, with_header,
  session_response, parse_port, is_binary_plist, host_of,
}
use gwl_airplay.Rtsp.Plist.{
  setup_ptp_response_plist, setup_event_response_plist, setup_stream_response_plist,
}
use gwl_airplay.Rtsp.State.{
  Own, Receivers, RtspSession, Network, new_receiver, new_server, made, runs, bound, Reply,
  session_of, reset_pipeline, reset, handle_media_packet,
}

module _ {ℓ κ} {D : Type ℓ} {S : Type κ} (dec : AlacDecoder D) (out : AudioSink S) where
  -- `set_alac_audio_pipeline` and `announce` configure the pipeline from the fmtp, where both are there:
  -- whether the pipeline takes the configuration, and the pipeline.
  configure_from : AirPlaySdp → Option (AudioPipeline D S) → Bool × Option (AudioPipeline D S)
  configure_from sdp none = (true, none)
  configure_from sdp (some p) =
      let (parsed, config) = parse_alac_fmtp sdp.fmtp no_config in
      let (taken, p') = Pipeline.configure dec out p config in
      if not (has_audio sdp) || ((length sdp.fmtp == 0) || not (parsed && valid config))
      then (true, some p)
      else (taken, some p')

  -- `extract_crypto_parameters`, then `crypto_.configure`, which fails for no parameters that were
  -- extracted.
  configure_crypto : AirPlaySdp → CryptoSession → Bool × CryptoSession
  configure_crypto sdp crypto =
      let (extracted, parameters) =
        extract_crypto_parameters sdp.fingerprint sdp.rsaaeskey sdp.aesiv in
      if extracted then Session.configure crypto parameters else (true, crypto)

  unfoldable pub announce : RtspRequest → RtspSession D S → RtspResponse × RtspSession D S
  unfolding configure_from configure_crypto
  announce r s =
      let (parsed, sdp) = parse_sdp r.body in
      let (taken, pipeline) = configure_from sdp s.alac_audio_pipeline in
      let (keyed, crypto) = configure_crypto sdp s.crypto in
      let a = record s { sdp = sdp; configured = true; alac_audio_pipeline = pipeline } in
      let b = record a { crypto = crypto } in
      if not parsed
      then (base_response r 400 (codes "Bad Request"), s)
      else if not (has_audio sdp || has_video sdp)
      then (base_response r 415 (codes "Unsupported Media Type"), s)
      else if not taken
      then (base_response r 415 (codes "Unsupported Media Type"), a)
      else if not keyed
      then (base_response r 400 (codes "Bad Request"), b)
      else (with_header (codes "Content-Length") (codes "0") (base_response r 200 (codes "OK")), b)

  pub set_alac_audio_pipeline : Option (AudioPipeline D S) → RtspSession D S → RtspSession D S
  unfolding configure_from
  set_alac_audio_pipeline p s = record s {
    alac_audio_pipeline = if s.configured then (configure_from s.sdp p).1 else p;
  }
