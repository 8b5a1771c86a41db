-- ===== src/Rtsp/Session.antt =====
-- RtspSession::handle of src/rtsp.cpp and the handlers that are not in Setup and Announce.
pub mod Recording
pub mod Progress
pub mod Reach
mod Tests
use gwl_airplay.Base.{
  ℕ, suc, ◌+◌, ◌%◌, ◌^◌, Bool, true, false, not, ◌&&◌, ◌||◌, List, [], ◌∷◌, ◌++◌, Option, none,
  some, ◌==◌, if◌then◌else◌, length, codes, bytes_eq, is_some,
}
use gwl_airplay.Text.{find, to_string, header_value}
use gwl_airplay.Rtp.{RtpPacket}
use gwl_airplay.Rtp.Receiver
use gwl_airplay.Rtp.Receiver.{RtpReceiver}
use gwl_airplay.Rtp.Jitter
use gwl_airplay.Rtp.Jitter.{RtpJitterBuffer}
use gwl_airplay.Http.Server
use gwl_airplay.Http.Server.{Server}
use gwl_airplay.Sdp.{AirPlaySdp, no_sdp, has_audio, has_video, parse_sdp}
use gwl_airplay.Crypto.{CryptoParameters, extract_crypto_parameters}
use gwl_airplay.Crypto.Session.{CryptoSession}
use gwl_airplay.Crypto.Session
use gwl_airplay.Audio.{AlacConfig, no_config, valid}
use gwl_airplay.Audio.Fmtp.{parse_alac_fmtp}
use gwl_airplay.Audio.Pipeline
use gwl_airplay.Audio.Pipeline.{AlacDecoder, AudioSink, AudioPipeline}
use gwl_airplay.Rtsp.{
  RtspRequest, RtspResponse, RtpTransport, no_transport, base_response, with_header,
  session_response, parse_port, is_binary_plist, host_of,
}
use gwl_airplay.Rtsp.Plist.{
  setup_ptp_response_plist, setup_event_response_plist, setup_stream_response_plist,
}
use gwl_airplay.Rtsp.State.{
  Own, Receivers, RtspSession, Network, new_receiver, new_server, made, runs, bound, Reply,
  session_of, reset_pipeline, reset, handle_media_packet,
}
use gwl_airplay.Rtsp.Setup.{setup, failed, refused}
use gwl_airplay.Rtsp.Announce.{announce}

module _ {ℓ κ} {D : Type ℓ} {S : Type κ} (dec : AlacDecoder D) (out : AudioSink S) where
  abbrev pub allowed : List ℕ
  allowed =
      codes "OPTIONS, ANNOUNCE, SETUP, RECORD, PAUSE, FLUSH, TEARDOWN, GET_PARAMETER, SET_PARAMETER"

  pub record_request : RtspRequest → RtspSession D S → Reply (RtspSession D S)
  record_request r s =
      if not (s.configured && runs s.media_receiver)
      then refused dec out r s
      else Reply.replied (session_response r) (record s { recording = true })

  abbrev pub pause : RtspSession D S → RtspSession D S
  pause s = record s {
    recording = false;
    alac_audio_pipeline = reset_pipeline dec out s.alac_audio_pipeline;
  }

  abbrev pub flush : RtspSession D S → RtspSession D S
  flush s = record s { jitter_buffer = Jitter.reset s.jitter_buffer }

  abbrev is_method : RtspRequest → List ℕ → Bool
  is_method r method = bytes_eq r.method method

  abbrev options_response : RtspRequest → RtspResponse
  options_response r =
      with_header (codes "Allow") allowed
        (with_header (codes "Public") allowed (base_response r 200 (codes "OK")))

  -- `handle`, for any request.
  pub handle : RtspRequest → Network → RtspSession D S → Reply (RtspSession D S)
  unfolding record_request
  handle r net s =
      let (announced, t) = announce dec out r s in
      if is_method r (codes "OPTIONS")
      then Reply.replied (options_response r) s
      else if is_method r (codes "ANNOUNCE")
      then Reply.replied announced t
      else if is_method r (codes "SETUP")
      then setup dec out r net s
      else if is_method r (codes "RECORD")
      then record_request r s
      else if is_method r (codes "PAUSE")
      then Reply.replied (session_response r) (pause s)
      else if is_method r (codes "FLUSH")
      then Reply.replied (session_response r) (flush s)
      else if is_method r (codes "GET_PARAMETER") || is_method r (codes "SET_PARAMETER")
      then Reply.replied (session_response r) s
      else if is_method r (codes "TEARDOWN")
      then Reply.replied (session_response r) (reset dec out s)
      else Reply.replied (base_response r 405 (codes "Method Not Allowed")) s

  pub set_media_packet_handler : Bool → RtspSession D S → RtspSession D S
  set_media_packet_handler there s = record s { has_handler = there }
