-- ===== src/Rtsp/Setup.antt =====
-- RtspSession::setup of src/rtsp.cpp, with the event channel and the sockets that it opens.
pub mod Ready
pub mod Retry
pub mod Media
use gwl_airplay.Base.{
  ℕ, suc, ◌+◌, ◌%◌, ◌^◌, Bool, true, false, not, ◌&&◌, ◌||◌, List, [], ◌∷◌, ◌++◌, Option, none,
  some, ◌==◌, if◌then◌else◌, length, codes, bytes_eq, is_some,
}
use gwl_airplay.Text.{find, to_string, header_value}
use gwl_airplay.Rtp.{RtpPacket}
use gwl_airplay.Rtp.Receiver
use gwl_airplay.Rtp.Receiver.{RtpReceiver}
use gwl_airplay.Rtp.Jitter
use gwl_airplay.Rtp.Jitter.{RtpJitterBuffer}
use gwl_airplay.Http.Server
use gwl_airplay.Http.Server.{Server}
use gwl_airplay.Sdp.{AirPlaySdp, no_sdp, has_audio, has_video, parse_sdp}
use gwl_airplay.Crypto.{CryptoParameters, extract_crypto_parameters}
use gwl_airplay.Crypto.Session.{CryptoSession}
use gwl_airplay.Crypto.Session
use gwl_airplay.Audio.{AlacConfig, no_config, valid}
use gwl_airplay.Audio.Fmtp.{parse_alac_fmtp}
use gwl_airplay.Audio.Pipeline
use gwl_airplay.Audio.Pipeline.{AlacDecoder, AudioSink, AudioPipeline}
use gwl_airplay.Rtsp.{
  RtspRequest, RtspResponse, RtpTransport, no_transport, base_response, with_header,
  session_response, parse_port, is_binary_plist, host_of,
}
use gwl_airplay.Rtsp.Plist.{
  setup_ptp_response_plist, setup_event_response_plist, setup_stream_response_plist,
}
use gwl_airplay.Rtsp.State.{
  Own, Receivers, RtspSession, Network, new_receiver, new_server, made, runs, bound, Reply,
  session_of, reset_pipeline, reset, handle_media_packet,
}

module _ {ℓ κ} {D : Type ℓ} {S : Type κ} (dec : AlacDecoder D) (out : AudioSink S) where
  -- `start_event_channel`
  start_event_on : RtspSession D S → Bool × Server Own → Bool × RtspSession D S
  start_event_on s (started, server) =
      let t = s.transport in
      if not started || (server.bound_port == 0)
      then (false, record s { event_server = none; transport = record t { event_port = 0 } })
      else (
        true,
        record s {
          event_server = some server;
          transport = record t { event_port = server.bound_port };
        },
      )

  abbrev event_runs : Option (Server Own) → Bool
  event_runs none = false
  event_runs (some server) = server.running

  abbrev event_port_of : Option (Server Own) → ℕ
  event_port_of none = 0
  event_port_of (some server) = server.bound_port

  pub start_event_channel : RtspSession D S → Server.Network → Bool × RtspSession D S
  unfolding start_event_on
  start_event_channel s net =
      let port = event_port_of s.event_server in
      let t = s.transport in
      if event_runs s.event_server
      then (not (port == 0), record s { transport = record t { event_port = port } })
      else start_event_on s (Server.start_per_connection new_server net 0 (some tt))

  abbrev pub failed : RtspRequest → RtspSession D S → Reply (RtspSession D S)
  failed r s = Reply.replied (base_response r 500 (codes "Internal Server Error")) s

  abbrev pub refused : RtspRequest → RtspSession D S → Reply (RtspSession D S)
  refused r s = Reply.replied (base_response r 455 (codes "Method Not Valid in This State")) s

  abbrev plist_response : RtspRequest → List ℕ → RtspResponse
  plist_response r body =
      with_header (codes "Content-Type") (codes "application/x-apple-binary-plist") (
        with_header (codes "Content-Length") (to_string (length body))
          (record (base_response r 200 (codes "OK")) { body = body }))

  abbrev plist_reply : RtspRequest → RtspSession D S → Option (List ℕ) → Reply (RtspSession D S)
  plist_reply r s none = Reply.threw s
  plist_reply r s (some body) = Reply.replied (plist_response r body) s

  -- The ports that the first SETUP answers with; `timing` is the port of the timing receiver.
  abbrev with_ports : Bool → ℕ → RtspSession D S → RtspSession D S
  with_ports ptp timing s =
      let t = s.transport in
      record s {
        transport = record t {
          server_data_port = (made s.media_receiver).port;
          server_control_port = (made s.control_receiver).port;
          server_timing_port = if ptp then 0 else timing;
        };
      }

  abbrev setup_info_body : RtspRequest → Bool → RtpTransport → Option (List ℕ)
  setup_info_body r ptp t =
      if ptp
      then setup_ptp_response_plist t.event_port (host_of r.uri)
      else some (setup_event_response_plist t.event_port t.server_timing_port)

  -- The first SETUP from `start_event_channel` on.
  pub setup_event : RtspRequest → Network → Bool → ℕ → RtspSession D S → Reply (RtspSession D S)
  unfolding start_event_channel
  setup_event r net ptp timing s =
      let (started, s') = start_event_channel s net.event in
      let q = with_ports ptp timing s' in
      if not started then failed r s' else plist_reply r q (setup_info_body r ptp q.transport)

  -- The session after the first SETUP has bound its media receiver, and after it has bound the control and
  -- the timing receiver.
  abbrev with_info : Receivers → RtspSession D S → RtspSession D S
  with_info media s = record s {
    setup_info_complete = true;
    configured = true;
    media_receiver = some media;
    control_receiver = some (made s.control_receiver);
  }

  abbrev with_control : Receivers → RtspSession D S → RtspSession D S
  with_control control s = record s { control_receiver = some control }

  abbrev with_timing : Receivers → RtspSession D S → RtspSession D S
  with_timing timing s = record s { timing_receiver = some timing }

  -- The first SETUP from the timing receiver on, which PTP does not need.
  setup_timing : RtspRequest → Network → Bool → RtspSession D S → Reply (RtspSession D S)
  unfolding setup_event
  setup_timing r net ptp s =
      let (has_timing, timing) = bound s.timing_receiver net.timing in
      if ptp
      then setup_event r net true 0 s
      else if not has_timing
      then failed r (with_timing timing s)
      else setup_event r net false timing.port (with_timing timing s)

  -- The first SETUP with a property list.
  pub setup_info : RtspRequest → Network → RtspSession D S → Reply (RtspSession D S)
  unfolding setup_timing
  setup_info r net s =
      let ptp = is_some (find (codes "PTP") r.body) in
      let (has_media, media) = bound s.media_receiver net.media in
      let a = with_info media s in
      let (has_control, control) = bound s.control_receiver net.control in
      if not has_media
      then failed r a
      else if not has_control
      then failed r (with_control control a)
      else setup_timing r net ptp (with_control control a)

  -- The second SETUP with a property list: a stream, of type 96 where the list speaks of it.
  abbrev stream_type : List ℕ → ℕ
  stream_type body =
      if is_some (find (codes "type") body) && is_some (find (0x11 ∷ 0x60 ∷ []) body)
      then 96
      else 110

  pub setup_stream : RtspRequest → RtspSession D S → Reply (RtspSession D S)
  setup_stream r s =
      Reply.replied
        (plist_response r (
          setup_stream_response_plist s.transport.server_data_port s.transport.server_control_port
            (stream_type r.body)))
        s

  -- A receiver that is to run: it is made, and bound unless it runs.
  abbrev running_receiver : Option Receivers → Receiver.Network → Bool × Receivers
  running_receiver o net =
      if Receiver.running (made o) then (true, made o) else Receiver.bind (made o) net

  -- The control socket of a SETUP without a property list, where there is no control port yet: whether it
  -- is there, and the session after it.
  control_socket : RtspSession D S → Network → Bool × RtspSession D S
  control_socket s net =
      let t = s.transport in
      let (has_control, control) = running_receiver s.control_receiver net.control in
      if not (t.server_control_port == 0)
      then (true, s)
      else if not has_control
      then (false, record s { control_receiver = some control })
      else (
        true,
        record s {
          control_receiver = some control;
          transport = record t { server_control_port = control.port };
        },
      )

  timing_socket : RtspSession D S → Network → Bool × RtspSession D S
  timing_socket s net =
      let t = s.transport in
      let (has_timing, timing) = running_receiver s.timing_receiver net.timing in
      if not (t.server_timing_port == 0)
      then (true, s)
      else if not has_timing
      then (false, record s { timing_receiver = some timing })
      else (
        true,
        record s {
          timing_receiver = some timing;
          transport = record t { server_timing_port = timing.port };
        },
      )

  abbrev transport_text : RtpTransport → List ℕ
  transport_text t =
      codes "RTP/AVP/UDP;unicast;mode=record;server_port="
      ++ (to_string t.server_data_port
          ++ (codes ";control_port="
              ++ (to_string t.server_control_port
                  ++ (codes ";timing_port=" ++ to_string t.server_timing_port))))

  -- A SETUP without a property list, from the control socket on.
  pub setup_sockets : RtspRequest → Network → RtspSession D S → Reply (RtspSession D S)
  unfolding control_socket timing_socket
  setup_sockets r net s =
      let (has_control, b) = control_socket s net in
      let (has_timing, c) = timing_socket b net in
      if not has_control
      then failed r b
      else if not has_timing
      then failed r c
      else Reply.replied
          (with_header (codes "Content-Length") (codes "0") (
            with_header (codes "Transport") (transport_text c.transport) (
              with_header (codes "Session") (codes "GWL-AIRPLAY-1")
                (base_response r 200 (codes "OK")))))
          c

  -- The ports that the client names.
  abbrev with_client_ports : RtspRequest → RtspSession D S → RtspSession D S
  with_client_ports r s =
      let text = header_value r.headers (codes "Transport") in
      let t = s.transport in
      record s {
        transport = record t {
          client_control_port = parse_port text (codes "control_port=");
          client_timing_port = parse_port text (codes "timing_port=");
        };
      }

  -- The media receiver that runs, with the session's handler.
  abbrev with_media : Receivers → RtspSession D S → RtspSession D S
  with_media media s =
      let handled = Receiver.set_packet_handler media (some tt) in
      let t = s.transport in
      record s {
        media_receiver = some handled;
        transport = record t { server_data_port = handled.port };
      }

  pub setup_rtp : RtspRequest → Network → RtspSession D S → Reply (RtspSession D S)
  unfolding setup_sockets
  setup_rtp r net s =
      let c = with_client_ports r s in
      let (has_media, media) = running_receiver s.media_receiver net.media in
      if not has_media
      then failed r (record c { media_receiver = some media })
      else setup_sockets r net (with_media media c)

  pub setup : RtspRequest → Network → RtspSession D S → Reply (RtspSession D S)
  unfolding setup_info setup_stream setup_rtp
  setup r net s =
      if not s.setup_info_complete && is_binary_plist r.body
      then setup_info r net s
      else if not s.configured
      then refused r s
      else if is_binary_plist r.body
      then setup_stream r s
      else setup_rtp r net s

  -- `stop_event_channel`
  pub stop_event_channel : RtspSession D S → RtspSession D S
  stop_event_channel s =
      let t = s.transport in
      record s { event_server = none; transport = record t { event_port = 0 } }
