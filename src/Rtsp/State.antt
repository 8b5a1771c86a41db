-- ===== src/Rtsp/State.antt =====
-- RtspSession of src/rtsp.cpp: its state, `reset`, and the media path. What is logged is left out.
pub mod Order
pub mod Stream
use gwl_airplay.Base.{
  ℕ, suc, ◌+◌, ◌%◌, ◌^◌, Bool, true, false, not, ◌&&◌, ◌||◌, List, [], ◌∷◌, ◌++◌, Option, none,
  some, ◌==◌, if◌then◌else◌, length, codes, bytes_eq, is_some,
}
use gwl_airplay.Text.{find, to_string, header_value}
use gwl_airplay.Rtp.{RtpPacket}
use gwl_airplay.Rtp.Receiver
use gwl_airplay.Rtp.Receiver.{RtpReceiver}
use gwl_airplay.Rtp.Jitter
use gwl_airplay.Rtp.Jitter.{RtpJitterBuffer}
use gwl_airplay.Http.Server
use gwl_airplay.Http.Server.{Server}
use gwl_airplay.Sdp.{AirPlaySdp, no_sdp, has_audio, has_video, parse_sdp}
use gwl_airplay.Crypto.{CryptoParameters, extract_crypto_parameters}
use gwl_airplay.Crypto.Session.{CryptoSession}
use gwl_airplay.Crypto.Session
use gwl_airplay.Audio.{AlacConfig, no_config, valid}
use gwl_airplay.Audio.Fmtp.{parse_alac_fmtp}
use gwl_airplay.Audio.Pipeline
use gwl_airplay.Audio.Pipeline.{AlacDecoder, AudioSink, AudioPipeline}
use gwl_airplay.Rtsp.{
  RtspRequest, RtspResponse, RtpTransport, no_transport, base_response, with_header,
  session_response, parse_port, is_binary_plist, host_of,
}
use gwl_airplay.Rtsp.Plist.{
  setup_ptp_response_plist, setup_event_response_plist, setup_stream_response_plist,
}

-- The handler of a receiver is the session's own; the event server's factory as well.
abbrev pub Own : Type 0
Own = Unit {0}

abbrev pub Receivers : Type 0
Receivers = RtpReceiver Own

-- `class RtspSession`. `delivered` are the packets that media_packet_handler_ was called with, where
-- `has_handler` says that there is one.
pub record RtspSession {ℓ κ} (D : Type ℓ) (S : Type κ) : Type (ℓ ⊔ κ) where
  pub configured : Bool
  pub setup_info_complete : Bool
  pub recording : Bool
  pub transport : RtpTransport
  pub sdp : AirPlaySdp
  pub crypto : CryptoSession
  pub media_receiver : Option Receivers
  pub control_receiver : Option Receivers
  pub timing_receiver : Option Receivers
  pub event_server : Option (Server Own)
  pub jitter_buffer : RtpJitterBuffer
  pub has_handler : Bool
  pub delivered : List RtpPacket
  pub alac_audio_pipeline : Option (AudioPipeline D S)
  pub received_packets : ℕ
  pub received_bytes : ℕ

-- What the sockets give to the calls of one request.
pub record Network : Type 0 where
  pub media : Receiver.Network
  pub control : Receiver.Network
  pub timing : Receiver.Network
  pub event : Server.Network

abbrev pub new_receiver : Receivers
new_receiver = record {
  fd = none;
  port = 0;
  handler = none;
  worker_running = false;
  has_worker = false;
}

abbrev pub new_server : Server Own
new_server = record {
  running = false;
  listen_socket = none;
  bound_port = 0;
  has_thread = false;
  factory = none;
  retained_handlers = 0;
}

-- `if (!receiver) receiver = std::make_unique<RtpReceiver>()`
abbrev pub made : Option Receivers → Receivers
made none = new_receiver
made (some r) = r

abbrev pub runs : Option Receivers → Bool
runs none = false
runs (some r) = Receiver.running r

-- `make_unique` and `bind(0)`: whether there is a socket, the receiver, and its port.
abbrev pub bound : Option Receivers → Receiver.Network → Bool × Receivers
bound o net = Receiver.bind (made o) net

-- What `handle` gives: a response, or an exception that leaves it.
pub data Reply {ℓ} (A : Type ℓ) : Type ℓ where
  replied : RtspResponse → A → Reply A
  threw : A → Reply A

abbrev pub session_of {ℓ} : {A : Type ℓ} → Reply A → A
session_of (Reply.replied r s) = s
session_of (Reply.threw s) = s

module _ {ℓ κ} {D : Type ℓ} {S : Type κ} (dec : AlacDecoder D) (out : AudioSink S) where
  abbrev pub reset_pipeline : Option (AudioPipeline D S) → Option (AudioPipeline D S)
  reset_pipeline none = none
  reset_pipeline (some p) = some (Pipeline.reset dec out p)

  -- `reset`: the receivers are closed and given up, so that they are none. The event server stays.
  unfoldable pub reset : RtspSession D S → RtspSession D S
  reset s = record s {
    recording = false;
    configured = false;
    setup_info_complete = false;
    has_handler = false;
    media_receiver = none;
    control_receiver = none;
    timing_receiver = none;
    jitter_buffer = Jitter.reset s.jitter_buffer;
    transport = no_transport;
    sdp = no_sdp;
    crypto = Session.reset s.crypto;
    received_packets = 0;
    received_bytes = 0;
    alac_audio_pipeline = reset_pipeline s.alac_audio_pipeline;
  }

  -- The last loop of `handle_media_packet`, on the packets that `pop` gives.
  abbrev push_all : List RtpPacket → AudioPipeline D S → AudioPipeline D S
  push_all [] p = p
  push_all (x ∷ xs) p = push_all xs (Pipeline.push_packet dec out p x).1

  abbrev play : List RtpPacket → Option (AudioPipeline D S) → Option (AudioPipeline D S)
  play packets none = none
  play packets (some p) = some (push_all packets p)

  -- `handle_media_packet` once the buffer has taken the packet. The loop ends when the buffer gives no more,
  -- within as many rounds as it holds packets.
  pub hand_on : RtspSession D S → RtpPacket → RtpJitterBuffer → RtspSession D S
  hand_on s p buffer =
      let (packets, rest) = Jitter.drain (suc (length buffer.packets)) buffer in
      record s {
        jitter_buffer = rest;
        received_packets = (s.received_packets + 1) % 2 ^ 64;
        received_bytes = (s.received_bytes + length p.payload) % 2 ^ 64;
        delivered = if s.has_handler then s.delivered ++ packets else s.delivered;
        alac_audio_pipeline = play packets s.alac_audio_pipeline;
      }

  pub handle_media_packet : RtspSession D S → RtpPacket → RtspSession D S
  unfolding hand_on
  handle_media_packet s p =
      let (taken, buffer) = Jitter.push s.jitter_buffer p in
      if not s.recording
      then s
      else if not taken
      then record s { jitter_buffer = buffer }
      else hand_on s p buffer
