-- ===== src/Rtsp/Session/Tests.antt =====
-- A session that takes a SETUP, RECORD and a packet, and the theorems on sessions and property lists at
-- concrete inputs.
use gwl_airplay.Base.{ℕ, ◌≡◌, ◌⊎◌, refl, true, false, List, [], ◌∷◌, some, none, arith, codes}
use gwl_airplay.Base.Map.{nat_ord}
use gwl_airplay.Text.{pos}
use gwl_airplay.Rtp.{RtpPacket}
use gwl_airplay.Rtp.Receiver
use gwl_airplay.Http.Server
use gwl_airplay.Rtp.Jitter
use gwl_airplay.Rtp.Jitter.{RtpJitterBuffer, no_stats}
use gwl_airplay.Rtp.Jitter.Invariant.{IsValid}
use gwl_airplay.Rtp.Jitter.Overflow.{push_first}
use gwl_airplay.Crypto.{no_parameters}
use gwl_airplay.Crypto.Session.{CryptoMode}
use gwl_airplay.Sdp.{no_sdp}
use gwl_airplay.Audio.Software.{NullAlacDecoder, null_decoder}
use gwl_airplay.Audio.Pipeline.Sinks.{NullAudioSink, null_sink}
use gwl_airplay.Rtsp.{RtspRequest, no_transport, session_response}
use gwl_airplay.Rtsp.State.{RtspSession, Network, Reply, session_of, handle_media_packet}
use gwl_airplay.Rtsp.State.Order.{HandsOn, handle_media_packet-HandsOn}
use gwl_airplay.Crypto.{extract_crypto_parameters}
use gwl_airplay.Sdp.{parse_sdp}
use gwl_airplay.Rtsp.Announce.{announce}
use gwl_airplay.Rtsp.Announce.Accepted.{Accepted, announce-Accepted}
use gwl_airplay.Rtsp.Setup.{setup}
use gwl_airplay.Rtsp.Setup.Ready.{IsReady}
use gwl_airplay.Rtsp.Setup.Retry.{Retried, setup-Retried}
use gwl_airplay.Text.Lines.{lines_text}
use gwl_airplay.Rtsp.Session.Progress.{announce_setup_record}
use gwl_airplay.Rtsp.Session.{handle}
use gwl_airplay.Rtsp.Session.Reach.{Step, Reach, Reach-IsReady}

abbrev idle : RtspSession NullAlacDecoder NullAudioSink
idle = record {
  configured = false;
  setup_info_complete = false;
  recording = false;
  transport = no_transport;
  sdp = no_sdp;
  crypto = record { mode = CryptoMode.none; configured = false; parameters = no_parameters };
  media_receiver = none;
  control_receiver = none;
  timing_receiver = none;
  event_server = none;
  jitter_buffer = record {
    capacity = 8;
    initialized = false;
    expected_sequence = 0;
    packets = [];
    stats = no_stats;
  };
  has_handler = true;
  delivered = [];
  alac_audio_pipeline = none;
  received_packets = 0;
  received_bytes = 0;
}

abbrev request : List ℕ → List ℕ → RtspRequest
request method body = record {
  method = method;
  uri = codes "rtsp://10.0.0.2/1";
  cseq = pos 1;
  headers = [];
  body = body;
}

abbrev willing : Receiver.Network
willing = record { socket = some 5; bind = true; getsockname = some 6000 }

abbrev server_network : Server.Network
server_network = record { socket = some 6; bind = true; listen = true; getsockname = some 7000 }

abbrev network : Network
network = record { media = willing; control = willing; timing = willing; event = server_network }

abbrev no_media_socket : Network
no_media_socket = record network { media = record willing { socket = none } }

abbrev packet : RtpPacket
packet = record {
  payload_type = 96;
  sequence = 7;
  timestamp = 0;
  ssrc = 0;
  marker = false;
  payload = [];
}

abbrev plist : List ℕ
plist = codes "bplist00"

abbrev set_up : RtspSession NullAlacDecoder NullAudioSink
set_up = session_of (handle null_decoder null_sink (request (codes "SETUP") plist) network idle)

abbrev recorded : RtspSession NullAlacDecoder NullAudioSink
recorded = session_of (handle null_decoder null_sink (request (codes "RECORD") []) network set_up)

abbrev played : RtspSession NullAlacDecoder NullAudioSink
played = handle_media_packet null_decoder null_sink recorded packet

steps : Reach null_decoder null_sink idle played
steps =
    Reach.next
      (Reach.next
        (Reach.next Reach.here (Step.request idle (request (codes "SETUP") plist) network))
        (Step.request set_up (request (codes "RECORD") []) network))
      (Step.packet recorded packet)

Reach-IsReady_example : IsReady played
Reach-IsReady_example = Reach-IsReady null_decoder null_sink refl steps

abbrev recording : RtspSession NullAlacDecoder NullAudioSink
recording = record idle { recording = true }

buffer-IsValid : IsValid recording.jitter_buffer
buffer-IsValid = ground arith

handle_media_packet-HandsOn_example :
    HandsOn null_decoder null_sink recording
      (handle_media_packet null_decoder null_sink recording packet)
      (Jitter.push recording.jitter_buffer packet).1
handle_media_packet-HandsOn_example =
    handle_media_packet-HandsOn null_decoder null_sink recording packet (omega arith) buffer-IsValid
      refl refl (push_first recording.jitter_buffer packet buffer-IsValid refl (omega arith)).0

announce-Accepted_example :
    let (response, t) =
      announce null_decoder null_sink (request (codes "ANNOUNCE") (codes "m=audio 0")) idle in
    (((response.status ≡ 400) ⊎ (response.status ≡ 415)) × (t ≡ idle))
    ⊎ Accepted null_decoder null_sink (request (codes "ANNOUNCE") (codes "m=audio 0")) idle t
announce-Accepted_example =
    announce-Accepted null_decoder null_sink (request (codes "ANNOUNCE") (codes "m=audio 0")) idle

setup-Retried_example :
    Retried null_decoder null_sink
      (request (codes "SETUP") plist)
      network
      idle
      (setup null_decoder null_sink (request (codes "SETUP") plist) no_media_socket idle)
setup-Retried_example =
    setup-Retried null_decoder null_sink (request (codes "SETUP") plist) no_media_socket network
      idle refl refl refl refl

-- A sender that describes one audio stream.
abbrev announcing : RtspRequest
announcing =
    request (codes "ANNOUNCE")
      (lines_text 10 (13 ∷ []) (codes "v=0" ∷ codes "m=audio 0 RTP/AVP 96" ∷ []))

announced : (announce null_decoder null_sink announcing idle).0.status ≡ 200
unfolding announce parse_sdp extract_crypto_parameters
announced = refl

announce_setup_record_example :
    let t = session_of (
      handle null_decoder null_sink
        (request (codes "SETUP") [])
        network
        (session_of (handle null_decoder null_sink announcing network idle))) in
    handle null_decoder null_sink (request (codes "RECORD") []) network t
    ≡ Reply.replied (session_response (request (codes "RECORD") [])) (record t { recording = true })
announce_setup_record_example =
    announce_setup_record null_decoder null_sink announcing (request (codes "SETUP") [])
      (request (codes "RECORD") []) network idle refl refl refl announced refl
      (record { fd = 5; socket = refl; bind = refl })
