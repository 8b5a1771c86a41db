-- ===== src/Rtsp/State/Stream/Tests.antt =====
-- Two datagrams across the wrap of the sequence numbers, through the worker to a session's handler.
use gwl_airplay.Base.{ℕ, ◌≡◌, refl, true, false, [], ◌∷◌, map, some, none, arith}
use gwl_airplay.Rtp.{RtpPacket}
use gwl_airplay.Rtp.Packet.Wire.{Wire}
use gwl_airplay.Rtp.Receiver.{RtpReceiver}
use gwl_airplay.Rtp.Worker.{work}
use gwl_airplay.Rtp.Jitter.{no_stats}
use gwl_airplay.Rtp.Jitter.InOrder.{waiting_for}
use gwl_airplay.Crypto.{no_parameters}
use gwl_airplay.Crypto.Session.{CryptoMode}
use gwl_airplay.Sdp.{no_sdp}
use gwl_airplay.Audio.Software.{NullAlacDecoder, null_decoder}
use gwl_airplay.Audio.Pipeline.Sinks.{NullAudioSink, null_sink}
use gwl_airplay.Rtsp.{no_transport}
use gwl_airplay.Rtsp.State.{RtspSession}
use gwl_airplay.Rtsp.State.Stream.{handle_packet, round_of, work-delivered}

abbrev streaming : RtspSession NullAlacDecoder NullAudioSink
streaming = record {
  configured = false;
  setup_info_complete = false;
  recording = true;
  transport = no_transport;
  sdp = no_sdp;
  crypto = record { mode = CryptoMode.none; configured = false; parameters = no_parameters };
  media_receiver = none;
  control_receiver = none;
  timing_receiver = none;
  event_server = none;
  jitter_buffer = waiting_for 8 65535 no_stats;
  has_handler = true;
  delivered = [];
  alac_audio_pipeline = none;
  received_packets = 0;
  received_bytes = 0;
}

abbrev packet : ℕ → RtpPacket
packet n = record {
  payload_type = 96;
  sequence = n;
  timestamp = 352;
  ssrc = 7;
  marker = false;
  payload = n ∷ 2 ∷ [];
}

abbrev wire : ℕ → Wire
wire n = record { packet = packet n; sources = 0; source_bytes = []; extension = none; padding = 0 }

abbrev listening : RtpReceiver (Unit {0})
listening = record {
  fd = some 5;
  port = 6000;
  handler = some tt;
  worker_running = true;
  has_worker = true;
}

work-delivered_example :
    (work
      (handle_packet null_decoder null_sink)
      (map (round_of null_decoder null_sink listening) (wire 65535 ∷ wire 0 ∷ []))
      streaming).delivered
    ≡ packet 65535 ∷ packet 0 ∷ []
work-delivered_example =
    work-delivered null_decoder null_sink 8 (omega arith) listening (wire 65535 ∷ wire 0 ∷ []) 65535
      no_stats streaming (record { open_ = refl; handled = refl; works = refl })
      (omega arith, (omega arith, tt)) (refl, (refl, tt))
      (record { recording = refl; has_handler = refl; buffer = refl })
