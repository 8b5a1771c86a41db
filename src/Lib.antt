-- ===== src/Lib.antt =====
-- The AirPlay receiver library: a model of its parts in src/ and include/airplay2/, with the theorems that
-- make them correct.
--
-- How the program works. MdnsService announces the receiver, HttpServer takes its connections and hands
-- each request to a handler, pair-setup runs over requests whose bodies are TLV8 frames, and RtspSession
-- takes the requests of RTSP: ANNOUNCE reads a session description, SETUP opens the sockets and answers with
-- a property list, RECORD lets the audio through. The audio arrives in RTP datagrams: RtpReceiver parses
-- them, RtpJitterBuffer puts them in order, and the audio pipeline decodes their payloads and writes the
-- samples to a sink.
--
-- What each file models. The paths are from the repository's root.
-- Base: the names that all files share, Boolean tests, lists and byte strings over native numbers, std::map
--   as an association list in the order of its keys, big-endian words.
-- Text: the text routines of the C++ library that the sources use (std::stoul, std::stoi, std::getline,
--   std::to_string), and trim and header_value, which several files define alike.
-- Rtp: the packet (include/airplay2/rtp.h). Rtp.Packet: RtpReceiver::receive of src/rtp.cpp from the bytes of
--   a datagram on. Rtp.Receiver: bind, close and the handlers of src/rtp.cpp, on a record of socket, port,
--   handler and worker. Rtp.Worker: receive from the socket on, and the worker's loop. Rtp.Jitter:
--   src/rtp_jitter_buffer.cpp, each operation a function on a record of the class's fields.
-- Pairing.Tlv and Pairing.Transient: decode_tlv, find_tlv, add_tlv and AirPlayTransientPairing::handle of
--   src/airplay_pairing.cpp. Pairing.Hkp: src/airplay_hkp_pairing.cpp, an object's operations on what OpenSSL
--   answers.
-- Audio: the configuration and the frame (include/airplay2/alac_config.h, alac_decoder.h). Audio.Cookie:
--   parse_alac_config of src/alac_config.cpp and make_cookie of src/alac_decoder.cpp. Audio.AppleSink: the
--   ring buffer of src/apple_audio_sink.cpp, with the bounded queue it stands for in Audio.AppleSink.Refine. Audio.Pipeline: src/audio_pipeline.cpp and
--   src/alac_audio_pipeline.cpp over any decoder and any sink, two records of operations. Audio.Pipeline.Sinks:
--   the sinks of src/callback_audio_sink.cpp, src/platform_audio.cpp and src/apple_audio_sink.cpp as instances.
--   Audio.Fmtp: parse_uint and parse_alac_fmtp of src/alac_config.cpp. Audio.Software: the decoders of
--   src/alac_decoder.cpp as instances. Audio.Pipeline.Tuned: the pipeline over the software decoder.
-- Http: the requests and responses of src/http_server.cpp. Http.Parse: parse_request. Http.Serve: the loops of
--   serve_client over any handler, on what recv gives and send answers. Http.Server: start_per_connection
--   and stop. Http.Server.Accept: the accept loop.
-- Audio.Clock: src/audio_clock.cpp, on the 64 bits of a time.
-- Crypto: the decodings of src/crypto.cpp and extract_crypto_parameters, on the attributes of an SDP.
--   Crypto.Session: src/crypto_session.cpp.
-- Sdp: src/sdp.cpp, line by line as the source does it.
-- Rtsp: src/rtsp.cpp and include/airplay2/rtsp.h. Rtsp.Plist: the property lists of SETUP. Rtsp.State: the
--   class's fields, reset and handle_media_packet. Rtsp.Setup: setup and the event channel. Rtsp.Announce:
--   announce and set_alac_audio_pipeline. Rtsp.Session: handle and the other requests, and the steps of a
--   session as a relation. Rtsp.Event: the handler of the event channel.
-- Receiver: the identity, start and stop of src/airplay_receiver.cpp, and FairPlay's setup
--   (Receiver.FairPlay). Receiver.Dispatch: handle_request, on a record of what the handler of a connection
--   keeps. Receiver.Dispatch.Requests: which requests are for which of its parts.
-- Mdns: the packet of src/mdns.cpp and the scan for a query. Mdns.Service: publish and unpublish.
--   Mdns.Responder: the loop of the responder's thread.
--
-- Numbers are natural numbers; a machine word keeps its wrap-around (% 2 ^ w), and bytes and characters
-- are numbers below 256. A pointer that may be null is an Option.
--
-- Fuel. The loops of TLV8, of names and of the requests on a connection run on the length of the input, and
-- each round takes a byte at least. The loop over header lines runs on the position of the empty line. The
-- bytes that an offset of a property list needs are at most eight. The jitter buffer is drained on more
-- fuel than it holds packets.
--
-- What is a parameter. The calls of the operating system and of CoreAudio are records of what they answer;
-- OpenSSL's numbers, random bytes, digests, keys and ciphers, the decoder of a pipeline and the handler of
-- a server are functions, and Apple's ALACDecoder is a record of its calls. std::string's max_size is a
-- number below 2 ^ 63 in the theorems on requests.
--
-- What is not modelled. The interleaving of threads, of which each operation is modelled
-- as one step; log output; the builds without OpenSSL, in which pairing always fails; the choice of
-- platform by the preprocessor; the vendored and the third-party code.
pub mod Audio
pub mod Base
pub mod Crypto
pub mod Http
pub mod Mdns
pub mod Pairing
pub mod Receiver
pub mod Rtp
pub mod Rtsp
pub mod Sdp
pub mod Text
