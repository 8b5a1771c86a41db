-- ===== src/Receiver/Dispatch/Tests.antt =====
-- A connection that takes a pairing, a SETUP and a RECORD, and the theorems at concrete inputs.
use gwl_airplay.Base.{
  ℕ, ◌≡◌, ◌++◌, refl, true, false, List, [], ◌∷◌, none, some, codes, length, replicate, bytes_eq,
}
use gwl_airplay.Http.{HttpRequest}
use gwl_airplay.Rtp.Receiver
use gwl_airplay.Rtp.Jitter.{no_stats}
use gwl_airplay.Crypto.{no_parameters}
use gwl_airplay.Crypto.Session.{CryptoMode}
use gwl_airplay.Sdp.{no_sdp}
use gwl_airplay.Pairing.Transient
use gwl_airplay.Pairing.Hkp
use gwl_airplay.Audio.Software.{NullAlacDecoder, null_decoder}
use gwl_airplay.Audio.Pipeline.Sinks.{NullAudioSink, null_sink}
use gwl_airplay.Rtsp.{no_transport}
use gwl_airplay.Rtsp.State.{RtspSession}
use gwl_airplay.Rtsp.Plist.Offsets.{is_consistent}
use gwl_airplay.Receiver.{make_pi}
use gwl_airplay.Receiver.FairPlay.{hex_bytes}
use gwl_airplay.Receiver.Dispatch.{
  replace, device_info_text, device_info_binary_plist, Connection, Outside,
}
use gwl_airplay.Receiver.Dispatch.Parts.{
  Happening, run, session_after, transient_after, hkp_after, key_after, run_parts,
}

abbrev srp : Transient.Openssl
srp = record {
  sha512 = λ xs. replicate 64 (length xs);
  bin2bn = λ xs. length xs;
  bn2binpad = λ n width. replicate width n;
  mod_exp = λ a b m. a;
  mod_mul = λ a b m. a;
  mod_add = λ a b m. a;
  memcmp_equal = bytes_eq;
  rodata = [];
}

-- A key is its bytes, and signs with them twice.
abbrev ssl : Hkp.Openssl (List ℕ) (Unit {0})
ssl = record {
  get_raw_public_key = λ k. some k;
  x25519_private_key = λ k. some k;
  x25519_public_key = λ k. some k;
  ed25519_public_key = λ k. some k;
  derive = λ k peer. some (k ++ peer);
  digest_sign = λ k m. some (k ++ k);
  digest_verify = λ k m s. bytes_eq s (k ++ k);
  sha512 = λ xs. replicate 64 (length xs);
  encrypt_init = λ key iv. some tt;
  encrypt_update = λ c xs. some (xs, tt);
  encrypt_final = λ c. some [];
}

abbrev session : RtspSession NullAlacDecoder NullAudioSink
session = record {
  configured = false;
  setup_info_complete = false;
  recording = false;
  transport = no_transport;
  sdp = no_sdp;
  crypto = record { mode = CryptoMode.none; configured = false; parameters = no_parameters };
  media_receiver = none;
  control_receiver = none;
  timing_receiver = none;
  event_server = none;
  jitter_buffer = record {
    capacity = 8;
    initialized = false;
    expected_sequence = 0;
    packets = [];
    stats = no_stats;
  };
  has_handler = true;
  delivered = [];
  alac_audio_pipeline = none;
  received_packets = 0;
  received_bytes = 0;
}

abbrev connection : Connection NullAlacDecoder NullAudioSink (List ℕ)
connection = record {
  session = session;
  transient = record { impl = Transient.fresh_impl; complete = false; shared_secret = [] };
  hkp = Hkp.new_pairing;
  fairplay_key_message = [];
}

abbrev willing : Receiver.Network
willing = record { socket = some 5; bind = true; getsockname = some 6000 }

abbrev outside : Outside (List ℕ)
outside = record {
  network = record {
    media = willing;
    control = willing;
    timing = willing;
    event = record { socket = some 6; bind = true; listen = true; getsockname = some 7000 };
  };
  transient = record {
    context = true;
    new_modulus = true;
    new_generator = true;
    new_secret = true;
    new_verifier = true;
    new_public = true;
    temporaries = true;
    salt = none;
    raw = none;
  };
  hkp = record {
    keygen = some (replicate 32 1);
    seed = some (replicate 32 2);
    sign_context = true;
    verify_context = true;
    derive_context = true;
    cipher_context = true;
  };
}

abbrev request : List ℕ → List ℕ → List ℕ → HttpRequest
request method target body = record {
  method = method;
  target = target;
  protocol = codes "RTSP/1.0";
  headers = [];
  body = body;
}

abbrev greeting : HttpRequest
greeting = request (codes "POST") (codes "/pair-setup") (replicate 32 0)

abbrev set_up : HttpRequest
set_up = request (codes "SETUP") (codes "rtsp://10.0.0.2/1") (codes "bplist00")

-- A request of RTSP to a target of the receiver's own, which is answered 405 and reaches no part.
abbrev stray : HttpRequest
stray = request (codes "SETUP") (codes "/pair-verify") []

abbrev happenings : List (Happening null_decoder null_sink srp ssl)
happenings =
    Happening.request greeting outside
    ∷ Happening.request stray outside
    ∷ Happening.request set_up outside
    ∷ []

run_parts_example :
    let d = run null_decoder null_sink srp ssl (codes "id") happenings connection in
    (d.session ≡ session_after null_decoder null_sink srp ssl happenings session)
    × (d.transient ≡ transient_after null_decoder null_sink srp ssl happenings connection.transient)
    × (d.hkp ≡ hkp_after null_decoder null_sink srp ssl happenings Hkp.new_pairing)
    × (d.fairplay_key_message ≡ key_after null_decoder null_sink srp ssl happenings [])
run_parts_example = run_parts null_decoder null_sink srp ssl (codes "id") happenings connection

-- The property list of a receiver with an address of its own can be read from its end.
device_info_consistent : is_consistent (device_info_binary_plist (codes "01:23:45:67:89:AB")) ≡ true
unfolding device_info_binary_plist replace hex_bytes device_info_text make_pi
device_info_consistent = refl
