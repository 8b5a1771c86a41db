-- ===== src/Receiver/Tests.antt =====
-- A receiver whose publication fails, the identity of one, and the theorems at concrete inputs.
use gwl_airplay.Base.{ℕ, ◌≡◌, refl, true, false, List, [], ◌∷◌, none, some, codes, replicate}
use gwl_airplay.Rtsp.Plist.Offsets.{is_consistent}
use gwl_airplay.Http.Server
use gwl_airplay.Mdns.Service
use gwl_airplay.Mdns.Service.{MdnsService}
use gwl_airplay.Receiver.{
  ReceiverConfig, AirPlayReceiver, make_device_id, make_pi, initial_volume_binary_plist, start,
}
use gwl_airplay.Receiver.FairPlay.{handle_fairplay_setup, Answered, handle_fairplay_setup-Answered}
use gwl_airplay.Receiver.Cycle.{IsRunning, Started, start-IsRunning}

abbrev config : ReceiverConfig
config = record { device_name = codes "GWL AirPlay"; device_id = []; port = 7000 }

abbrev unpublished : MdnsService
unpublished = record {
  socket_fd = none;
  active = false;
  has_responder = false;
  instance_name = [];
  target = [];
  port = 0;
  records = [];
  local_address = 0;
}

abbrev stopped : AirPlayReceiver ℕ
stopped = record {
  server = record {
    running = false;
    listen_socket = none;
    bound_port = 0;
    has_thread = false;
    factory = none;
    retained_handlers = 0;
  };
  mdns = unpublished;
  running = false;
  config = config;
  protocol_identity = [];
}

stopped-IsRunning : IsRunning stopped
stopped-IsRunning = record {
  server = record { socket = refl; thread = refl };
  mdns = record { socket = refl; thread = refl };
  serves = refl;
  published = refl;
}

abbrev willing : Server.Network
willing = record { socket = some 3; bind = true; listen = true; getsockname = some 7000 }

abbrev no_group : Service.Network
no_group = record {
  socket = some 4;
  reuse_addr = true;
  reuse_port = true;
  bind = true;
  membership = false;
  probe = none;
}

abbrev drawn : List ℕ
drawn = 1 ∷ 35 ∷ 69 ∷ 103 ∷ 137 ∷ 171 ∷ []

start-IsRunning_example : Started (start stopped config drawn 9 willing no_group)
start-IsRunning_example =
    start-IsRunning stopped config drawn 9 willing no_group stopped-IsRunning refl

identity : make_pi (make_device_id drawn) ≡ codes "01234567-89AB-4000-8000-000000000000"
unfolding make_pi
identity = refl

abbrev phase1_message : List ℕ
phase1_message = 70 ∷ 80 ∷ 76 ∷ 89 ∷ 3 ∷ 1 ∷ 1 ∷ replicate 9 0

handle_fairplay_setup-Answered_example :
    Answered phase1_message [] (handle_fairplay_setup phase1_message [])
handle_fairplay_setup-Answered_example = handle_fairplay_setup-Answered phase1_message []

-- The table of offsets that the last 32 bytes speak of does not end there.
initial_volume_inconsistent : is_consistent initial_volume_binary_plist ≡ false
initial_volume_inconsistent = refl
