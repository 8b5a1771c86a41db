-- ===== src/Mdns/Tests.antt =====
-- A service that is published, and the theorems at concrete inputs.
use gwl_airplay.Base.{
  List, ℕ, ◌↔◌, length, ◌≡◌, refl, true, false, [], ◌∷◌, ◌++◌, none, some, codes, replicate,
}
use gwl_airplay.Mdns.{name_loop, name, scan, query_for_airplay}
use gwl_airplay.Mdns.Responder.{response_of, exchange, Round, run}
use gwl_airplay.Mdns.Responder.Query.{Asks, query_for_airplay-Asks, length-exchange}
use gwl_airplay.Mdns.Service.{MdnsService, Network, IsWhole, publish, publish-IsWhole}

abbrev idle : MdnsService
idle = record {
  socket_fd = none;
  active = false;
  has_responder = false;
  instance_name = [];
  target = codes "gwl-airplay.local";
  port = 0;
  records = [];
  local_address = 0;
}

abbrev willing : Network
willing = record {
  socket = some 4;
  reuse_addr = true;
  reuse_port = true;
  bind = true;
  membership = true;
  probe = none;
}

publish-IsWhole_example : IsWhole (publish idle willing (codes "Room") 7000 []).1
publish-IsWhole_example =
    (publish-IsWhole idle willing (codes "Room") 7000 []
      (record { socket = refl; thread = refl })).0

-- A label of 64 characters leaves a name without its closing zero.
long_label : name (replicate 64 97) ≡ []
unfolding name name_loop
long_label = refl

scan_finds : query_for_airplay (replicate 12 0 ++ codes "x_airplay") ≡ true
unfolding query_for_airplay scan
scan_finds = refl

-- A query with the service's name behind a length byte.
abbrev query : List ℕ
query = replicate 12 0 ++ (8 ∷ codes "_airplay" ++ (0 ∷ []))

query_for_airplay-Asks_example : (query_for_airplay query ≡ true) ↔ Asks 12 query
query_for_airplay-Asks_example = query_for_airplay-Asks query

length-exchange_example : length (exchange 3 idle idle (response_of idle)) ≡ 3
length-exchange_example = length-exchange 3 idle idle

abbrev round_of : ℕ → List ℕ → Round ℕ
round_of from datagram = record {
  active = true;
  recvfrom = some (from, datagram);
  still_active = true;
}

abbrev stopped : Round ℕ
stopped = record { active = true; recvfrom = some (9, query); still_active = false }

-- A short datagram is passed over, and nothing is answered once the service stops.
two_rounds :
    run idle (round_of 1 query ∷ round_of 2 [] ∷ stopped ∷ round_of 3 query ∷ [])
    ≡ (1, response_of idle) ∷ []
unfolding run query_for_airplay scan
two_rounds = refl
