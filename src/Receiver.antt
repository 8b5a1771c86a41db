-- ===== src/Receiver.antt =====
-- src/airplay_receiver.cpp: what the receiver calls itself, the two phases of FairPlay's setup (FairPlay),
-- AirPlayReceiver::start and stop, and the dispatch of the requests to its parts (Dispatch).
pub mod FairPlay
pub mod Cycle
pub mod Dispatch
mod Tests
use gwl_airplay.Base.{
  ℕ, ◌+◌, ◌-◌, ◌/◌, ◌%◌, Bool, true, false, not, ◌||◌, List, [], ◌∷◌, ◌++◌, Option, none, some, ltb,
  ◌==◌, if◌then◌else◌, length, take, drop, replicate, codes, bytes_eq,
}
use gwl_airplay.Http.{HttpRequest, HttpResponse, ok_response}
use gwl_airplay.Http.Server
use gwl_airplay.Http.Server.{Server}
use gwl_airplay.Mdns.{MdnsTxtRecord}
use gwl_airplay.Mdns.Service
use gwl_airplay.Mdns.Service.{MdnsService}

-- An uppercase hexadecimal digit.
abbrev pub hex_char : ℕ → ℕ
hex_char n = if ltb n 10 then 48 + n else 55 + n

-- `make_device_id`, of the numbers that are drawn.
abbrev pub make_device_id : List ℕ → List ℕ
make_device_id [] = []
make_device_id (b ∷ []) = hex_char (b / 16) ∷ hex_char (b % 16) ∷ []
make_device_id (b ∷ c ∷ bs) = hex_char (b / 16) ∷ hex_char (b % 16) ∷ 58 ∷ make_device_id (c ∷ bs)

-- The loop of `make_pi`.
abbrev pub without_colons : List ℕ → List ℕ
without_colons [] = []
without_colons (c ∷ cs) = let rest = without_colons cs in if c == 58 then rest else c ∷ rest

abbrev pub padded : List ℕ → List ℕ
padded hex = hex ++ replicate (32 - length hex) 48

abbrev part : ℕ → ℕ → List ℕ → List ℕ
part start count text = take count (drop start text)

pub make_pi : List ℕ → List ℕ
make_pi device_id =
    let hex = padded (without_colons device_id) in
    part 0 8 hex
    ++ (codes "-"
        ++ (part 8 4 hex
            ++ (codes "-4"
                ++ (part 13 3 hex
                    ++ (codes "-8" ++ (part 17 3 hex ++ (codes "-" ++ part 20 12 hex)))))))

-- The methods that go to the session.
abbrev pub one_of : List (List ℕ) → List ℕ → Bool
one_of [] method = false
one_of (m ∷ ms) method = bytes_eq method m || one_of ms method

pub is_rtsp_media_request : HttpRequest → Bool
is_rtsp_media_request request =
    one_of
      (codes "OPTIONS"
        ∷ codes "ANNOUNCE"
        ∷ codes "SETUP"
        ∷ codes "RECORD"
        ∷ codes "FLUSH"
        ∷ codes "TEARDOWN"
        ∷ codes "GET_PARAMETER"
        ∷ codes "SET_PARAMETER"
        ∷ codes "PAUSE"
        ∷ [])
      request.method

-- `response_for`, by which the dispatch refuses a request.
pub response_for : ℕ → List ℕ → HttpRequest → HttpResponse
response_for status reason request = record ok_response {
  status = status;
  reason = reason;
  protocol = if length request.protocol == 0 then codes "RTSP/1.0" else request.protocol;
  content_type = [];
}

-- The answer to a GET of /info without a body.
abbrev pub initial_volume_binary_plist : List ℕ
initial_volume_binary_plist =
    0x62 ∷ 0x70 ∷ 0x6c ∷ 0x69 ∷ 0x73 ∷ 0x74 ∷ 0x30 ∷ 0x30 ∷ 0xd1 ∷ 0x01 ∷ 0x02 ∷ 0x5d ∷ 0x69 ∷ 0x6e
    ∷ 0x69 ∷ 0x74 ∷ 0x69 ∷ 0x61 ∷ 0x6c ∷ 0x56 ∷ 0x6f ∷ 0x6c ∷ 0x75 ∷ 0x6d ∷ 0x65 ∷ 0x13 ∷ 0xff
    ∷ 0xff ∷ 0xff ∷ 0xff ∷ 0xff ∷ 0xff ∷ 0xff ∷ 0xff ∷ 0x08 ∷ 0x0b ∷ 0x19 ∷ 0x00 ∷ 0x00 ∷ 0x00
    ∷ 0x00 ∷ 0x00 ∷ 0x00 ∷ 0x01 ∷ 0x01 ∷ 0x00 ∷ 0x00 ∷ 0x00 ∷ 0x00 ∷ 0x00 ∷ 0x00 ∷ 0x00 ∷ 0x03
    ∷ 0x00 ∷ 0x00 ∷ 0x00 ∷ 0x00 ∷ 0x00 ∷ 0x00 ∷ 0x00 ∷ 0x00 ∷ 0x00 ∷ 0x00 ∷ 0x00 ∷ 0x00 ∷ 0x00
    ∷ 0x00 ∷ 0x22 ∷ []

-- `struct ReceiverConfig`, without the callbacks and the flags that `start` does not read.
pub record ReceiverConfig : Type 0 where
  pub device_name : List ℕ
  pub device_id : List ℕ
  pub port : ℕ

-- `AirPlayReceiver::Impl`
pub record AirPlayReceiver {ℓ} (F : Type ℓ) : Type ℓ where
  pub server : Server F
  pub mdns : MdnsService
  pub running : Bool
  pub config : ReceiverConfig
  pub protocol_identity : List ℕ

abbrev pub records_of : List ℕ → List ℕ → List MdnsTxtRecord
records_of device_id pi =
    record { key = codes "deviceid"; value = device_id }
    ∷ record { key = codes "model"; value = codes "AppleTV3,2" }
    ∷ record { key = codes "srcvers"; value = codes "220.68" }
    ∷ record { key = codes "protovers"; value = codes "1.1" }
    ∷ record { key = codes "features"; value = codes "0x5A7FFFF7,0x1E" }
    ∷ record { key = codes "flags"; value = codes "0x44" }
    ∷ record { key = codes "vv"; value = codes "2" }
    ∷ record { key = codes "pi"; value = pi }
    ∷ record { key = codes "pw"; value = codes "false" }
    ∷ []

-- The configuration that `start` keeps.
abbrev pub with_id : ReceiverConfig → List ℕ → ReceiverConfig
with_id c drawn =
    if length c.device_id == 0 then record c { device_id = make_device_id drawn } else c

module _ {ℓ} {F : Type ℓ} where
  -- `start` from the publication on, once the server was started.
  start_published : AirPlayReceiver F → Service.Network → Bool × AirPlayReceiver F
  start_published a net =
      let c = a.config in
      let (published, mdns) =
        Service.publish a.mdns net c.device_name c.port
          (records_of c.device_id a.protocol_identity) in
      if not published
      then (false, record a { mdns = mdns; server = Server.stop a.server })
      else (true, record a { mdns = mdns; running = true })

  -- `start`, with the numbers that are drawn for a missing device id.
  pub start :
      AirPlayReceiver F
      → ReceiverConfig
      → List ℕ
      → F
      → Server.Network
      → Service.Network
      → Bool × AirPlayReceiver F
  unfolding start_published
  start a config drawn factory net multicast =
      let c = with_id config drawn in
      let (started, server) = Server.start_per_connection a.server net config.port (some factory) in
      let b = record a { config = c; protocol_identity = make_pi c.device_id; server = server } in
      if a.running
      then (false, a)
      else if not started
      then (false, b)
      else start_published b multicast

  pub stop : AirPlayReceiver F → AirPlayReceiver F
  stop a = record a {
    mdns = Service.unpublish a.mdns;
    server = Server.stop a.server;
    running = false;
  }
