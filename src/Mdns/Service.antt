-- ===== src/Mdns/Service.antt =====
-- MdnsService::publish and unpublish of src/mdns.cpp. What is sent, the announcement at the end of
-- `publish` and an answer to each datagram of `query_for_airplay`, is make_response.
use gwl_airplay.Base.{
  ℕ, ◌≡◌, sym, refl, Bool, true, false, not, ◌&&◌, List, Option, none, some, arith, is_some, ◌==◌,
  if◌then◌else◌,
}
use gwl_airplay.Mdns.{MdnsTxtRecord}

-- `MdnsService::Impl`.
pub record MdnsService : Type 0 where
  pub socket_fd : Option ℕ
  pub active : Bool
  pub has_responder : Bool
  pub instance_name : List ℕ
  pub target : List ℕ
  pub port : ℕ
  pub records : List MdnsTxtRecord
  pub local_address : ℕ

-- What the calls of `publish` give: the new socket, whether the options are set, the socket bound and
-- the group joined, and the address that the probe finds.
pub record Network : Type 0 where
  pub socket : Option ℕ
  pub reuse_addr : Bool
  pub reuse_port : Bool
  pub bind : Bool
  pub membership : Bool
  pub probe : Option ℕ

pub unpublish : MdnsService → MdnsService
unpublish s = record s { active = false; socket_fd = none; has_responder = false }

abbrev probed : Option ℕ → ℕ → ℕ
probed none address = address
probed (some found) address = found

abbrev address_of : ℕ → ℕ
address_of a = if a == 0 then 0x7F000001 else a

publish_on : MdnsService → Network → List ℕ → ℕ → List MdnsTxtRecord → Option ℕ → Bool × MdnsService
unfolding unpublish
publish_on s net name port records none = (false, record s { socket_fd = none })
publish_on s net name port records (some fd) =
    let q = record s { socket_fd = some fd } in
    if not (net.reuse_addr && (net.reuse_port && (net.bind && net.membership)))
    then (false, unpublish q)
    else (
      true,
      record q {
        local_address = address_of (probed net.probe s.local_address);
        instance_name = name;
        port = port;
        records = records;
        active = true;
        has_responder = true;
      },
    )

pub publish : MdnsService → Network → List ℕ → ℕ → List MdnsTxtRecord → Bool × MdnsService
unfolding publish_on
publish s net name port records =
    if s.active then (true, s) else publish_on s net name port records net.socket

-- The socket and the responder are there exactly while the service is published.
pub record IsWhole (s : MdnsService) : Type 0 where
  pub socket : is_some s.socket_fd ≡ s.active
  pub thread : s.has_responder ≡ s.active

publish_on-IsWhole :
    (s : MdnsService) (net : Network) (name : List ℕ) (port : ℕ) (records : List MdnsTxtRecord)
    (fd : Option ℕ)
    → IsWhole s
    → s.active ≡ false
    → IsWhole (publish_on s net name port records fd).1
      × ((publish_on s net name port records fd).0
          ≡ (publish_on s net name port records fd).1.active)
unfolding publish_on unpublish
publish_on-IsWhole s net name port records none w a =
    (record { socket = ground arith; thread = w.thread }, ground arith)
publish_on-IsWhole s net name port records (some fd) w a =
    (record { socket = ground arith; thread = ground arith }, ground arith)

publish-IsWhole_of :
    (s : MdnsService) (net : Network) (name : List ℕ) (port : ℕ) (records : List MdnsTxtRecord)
    (active : Bool)
    → s.active ≡ active
    → IsWhole s
    → let r = if active then (true, s) else publish_on s net name port records net.socket in
      IsWhole r.1 × (r.0 ≡ r.1.active)
publish-IsWhole_of s net name port records true e w = (w, sym e)
publish-IsWhole_of s net name port records false e w =
    publish_on-IsWhole s net name port records net.socket w e

-- `publish` answers whether the service is published afterwards, and socket and responder are there
-- exactly if it is, whichever of the calls fail.
pub publish-IsWhole :
    (s : MdnsService) (net : Network) (name : List ℕ) (port : ℕ) (records : List MdnsTxtRecord)
    → IsWhole s
    → IsWhole (publish s net name port records).1
      × ((publish s net name port records).0 ≡ (publish s net name port records).1.active)
unfolding publish
publish-IsWhole s net name port records w =
    publish-IsWhole_of s net name port records s.active refl w

-- `unpublish` leaves no socket and no responder.
pub unpublish-IsWhole : (s : MdnsService) → IsWhole (unpublish s) × ((unpublish s).active ≡ false)
unfolding unpublish
unpublish-IsWhole s = (record { socket = refl; thread = refl }, refl)
