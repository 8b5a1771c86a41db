-- ===== src/Mdns/Responder.antt =====
-- MdnsService::Impl::run and send_response of src/mdns.cpp, the thread of a published service.
pub mod Query
use gwl_airplay.Base.{
  ℕ, zero, suc, Bool, not, List, [], ◌∷◌, ◌++◌, Option, take, none, some, if◌then◌else◌,
}
use gwl_airplay.Mdns.{make_response, query_for_airplay}
use gwl_airplay.Mdns.Service.{MdnsService}

-- The packet of a service.
abbrev pub response_of : MdnsService → List ℕ
response_of s = make_response s.instance_name s.target s.port s.records s.local_address

-- A round of the loop: `active` at its head, the sender and the bytes of a datagram, or none where recvfrom
-- fails, and `active` afterwards.
pub record Round {ℓ} (A : Type ℓ) : Type ℓ where
  pub active : Bool
  pub recvfrom : Option (A × List ℕ)
  pub still_active : Bool

-- What a round sends, and where to.
abbrev pub answered {ℓ} : {A : Type ℓ} → MdnsService → Option (A × List ℕ) → List (A × List ℕ)
answered s none = []
answered s (some (from, datagram)) =
    if query_for_airplay datagram then (from, response_of s) ∷ [] else []

unfoldable pub run {ℓ} : {A : Type ℓ} → MdnsService → List (Round A) → List (A × List ℕ)
run s [] = []
run s (r ∷ rounds) =
    let rest = run s rounds in
    if not r.active then [] else if not r.still_active then [] else answered s r.recvfrom ++ rest

-- Two services, of which each gets what the other sends, from a first packet on: the packets of the first
-- `turns` answers. The buffer of `run` takes the first 1500 bytes of a packet.
pub exchange : ℕ → MdnsService → MdnsService → List ℕ → List (List ℕ)
exchange zero s t packet = []
exchange (suc turns) s t packet =
    let rest = exchange turns t s (response_of s) in
    if query_for_airplay (take 1500 packet) then response_of s ∷ rest else []
