-- ===== src/Receiver/Cycle.antt =====
-- The parts of the receiver run exactly while it does.
use gwl_airplay.Base.{
  ℕ, ◌≡◌, ◌∙◌, refl, sym, Bool, true, false, not, List, some, arith, if◌then◌else◌, Bool-cases, inl,
  inr,
}
use gwl_airplay.Http.Server
use gwl_airplay.Http.Server.{Server}
use gwl_airplay.Http.Server.Cycle
use gwl_airplay.Http.Server.Cycle.{start-IsWhole, stop-IsWhole}
use gwl_airplay.Mdns.Service
use gwl_airplay.Mdns.Service.{MdnsService, publish-IsWhole, unpublish-IsWhole}
use gwl_airplay.Receiver.{
  ReceiverConfig, AirPlayReceiver, make_pi, with_id, records_of, start_published, start, stop,
}

-- Server and publication run exactly while the receiver does, with their sockets and threads.
pub record IsRunning {ℓ} {F : Type ℓ} (a : AirPlayReceiver F) : Type ℓ where
  pub server : Cycle.IsWhole a.server
  pub mdns : Service.IsWhole a.mdns
  pub serves : a.server.running ≡ a.running
  pub published : a.mdns.active ≡ a.running

module _ {ℓ} {F : Type ℓ} where
  -- The answer of `start`, and the receiver after it.
  abbrev pub Started : Bool × AirPlayReceiver F → Type ℓ
  Started r = IsRunning r.1 × (r.0 ≡ r.1.running)

  if-Started :
      (b : Bool) (x y : Bool × AirPlayReceiver F)
      → (b ≡ true → Started x)
      → (b ≡ false → Started y)
      → Started (if b then x else y)
  if-Started true x y p q = p refl
  if-Started false x y p q = q refl

  start_published-IsRunning :
      (a : AirPlayReceiver F) (net : Service.Network)
      → Cycle.IsWhole a.server
      → Service.IsWhole a.mdns
      → a.server.running ≡ true
      → a.running ≡ false
      → Started (start_published a net)
  unfolding start_published
  start_published-IsRunning a net w v s r =
      let c = a.config in
      let p =
        Service.publish a.mdns net c.device_name c.port
          (records_of c.device_id a.protocol_identity) in
      let (whole, e) =
        publish-IsWhole a.mdns net c.device_name c.port (records_of c.device_id a.protocol_identity)
          v in
      let (stopped, h) = stop-IsWhole a.server w in
      elim (Bool-cases p.0) [
        | inl f ↦
            rw f (record { server = w; mdns = whole; serves = s; published = sym e ∙ f }, refl)
        | inr f ↦ rw f (
          record {
            server = stopped;
            mdns = whole;
            serves = h ∙ sym r;
            published = sym e ∙ (f ∙ sym r);
          },
          sym r,
        )
      ]

  -- A receiver that does not run, as none of its parts does, answers whether it was started, and then
  -- server and publication run exactly if it does, whichever of the calls fail.
  pub start-IsRunning :
      (a : AirPlayReceiver F) (config : ReceiverConfig) (drawn : List ℕ) (factory : F)
      (net : Server.Network) (multicast : Service.Network)
      → IsRunning a
      → a.running ≡ false
      → Started (start a config drawn factory net multicast)
  unfolding start
  start-IsRunning a config drawn factory net multicast w r =
      let c = with_id config drawn in
      let q = Server.start_per_connection a.server net config.port (some factory) in
      let b = record a { config = c; protocol_identity = make_pi c.device_id; server = q.1 } in
      let (whole, e) =
        start-IsWhole a.server net config.port (some factory) w.server (w.serves ∙ r) in
      let later = start_published b multicast in
      let rest = if not q.0 then (false, b) else later in
      if-Started a.running (false, a) rest (λ t. (w, sym r))
        λ t.
          if-Started (not q.0) (false, b) later
            (λ f. (
              record {
                server = whole;
                mdns = w.mdns;
                serves = ground (arith, e, r, f);
                published = w.published;
              },
              sym r,
            ))
            (λ f. start_published-IsRunning b multicast whole w.mdns (ground (arith, e, f)) r)

  -- `stop` leaves a receiver none of whose parts runs.
  pub stop-IsRunning :
      (a : AirPlayReceiver F) → IsRunning a → IsRunning (stop a) × ((stop a).running ≡ false)
  unfolding stop
  stop-IsRunning a w =
      let (stopped, h) = stop-IsWhole a.server w.server in
      let (unpublished, i) = unpublish-IsWhole a.mdns in
      (record { server = stopped; mdns = unpublished; serves = h; published = i }, refl)
