-- ===== src/Http/Server/Cycle.antt =====
-- The server's socket and thread are there exactly while it runs.
use gwl_airplay.Base.{
  ℕ, ◌≡◌, ◌∙◌, inl, inr, Bool-cases, refl, true, false, Option, none, some, arith, is_some,
}
use gwl_airplay.Http.Server.{Server, Network, start_on, start_per_connection, stop}

pub record IsWhole {ℓ} {F : Type ℓ} (s : Server F) : Type ℓ where
  pub socket : is_some s.listen_socket ≡ s.running
  pub thread : s.has_thread ≡ s.running

module _ {ℓ} {F : Type ℓ} where
  start_on-IsWhole :
      (s : Server F) (net : Network) (port : ℕ) (fd : Option ℕ)
      → s.running ≡ true
      → s.has_thread ≡ false
      → IsWhole (start_on s net port fd).1
        × ((start_on s net port fd).0 ≡ (start_on s net port fd).1.running)
  unfolding start_on
  start_on-IsWhole s net port none r t = (record { socket = refl; thread = t }, refl)
  start_on-IsWhole s net port (some fd) r t =
      (record { socket = ground arith; thread = ground arith }, ground arith)

  -- From a stopped server, `start_per_connection` answers whether the server runs afterwards, and the
  -- server has a listening socket and a thread exactly if it runs, whichever of the calls fail.
  pub start-IsWhole :
      (s : Server F) (net : Network) (port : ℕ) (factory : Option F)
      → IsWhole s
      → s.running ≡ false
      → IsWhole (start_per_connection s net port factory).1
        × ((start_per_connection s net port factory).0
            ≡ (start_per_connection s net port factory).1.running)
  unfolding start_per_connection
  start-IsWhole s net port factory w r =
      let t : s.has_thread ≡ false = w.thread ∙ r in
      rw r (
        start_on-IsWhole (record s { running = true; factory = factory; retained_handlers = 0 }) net
          port net.socket refl t)

  -- `stop` leaves a server without socket and thread, which does not run.
  pub stop-IsWhole : (s : Server F) → IsWhole s → IsWhole (stop s) × ((stop s).running ≡ false)
  unfolding stop
  stop-IsWhole s w = elim (Bool-cases s.running) [
    | inl e ↦ rw e (record { socket = refl; thread = refl }, refl)
    | inr e ↦ rw e (record { socket = w.socket ∙ e; thread = w.thread ∙ e }, refl)
  ]
