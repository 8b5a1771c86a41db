-- ===== src/Rtp/Receiver/Cycle.antt =====
-- The worker runs on an open socket only.
use gwl_airplay.Base.{
  ℕ, ◌≡◌, refl, sym, Bool, true, false, Option, none, some, arith, is_some, if◌then◌else◌, inl, inr,
  Option-cases, Bool-cases,
}
use gwl_airplay.Rtp.Receiver.{
  RtpReceiver, Network, stop_worker, start_worker, running, close, bind_on, bind,
  set_packet_handler, clear_packet_handler,
}

-- The thread is there exactly if it is to run, and then the socket is open; and where the socket is open
-- and a handler is set, it runs.
pub record IsWhole {ℓ} {F : Type ℓ} (r : RtpReceiver F) : Type ℓ where
  pub thread : r.has_worker ≡ r.worker_running
  pub on_socket : r.worker_running ≡ true → running r ≡ true
  pub served : running r ≡ true → is_some r.handler ≡ true → r.worker_running ≡ true

module _ {ℓ} {F : Type ℓ} where
  -- `close` leaves no socket, no port and no worker.
  pub close-IsWhole : (r : RtpReceiver F) → IsWhole (close r) × (running (close r) ≡ false)
  unfolding close stop_worker
  close-IsWhole r = elim (Option-cases r.fd) [
    | inl e ↦ (
      record { thread = ground arith; on_socket = ground arith; served = ground arith },
      ground arith,
    )
    | inr (fd, e) ↦ (
      record { thread = ground arith; on_socket = ground arith; served = ground arith },
      ground arith,
    )
  ]

  bind_on-IsWhole :
      (r : RtpReceiver F) (net : Network) (fd : Option ℕ)
      → IsWhole r
      → running r ≡ false
      → IsWhole (bind_on r net fd).1 × ((bind_on r net fd).0 ≡ running (bind_on r net fd).1)
  unfolding bind_on close start_worker stop_worker
  bind_on-IsWhole r net none w e = (
    record {
      thread = w.thread;
      on_socket = ground (arith, w.on_socket);
      served = λ a b. absurd (ground arith);
    },
    refl,
  )
  bind_on-IsWhole r net (some fd) w e = (
    record {
      thread = ground (arith, w.thread);
      on_socket = ground (arith, w.on_socket);
      served = ground (arith, w.thread);
    },
    ground arith,
  )

  bind-IsWhole_of :
      (r : RtpReceiver F) (net : Network) (o : Bool)
      → running r ≡ o
      → IsWhole r
      → let q = if o then (true, r) else bind_on r net net.socket in
        IsWhole q.1 × (q.0 ≡ running q.1)
  bind-IsWhole_of r net true e w = (w, sym e)
  bind-IsWhole_of r net false e w = bind_on-IsWhole r net net.socket w e

  -- `bind` answers whether there is a socket afterwards; whichever of the calls fail, the worker then runs
  -- on an open socket only, and it runs where the socket is open and a handler is set.
  pub bind-IsWhole :
      (r : RtpReceiver F) (net : Network)
      → IsWhole r
      → IsWhole (bind r net).1 × ((bind r net).0 ≡ running (bind r net).1)
  unfolding bind
  bind-IsWhole r net w = bind-IsWhole_of r net (running r) refl w

  -- A handler that is set on an open socket is served by the worker, and the worker stays on an open
  -- socket.
  pub set_packet_handler-IsWhole :
      (r : RtpReceiver F) (handler : Option F) → IsWhole r → IsWhole (set_packet_handler r handler)
  unfolding set_packet_handler start_worker
  set_packet_handler-IsWhole r handler w = record {
    thread = ground (arith, w.thread);
    on_socket = ground (arith, w.on_socket);
    served = ground arith;
  }

  -- Without a handler the worker is stopped.
  pub clear_packet_handler-IsWhole :
      (r : RtpReceiver F) → IsWhole r → IsWhole (clear_packet_handler r)
  unfolding clear_packet_handler stop_worker
  clear_packet_handler-IsWhole r w = record {
    thread = refl;
    on_socket = ground arith;
    served = ground arith;
  }

  -- A receiver that runs stays as it is, whatever the socket calls would give.
  pub bind_running : (r : RtpReceiver F) (net : Network) → running r ≡ true → bind r net ≡ (true, r)
  unfolding bind
  bind_running r net e = rw (e, bind) refl

  bind_on_answers :
      (r : RtpReceiver F) (net : Network) (fd : Option ℕ)
      → (bind_on r net fd).0 ≡ running (bind_on r net fd).1
  unfolding bind_on close start_worker stop_worker
  bind_on_answers r net none = refl
  bind_on_answers r net (some fd) = ground arith

  bind_answers_of :
      (r : RtpReceiver F) (net : Network) (o : Bool)
      → running r ≡ o
      → let q = if o then (true, r) else bind_on r net net.socket in q.0 ≡ running q.1
  bind_answers_of r net true e = sym e
  bind_answers_of r net false e = bind_on_answers r net net.socket

  pub bind_answers : (r : RtpReceiver F) (net : Network) → (bind r net).0 ≡ running (bind r net).1
  unfolding bind
  bind_answers r net = bind_answers_of r net (running r) refl

  pub running-set_packet_handler :
      (r : RtpReceiver F) (handler : Option F) → running (set_packet_handler r handler) ≡ running r
  unfolding set_packet_handler start_worker
  running-set_packet_handler r handler = ground arith

  pub bind_none :
      (r : RtpReceiver F) (net : Network)
      → running r ≡ false
      → net.socket ≡ none
      → (bind r net).0 ≡ false
  unfolding bind bind_on
  bind_none r net e n = rw (e, n, bind, bind_on) refl

  pub bind_willing :
      (r : RtpReceiver F) (net : Network) {fd : ℕ}
      → net.socket ≡ some fd
      → net.bind ≡ true
      → (bind r net).0 ≡ true
  unfolding bind bind_on
  bind_willing r net {fd} n b = elim (Bool-cases (running r)) [
    | inl e ↦ rw (e, bind) refl
    | inr e ↦ rw (e, n, b, bind, bind_on) refl
  ]
