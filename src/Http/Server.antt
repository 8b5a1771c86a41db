-- ===== src/Http/Server.antt =====
-- HttpServer::start_per_connection, stop, running and port of src/http_server.cpp. The accept loop runs in a
-- thread of its own (Accept); what it does for a connection is in Serve.
pub mod Cycle
pub mod Accept
use gwl_airplay.Base.{ℕ, Bool, true, false, not, ◌&&◌, Option, none, some, if◌then◌else◌}

-- `HttpServer::Impl`: the socket, where it is valid, whether the thread is there, and how many handlers
-- are retained.
pub record Server {ℓ} (F : Type ℓ) : Type ℓ where
  pub running : Bool
  pub listen_socket : Option ℕ
  pub bound_port : ℕ
  pub has_thread : Bool
  pub factory : Option F
  pub retained_handlers : ℕ

-- What the calls of `start_per_connection` give: the new socket, whether bind and listen succeed, and
-- the port that getsockname finds.
pub record Network : Type 0 where
  pub socket : Option ℕ
  pub bind : Bool
  pub listen : Bool
  pub getsockname : Option ℕ

abbrev port_of : Option ℕ → ℕ → ℕ
port_of none port = port
port_of (some actual) port = actual

module _ {ℓ} {F : Type ℓ} where
  start_on : Server F → Network → ℕ → Option ℕ → Bool × Server F
  start_on s net port none = (false, record s { listen_socket = none; running = false })
  start_on s net port (some fd) =
      if not (net.bind && net.listen)
      then (false, record s { listen_socket = none; running = false })
      else (
        true,
        record s {
          listen_socket = some fd;
          bound_port = port_of net.getsockname port;
          has_thread = true;
        },
      )

  pub start_per_connection : Server F → Network → ℕ → Option F → Bool × Server F
  unfolding start_on
  start_per_connection s net port factory =
      if s.running
      then (false, s)
      else start_on (record s { running = true; factory = factory; retained_handlers = 0 }) net port
          net.socket

  pub stop : Server F → Server F
  stop s = if not s.running then s else record s {
    running = false;
    listen_socket = none;
    bound_port = 0;
    has_thread = false;
    retained_handlers = 0;
  }
