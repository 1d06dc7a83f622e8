-- ===== src/Proxying.antt =====
-- `route_and_connect`, `handle_conn`, `handle_connected_backend` and `handle_connected_proxy` of src/main.rs: a client's
-- connection from its first bytes to the backend. Their timeouts are left out.
pub mod Delivery
pub mod Choosing
pub mod EndToEnd
use sni_router.Prelude.{
  ℕ, zero, suc, ◌+◌, ◌/◌, ◌%◌, Bool, true, false, not, List, [], ◌∷◌, ◌++◌, Option, none, some, ltb,
  if◌then◌else◌,
}
use sni_router.Prelude.Outcomes.{Bytes, Outcome, ok, err, panic, out_of_fuel, ◌>>=◌, ◌>>◌, bail_if}
use sni_router.Net.{SocketAddr, v4, v6}
use sni_router.Records.{
  ReadError, Connection, Hello, clienthello, no_clienthello, read_tls_clienthello,
}
use sni_router.Handshake.{Rustls, HandshakeError, tls_handshake}
use sni_router.Routing.{RouteError}
use sni_router.Routing
use sni_router.Routing.Tcp.{Choice, choose_backend}
use sni_router.Backends.{Backend}
use sni_router.Connecting.{
  Event, ConnectError, Network, Result, ConnectedBackend, handed_off, proxied,
  connect_or_handoff_backend,
}

pub data HandleError : Type 0 where
  no_hello : ReadError → HandleError
  no_route : RouteError → HandleError
  not_connected : ConnectError → HandleError
  no_handshake : HandshakeError → HandleError
  backend_gone : HandleError

-- `?` on another error.
abbrev pub lifted {ℓ} :
    {E : Type 0} {A : Type ℓ} → (E → HandleError) → Outcome E A → Outcome HandleError A
lifted f (ok a) = ok a
lifted f (err e) = err (f e)
lifted f panic = panic
lifted f out_of_fuel = out_of_fuel

-- The decimal digits of a number below `10 ^ fuel`.
abbrev pub show_digits : ℕ → ℕ → Bytes
show_digits zero n = []
show_digits (suc fuel) n =
    let more = show_digits fuel (n / 10) in
    if ltb n 10 then (48 + n) ∷ [] else more ++ (48 + n % 10) ∷ []

-- A port as it is printed.
unfoldable pub show_u16 : ℕ → Bytes
show_u16 n = show_digits 5 n

abbrev pub port_of : SocketAddr → ℕ
port_of (v4 ip port) = port
port_of (v6 ip port flow scope) = port

-- "TCP4" or "TCP6"
abbrev pub proto : SocketAddr → Bytes
proto (v4 ip port) = 84 ∷ 67 ∷ 80 ∷ 52 ∷ []
proto (v6 ip port flow scope) = 84 ∷ 67 ∷ 80 ∷ 54 ∷ []

-- The line of the PROXY protocol, where `show_ip` prints an address without its port.
unfoldable pub proxy_line : (SocketAddr → Bytes) → SocketAddr → SocketAddr → Bytes
unfolding show_u16
proxy_line show_ip me peer =
    (80 ∷ 82 ∷ 79 ∷ 88 ∷ 89 ∷ 32 ∷ [])
    ++ proto peer
    ++ 32 ∷ show_ip peer
    ++ 32 ∷ show_ip me
    ++ 32 ∷ show_u16 (port_of peer)
    ++ 32 ∷ show_u16 (port_of me)
    ++ 13 ∷ 10 ∷ []

-- What is known of the two sockets: their addresses, and whether the backend takes the second bytes after the first.
pub record Sockets : Type 0 where
  pub show_ip : SocketAddr → Bytes
  pub me : SocketAddr
  pub peer : SocketAddr
  pub accepts : Bytes → Bytes → Bool

module _ (sockets : Sockets) where
  open sockets use {show_ip, me, peer, accepts}

  -- `write_all` or `copy`, with what the backend has got.
  pub write_all : Bytes → Bytes → Outcome HandleError Bytes
  write_all got bytes = bail_if (not (accepts got bytes)) backend_gone >> ok (got ++ bytes)

  -- `upstream`: what the backend has got when its side is shut down.
  pub upstream : Connection → Bool → Outcome HandleError Bytes
  upstream c proxy_header = do
    line ← (if proxy_header then write_all [] (proxy_line show_ip me peer) else ok [])
    got ← write_all line c.bytes
    write_all got c.stream

module _ (net : Network) (sockets : Sockets) where
  open net use {rustls, ClientConfig}

  -- `if let Some(tls) = tls`
  abbrev pub decrypted :
      Connection → Option (rustls.Config) → Outcome HandleError (Connection × Bytes)
  decrypted c none = ok (c, [])
  decrypted c (some cfg) = lifted no_handshake (tls_handshake rustls c cfg)

  unfoldable pub handle_connected_proxy :
      Connection → Bool → Option (rustls.Config) → Outcome HandleError Bytes
  unfolding upstream write_all
  handle_connected_proxy c proxy_header server = do
    (c1, sent) ← decrypted c server
    upstream sockets c1 proxy_header

  -- The address of the backend and what it has got, where the connection is proxied.
  abbrev pub handle_connected_backend :
      ConnectedBackend net → Outcome HandleError (Option (SocketAddr × Bytes))
  handle_connected_backend handed_off = ok none
  handle_connected_backend (proxied c conn proxy_header server) = do
    got ← handle_connected_proxy c proxy_header server
    ok (some (conn, got))

  abbrev pub hello_of : Hello → Option Bytes
  hello_of (clienthello bytes) = some bytes
  hello_of (no_clienthello e) = none

  module _ {Regex Nets Text : Type 0} (is_match : Regex → Text → Bool) (contains : Nets → ℕ → Bool)
      (from_utf8_lossy : Bytes → Text)
      (config : Routing.Config Regex Nets (Backend Bytes (rustls.Config) ClientConfig)) where
    -- `route_and_connect` up to the connecting.
    unfoldable pub route :
        Bytes
        → Bytes
        → Outcome HandleError
            (Connection × Choice Text (Backend Bytes (rustls.Config) ClientConfig))
    route initial_bytes stream = do
      (c, hello) ← lifted no_hello (read_tls_clienthello initial_bytes stream)
      choice ←
          lifted no_route (
            choose_backend is_match contains from_utf8_lossy config (sockets.peer) (hello_of hello))
      ok (c, choice)

    abbrev pub connected_by :
        Outcome HandleError (Connection × Choice Text (Backend Bytes (rustls.Config) ClientConfig))
        → List Event
        → List Event × Outcome HandleError (Option (SocketAddr × Bytes))
    connected_by (ok (c, choice)) events =
        let r = connect_or_handoff_backend net c choice.backend events in
        (r.events, lifted not_connected r.outcome >>= handle_connected_backend)
    connected_by (err e) events = (events, err e)
    connected_by panic events = (events, panic)
    connected_by out_of_fuel events = (events, out_of_fuel)

    -- The events, and what the backend got.
    unfoldable pub handle_conn :
        Bytes → Bytes → List Event → List Event × Outcome HandleError (Option (SocketAddr × Bytes))
    unfolding route handle_connected_proxy
    handle_conn initial_bytes stream events = connected_by (route initial_bytes stream) events
