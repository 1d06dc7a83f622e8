-- ===== src/Connecting.antt =====
-- `connect_for_proxy`, `connect_or_handoff_backend` and `pass_fd_over_uds` of src/main.rs: the connection of a client is
-- taken to a backend, or to its sorry backend. What is done is kept as a list of events, and what the network, the
-- backends and the kernel answer may depend on all that was done before.
pub mod Runs
pub mod Quiet
pub mod Dialled
pub mod Served
pub mod Attempts
pub mod HandingOver
pub mod Fallback
use sni_router.Prelude.{
  ℕ, Bool, true, false, not, List, [], ◌∷◌, ◌++◌, Option, none, some, nat_eq, length, if◌then◌else◌,
}
use sni_router.Prelude.Outcomes.{Bytes, Outcome, ok, err, panic, out_of_fuel}
use sni_router.Net.{SocketAddr}
use sni_router.Net.HostPort.{HostPortError, split_host_port}
use sni_router.Records.{Connection}
use sni_router.Handshake.{Rustls, HandshakeError, tls_handshake}
use sni_router.Backends.{Backend, null, pass, proxy, Sorry, no_sorry, sorry}

pub data Event : Type 0 where
  connected refused : SocketAddr → Event
  -- the TLS handshake with a backend, for a name
  backend_handshake : Bytes → Event
  unix_connected unix_refused : Bytes → Event
  -- the TLS handshake with the client, with what it was sent where it succeeded
  client_handshake : Option Bytes → Event
  -- a datagram with the connection's descriptor, to a path
  passed : Bytes → Bytes → Event

pub data ConnectError : Type 0 where
  unresolved no_address bad_server_name tls_failed early_data no_path send_failed short_send :
      ConnectError
  no_handshake : HandshakeError → ConnectError

-- What the code asks the network, the resolver and the TLS libraries for.
pub record Network : Type 1 where
  pub rustls : Rustls
  pub ClientConfig : Type 0
  pub lookup_host : List Event → Bytes → Option (List SocketAddr)
  pub tcp_connect : List Event → SocketAddr → Bool
  pub unix_connect : List Event → Bytes → Bool
  -- `ServerName::try_from`
  pub is_server_name : Bytes → Bool
  -- The handshake and the hand-over to the kernel, and the payload that had come by then.
  pub backend_tls : List Event → ClientConfig → Bytes → Option (Option Bytes)
  -- `sendmsg`: how many bytes were sent
  pub sendmsg : List Event → Bytes → Bytes → Option ℕ

-- A computation that goes on from the events so far.
pub record Result (A : Type 0) : Type 0 where
  pub events : List Event
  pub outcome : Outcome ConnectError A

abbrev pub Io : Type 0 → Type 0
Io A = List Event → Result A

infixl 5 ◌>>=◌
abbrev pub give : {A : Type 0} → Outcome ConnectError A → Io A
give outcome events = record { events = events; outcome = outcome }

abbrev pub pure : {A : Type 0} → A → Io A
pure a = give (ok a)

abbrev pub fail : {A : Type 0} → ConnectError → Io A
fail e = give (err e)

abbrev pub and_then : {A B : Type 0} → Outcome ConnectError A → (A → Io B) → Io B
and_then (ok a) f = f a
and_then (err e) f = fail e
and_then panic f = give panic
and_then out_of_fuel f = give out_of_fuel

unfoldable pub ◌>>=◌ : {A B : Type 0} → Io A → (A → Io B) → Io B
◌>>=◌ m f events = let r = m events in and_then r.outcome f r.events

-- `match` on a result.
abbrev pub either :
    {A B : Type 0} → Outcome ConnectError A → (A → Io B) → (ConnectError → Io B) → Io B
either (ok a) f g = f a
either (err e) f g = g e
either panic f g = give panic
either out_of_fuel f g = give out_of_fuel

unfoldable pub catch : {A B : Type 0} → Io A → (A → Io B) → (ConnectError → Io B) → Io B
catch m f g events = let r = m events in either r.outcome f g r.events

unfoldable pub emit : Event → Io (Unit {0})
emit event events = record { events = events ++ event ∷ []; outcome = ok tt }

-- `split_host_port(addr).unwrap_or(("placeholder", 0))`
abbrev pub host_or_placeholder : Outcome HostPortError (Bytes × ℕ) → Io Bytes
host_or_placeholder (ok (host, port)) = pure host
host_or_placeholder (err e) =
    pure (112 ∷ 108 ∷ 97 ∷ 99 ∷ 101 ∷ 104 ∷ 111 ∷ 108 ∷ 100 ∷ 101 ∷ 114 ∷ [])
host_or_placeholder panic = give panic
host_or_placeholder out_of_fuel = give out_of_fuel

module _ (net : Network) where
  open net use {
    rustls, ClientConfig, lookup_host, tcp_connect, unix_connect, is_server_name, backend_tls,
    sendmsg,
  }

  -- `ConnectedBackend`. The connection to a proxy is the address that it was made to.
  pub data ConnectedBackend : Type 0 where
    handed_off : ConnectedBackend
    -- the client, the backend's address, `proxy_header` and `frontend_tls`
    proxied : Connection → SocketAddr → Bool → Option (rustls.Config) → ConnectedBackend

  -- `for addr in addrs`
  pub connect_first : List SocketAddr → Io SocketAddr
  connect_first [] events = fail no_address events
  connect_first (addr ∷ addrs) events =
      let next = (emit (refused addr) >>= λ _. connect_first addrs) events in
      if tcp_connect events addr then (emit (connected addr) >>= λ _. pure addr) events else next

  abbrev pub resolved : Option (List SocketAddr) → Io (List SocketAddr)
  resolved none = fail unresolved
  resolved (some addrs) = pure addrs

  abbrev pub without_payload : SocketAddr → Option (Option Bytes) → Io SocketAddr
  without_payload conn none = fail tls_failed
  without_payload conn (some (some payload)) = fail early_data
  without_payload conn (some none) = pure conn

  abbrev pub start_tls : SocketAddr → ClientConfig → Bytes → Io SocketAddr
  start_tls conn cfg host =
      let handshake =
        (emit (backend_handshake host) >>= λ _ events.
        without_payload conn (backend_tls events cfg host) events) in
      if is_server_name host then handshake else fail bad_server_name

  abbrev pub secured : Bytes → Option ClientConfig → SocketAddr → Io SocketAddr
  secured addr none conn = pure conn
  secured addr (some cfg) conn =
      host_or_placeholder (split_host_port addr) >>= λ host. start_tls conn cfg host

  unfoldable pub connect_for_proxy : Bytes → Option ClientConfig → Io SocketAddr
  unfolding connect_first ◌>>=◌ emit
  connect_for_proxy addr tls = (λ events. resolved (lookup_host events addr) events) >>= λ addrs.
      connect_first addrs >>= λ conn. secured addr tls conn

  abbrev pub handshaken : Outcome HandshakeError (Connection × Bytes) → Io Connection
  handshaken (ok (c, sent)) = emit (client_handshake (some sent)) >>= λ _. pure c
  handshaken (err e) = emit (client_handshake none) >>= λ _. fail (no_handshake e)
  handshaken panic = give panic
  handshaken out_of_fuel = give out_of_fuel

  -- `if let Some(tls) = frontend_tls`
  abbrev pub terminated : Connection → Option (rustls.Config) → Io Connection
  terminated c none = pure c
  terminated c (some cfg) = handshaken (tls_handshake rustls c cfg)

  abbrev pub all_sent : Bytes → Bytes → Option ℕ → Io (Unit {0})
  all_sent path bytes none = fail send_failed
  all_sent path bytes (some sent) = emit (passed path bytes) >>= λ _.
      if nat_eq sent (length bytes) then pure tt else fail short_send

  unfoldable pub pass_fd_over_uds : Connection → Bytes → Io (Unit {0})
  unfolding ◌>>=◌ emit
  pass_fd_over_uds c path events = all_sent path c.bytes (sendmsg events path c.bytes) events

  -- `Backend::Pass`, once its socket is connected.
  unfoldable pub hand_off : Connection → Bytes → Option (rustls.Config) → Io ConnectedBackend
  unfolding pass_fd_over_uds
  hand_off c path server =
      terminated c server >>= λ c1. pass_fd_over_uds c1 path >>= λ _. pure handed_off

  unfoldable mutual
    unfolding connect_for_proxy hand_off catch ◌>>=◌ emit

    pub connect_or_handoff_backend :
        Connection → Backend Bytes (rustls.Config) ClientConfig → Io ConnectedBackend
    connect_or_handoff_backend c null events = pure handed_off events
    connect_or_handoff_backend c (pass path server s) events =
        let turned_down = (emit (unix_refused path) >>= λ _. fall_back c s no_path) events in
        let taken = (emit (unix_connected path) >>= λ _. hand_off c path server) events in
        if unix_connect events path then taken else turned_down
    connect_or_handoff_backend c (proxy addr proxy_header server client s) events =
        catch (connect_for_proxy addr client) (λ conn. pure (proxied c conn proxy_header server))
          (λ e. fall_back c s e) events

    -- `if let Some(s) = sorry`
    pub fall_back :
        Connection → Sorry Bytes (rustls.Config) ClientConfig → ConnectError → Io ConnectedBackend
    fall_back c no_sorry e = fail e
    fall_back c (sorry backend) e = connect_or_handoff_backend c backend
