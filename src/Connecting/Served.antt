-- ===== src/Connecting/Served.antt =====
-- How the client of a TCP connection is served, and why it is not.
use sni_router.Prelude.{
  ℕ, ◌≡◌, ◌⊎◌, Bool, true, false, List, [], ◌∷◌, ◌++◌, Option, none, some, nat_eq, length,
}
use sni_router.Prelude.Outcomes.{Bytes, err}
use sni_router.Net.{SocketAddr}
use sni_router.Records.{Connection}
use sni_router.Handshake.{HandshakeError, tls_handshake}
use sni_router.Handshake.Boundary.{Taken}
use sni_router.Backends.{Backend, null, pass, proxy, Sorry, no_sorry, sorry}
use sni_router.Connecting.{
  Event, unix_connected, unix_refused, client_handshake, passed, Network, ConnectedBackend,
  handed_off, proxied,
}
use sni_router.Connecting.Quiet.{Quiet}
use sni_router.Connecting.Dialled.{Dialled, Unreached}

module _ (net : Network) where
  open net use {rustls, ClientConfig, unix_connect, sendmsg}

  -- A datagram takes the descriptor, with all that was read of the connection.
  abbrev pub Passed : Connection → Bytes → List Event → List Event → Type 0
  Passed c path start new =
      (sendmsg start path c.bytes ≡ some (length c.bytes)) × (new ≡ passed path c.bytes ∷ [])

  -- It does not, or only with a part of that.
  abbrev pub Unsent : Connection → Bytes → List Event → List Event → Type 0
  Unsent c path start new =
      ((sendmsg start path c.bytes ≡ none) × (new ≡ []))
      ⊎ ((n : ℕ) × (sendmsg start path c.bytes ≡ some n)
          × (nat_eq n (length c.bytes) ≡ false)
          × (new ≡ passed path c.bytes ∷ []))

  -- What goes to the backend of a path: the connection, behind a handshake where it has TLS.
  abbrev pub Handed : Connection → Bytes → Option (rustls.Config) → List Event → List Event → Type 0
  Handed c path none start new = Passed c path start new
  Handed c path (some cfg) start new =
      (c1 : Connection) × (sent : Bytes) × (more : List Event) × Taken rustls c cfg c1 sent
      × (new ≡ client_handshake (some sent) ∷ more)
      × Passed c1 path (start ++ client_handshake (some sent) ∷ []) more

  -- Why nothing goes to it.
  pub data Unhanded (c : Connection) (path : Bytes)
      : Option (rustls.Config) → List Event → List Event → Type 0 where
    unsent : {start new : List Event} → Unsent c path start new → Unhanded c path none start new
    not_handshaken :
        {cfg : rustls.Config} {start : List Event} (e : HandshakeError)
        → tls_handshake rustls c cfg ≡ err e
        → Unhanded c path (some cfg) start (client_handshake none ∷ [])
    unsent_after :
        {cfg : rustls.Config} {start new : List Event} {c1 : Connection} {sent : Bytes}
        → Taken rustls c cfg c1 sent
        → Unsent c1 path (start ++ client_handshake (some sent) ∷ []) new
        → Unhanded c path (some cfg) start (client_handshake (some sent) ∷ new)

  -- How a client is served, from the events `start` on. A sorry backend serves only where the backend before it could
  -- not be connected, and behind events in which the client has no part.
  pub data Served (c : Connection)
      : Backend Bytes (rustls.Config) ClientConfig
        → List Event
        → List Event
        → ConnectedBackend net
        → Type 0 where
    closed : {start : List Event} → Served c null start [] handed_off
    handed :
        {path : Bytes} {server : Option (rustls.Config)}
        {s : Sorry Bytes (rustls.Config) ClientConfig} {start new : List Event}
        → unix_connect start path ≡ true
        → Handed c path server (start ++ unix_connected path ∷ []) new
        → Served c (pass path server s) start (unix_connected path ∷ new) handed_off
    dialled :
        {addr : Bytes} {header : Bool} {server : Option (rustls.Config)}
        {client : Option ClientConfig} {s : Sorry Bytes (rustls.Config) ClientConfig}
        {conn : SocketAddr} {start new : List Event}
        → Dialled net addr client start conn new
        → Served c (proxy addr header server client s) start new (proxied c conn header server)
    instead_of_pass :
        {path : Bytes} {server : Option (rustls.Config)}
        {backend : Backend Bytes (rustls.Config) ClientConfig} {start new : List Event}
        {r : ConnectedBackend net}
        → unix_connect start path ≡ false
        → Served c backend (start ++ unix_refused path ∷ []) new r
        → Served c (pass path server (sorry backend)) start (unix_refused path ∷ new) r
    instead_of_proxy :
        {addr : Bytes} {header : Bool} {server : Option (rustls.Config)}
        {client : Option ClientConfig} {backend : Backend Bytes (rustls.Config) ClientConfig}
        {start new : List Event} {r : ConnectedBackend net} (before : List Event)
        → Unreached net addr client start before
        → Quiet before
        → Served c backend (start ++ before) new r
        → Served c (proxy addr header server client (sorry backend)) start (before ++ new) r

  -- Why a client is not served: the hand-over failed, or neither the backend nor its sorry backend could be connected.
  pub data Unserved (c : Connection)
      : Backend Bytes (rustls.Config) ClientConfig → List Event → List Event → Type 0 where
    not_handed :
        {path : Bytes} {server : Option (rustls.Config)}
        {s : Sorry Bytes (rustls.Config) ClientConfig} {start new : List Event}
        → unix_connect start path ≡ true
        → Unhanded c path server (start ++ unix_connected path ∷ []) new
        → Unserved c (pass path server s) start (unix_connected path ∷ new)
    no_path :
        {path : Bytes} {server : Option (rustls.Config)} {start : List Event}
        → unix_connect start path ≡ false
        → Unserved c (pass path server no_sorry) start (unix_refused path ∷ [])
    nor_instead_of_pass :
        {path : Bytes} {server : Option (rustls.Config)}
        {backend : Backend Bytes (rustls.Config) ClientConfig} {start new : List Event}
        → unix_connect start path ≡ false
        → Unserved c backend (start ++ unix_refused path ∷ []) new
        → Unserved c (pass path server (sorry backend)) start (unix_refused path ∷ new)
    not_dialled :
        {addr : Bytes} {header : Bool} {server : Option (rustls.Config)}
        {client : Option ClientConfig} {start new : List Event}
        → Unreached net addr client start new
        → Unserved c (proxy addr header server client no_sorry) start new
    nor_instead_of_proxy :
        {addr : Bytes} {header : Bool} {server : Option (rustls.Config)}
        {client : Option ClientConfig} {backend : Backend Bytes (rustls.Config) ClientConfig}
        {start new : List Event} (before : List Event)
        → Unreached net addr client start before
        → Unserved c backend (start ++ before) new
        → Unserved c (proxy addr header server client (sorry backend)) start (before ++ new)
