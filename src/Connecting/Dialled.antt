-- ===== src/Connecting/Dialled.antt =====
-- How a backend with an address is reached, and why it is not.
use sni_router.Prelude.{ℕ, ◌≡◌, refl, ◌⊎◌, true, false, List, [], ◌∷◌, ◌++◌, Option, none, some}
use sni_router.Prelude.Outcomes.{Bytes, ok, err}
use sni_router.Net.{SocketAddr}
use sni_router.Net.HostPort.{HostPortError, split_host_port}
use sni_router.Connecting.{Event, connected, refused, backend_handshake, Network}
use sni_router.Connecting.Quiet.{Quiet, Quiet-append}

-- The host in an address, for the name of a TLS connection.
abbrev pub IsHost : Bytes → Bytes → Type 0
IsHost addr host =
    ((port : ℕ) × (split_host_port addr ≡ ok (host, port)))
    ⊎ ((e : HostPortError) × (split_host_port addr ≡ err e)
        × (host ≡ 112 ∷ 108 ∷ 97 ∷ 99 ∷ 101 ∷ 104 ∷ 111 ∷ 108 ∷ 100 ∷ 101 ∷ 114 ∷ []))

module _ (net : Network) where
  open net use {ClientConfig, lookup_host, tcp_connect, is_server_name, backend_tls}

  -- From the events `start` on, the addresses are tried in turn, and each refuses.
  pub data Refused : List Event → List SocketAddr → List Event → Type 0 where
    none_tried : {start : List Event} → Refused start [] []
    one_refused :
        {start new : List Event} {addr : SocketAddr} {addrs : List SocketAddr}
        → tcp_connect start addr ≡ false
        → Refused (start ++ refused addr ∷ []) addrs new
        → Refused start (addr ∷ addrs) (refused addr ∷ new)

  -- The connection is to the first of the host's addresses that does not refuse.
  pub record Connects (addr : Bytes) (start : List Event) (conn : SocketAddr) (new : List Event)
      : Type 0 where
    pub tried : List SocketAddr
    pub rest : List SocketAddr
    pub failed : List Event
    pub found : lookup_host start addr ≡ some (tried ++ conn ∷ rest)
    pub refusing : Refused start tried failed
    pub taking : tcp_connect (start ++ failed) conn ≡ true
    pub is_new : new ≡ failed ++ connected conn ∷ []

  -- How a backend is reached: by the first of its addresses that does not refuse, and, with TLS, a handshake for its
  -- host.
  pub data Dialled (addr : Bytes)
      : Option ClientConfig → List Event → SocketAddr → List Event → Type 0 where
    plain :
        {start new : List Event} {conn : SocketAddr}
        → Connects addr start conn new
        → Dialled addr none start conn new
    secure :
        {cfg : ClientConfig} {start new : List Event} {conn : SocketAddr} (host : Bytes)
        → Connects addr start conn new
        → IsHost addr host
        → is_server_name host ≡ true
        → backend_tls ((start ++ new) ++ backend_handshake host ∷ []) cfg host ≡ some none
        → Dialled addr (some cfg) start conn (new ++ backend_handshake host ∷ [])

  -- Why a backend is not reached.
  pub data Unreached (addr : Bytes) : Option ClientConfig → List Event → List Event → Type 0 where
    not_resolved :
        {client : Option ClientConfig} {start : List Event}
        → lookup_host start addr ≡ none
        → Unreached addr client start []
    all_refused :
        {client : Option ClientConfig} {start new : List Event} {addrs : List SocketAddr}
        → lookup_host start addr ≡ some addrs
        → Refused start addrs new
        → Unreached addr client start new
    no_server_name :
        {cfg : ClientConfig} {start new : List Event} {conn : SocketAddr} (host : Bytes)
        → Connects addr start conn new
        → IsHost addr host
        → is_server_name host ≡ false
        → Unreached addr (some cfg) start new
    no_tls :
        {cfg : ClientConfig} {start new : List Event} {conn : SocketAddr} (host : Bytes)
        → Connects addr start conn new
        → IsHost addr host
        → backend_tls ((start ++ new) ++ backend_handshake host ∷ []) cfg host ≡ none
        → Unreached addr (some cfg) start (new ++ backend_handshake host ∷ [])
    spoke_first :
        {cfg : ClientConfig} {start new : List Event} {conn : SocketAddr} (host payload : Bytes)
        → Connects addr start conn new
        → IsHost addr host
        → backend_tls ((start ++ new) ++ backend_handshake host ∷ []) cfg host ≡ some (some payload)
        → Unreached addr (some cfg) start (new ++ backend_handshake host ∷ [])

  Refused-Quiet :
      {start new : List Event} {addrs : List SocketAddr} → Refused start addrs new → Quiet new
  Refused-Quiet none_tried = tt
  Refused-Quiet (one_refused e r) = (refl, Refused-Quiet r)

  Connects-Quiet :
      (addr : Bytes) (start new : List Event) (conn : SocketAddr)
      → Connects addr start conn new
      → Quiet new
  Connects-Quiet addr start new conn c =
      rw c.is_new
        (Quiet-append c.failed (connected conn ∷ []) (Refused-Quiet c.refusing) (refl, tt))

  secure-Quiet :
      (addr host : Bytes) (start new : List Event) (conn : SocketAddr)
      → Connects addr start conn new
      → Quiet (new ++ backend_handshake host ∷ [])
  secure-Quiet addr host start new conn c =
      Quiet-append new (backend_handshake host ∷ []) (Connects-Quiet addr start new conn c)
        (refl, tt)

  pub Unreached-Quiet :
      {addr : Bytes} {client : Option ClientConfig} {start new : List Event}
      → Unreached addr client start new
      → Quiet new
  Unreached-Quiet (not_resolved e) = tt
  Unreached-Quiet (all_refused e r) = Refused-Quiet r
  Unreached-Quiet (no_server_name host c is e) = Connects-Quiet _ _ _ _ c
  Unreached-Quiet (no_tls host c is e) = secure-Quiet _ host _ _ _ c
  Unreached-Quiet (spoke_first host payload c is e) = secure-Quiet _ host _ _ _ c
