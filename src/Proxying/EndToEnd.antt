-- ===== src/Proxying/EndToEnd.antt =====
-- A client's connection from its first bytes to the backend.
use mathlib.Core.List.{append-nil}
use mathlib.Core.Path.{subst}
use sni_router.Prelude.{ℕ, ◌≡◌, refl, sym, Bool, List, [], ◌++◌, Option, none, some}
use sni_router.Prelude.Outcomes.{
  Bytes, Outcome, ok, err, panic, out_of_fuel, ◌>>=◌, Post, returns, fails,
}
use sni_router.Net.{SocketAddr}
use sni_router.Records.{Connection}
use sni_router.Handshake.Feeding.{IsRustls}
use sni_router.Routing.{accept, acl_action}
use sni_router.Routing
use sni_router.Routing.Tcp.{Choice}
use sni_router.Backends.{Backend}
use sni_router.Connecting.{Event, ConnectError, Network, ConnectedBackend, handed_off, proxied}
use sni_router.Connecting.Runs.{Holds}
use sni_router.Connecting.Served.{Served}
use sni_router.Connecting.Fallback.{Fails, connect_or_handoff_backend-Runs}
use sni_router.Proxying.{
  HandleError, not_connected, lifted, Sockets, handle_connected_backend, connected_by, handle_conn,
}
use sni_router.Proxying.Choosing.{Routed, Unrouted, Routes, route-Routes}
use sni_router.Proxying.Delivery.{Sent, handle_connected_proxy-Post, Served-IsSame}

module _ (net : Network) (good : IsRustls net.rustls) (sockets : Sockets) {Regex Nets Text : Type 0}
    (is_match : Regex → Text → Bool) (contains : Nets → ℕ → Bool) (from_utf8_lossy : Bytes → Text)
    (config : Routing.Config Regex Nets
      (Backend Bytes (net.rustls.Config) (net.ClientConfig))) where
  open net use {rustls, ClientConfig}

  -- What has become of a client's connection: it was closed or handed off, or its backend has got its bytes.
  abbrev pub Delivered :
      Bytes → Bytes → List Event → List Event → Option (SocketAddr × Bytes) → Type 0
  Delivered initial_bytes stream start new none =
      (c : Connection) × (choice : Choice Text (Backend Bytes (rustls.Config) ClientConfig))
      × Routed net sockets is_match contains from_utf8_lossy config initial_bytes stream (c, choice)
      × Served net c choice.backend start new handed_off
  Delivered initial_bytes stream start new (some (conn, got)) =
      (c : Connection) × (choice : Choice Text (Backend Bytes (rustls.Config) ClientConfig))
      × (proxy_header : Bool) × (server : Option (rustls.Config)) × Routed net sockets is_match
          contains from_utf8_lossy config initial_bytes stream (c, choice)
      × Served net c choice.backend start new (proxied c conn proxy_header server)
      × Sent net good sockets c proxy_header server got

  -- How the handling of a connection ends: it was delivered, or not routed, which leaves no event, or not connected to
  -- its backend, or its backend was connected, and the handshake or the copying failed.
  pub data Ended (initial_bytes stream : Bytes) (start new : List Event)
      : Outcome HandleError (Option (SocketAddr × Bytes)) → Type 0 where
    delivered :
        {result : Option (SocketAddr × Bytes)}
        → Delivered initial_bytes stream start new result
        → Ended initial_bytes stream start new (ok result)
    unrouted :
        {e : HandleError}
        → new ≡ []
        → Unrouted net sockets is_match contains from_utf8_lossy config initial_bytes stream e
        → Ended initial_bytes stream start new (err e)
    unconnected :
        {e : ConnectError} (c : Connection)
        (choice : Choice Text (Backend Bytes (rustls.Config) ClientConfig))
        → Routed net sockets is_match contains from_utf8_lossy config initial_bytes stream
            (c, choice)
        → Fails net good c choice.backend start new
        → Ended initial_bytes stream start new (err (not_connected e))
    interrupted :
        {e : HandleError} (c : Connection)
        (choice : Choice Text (Backend Bytes (rustls.Config) ClientConfig)) (conn : SocketAddr)
        (proxy_header : Bool) (server : Option (rustls.Config))
        → Routed net sockets is_match contains from_utf8_lossy config initial_bytes stream
            (c, choice)
        → Served net c choice.backend start new (proxied c conn proxy_header server)
        → Ended initial_bytes stream start new (err e)

  abbrev pub Ends :
      Bytes
      → Bytes
      → List Event
      → List Event × Outcome HandleError (Option (SocketAddr × Bytes))
      → Type 0
  Ends initial_bytes stream start (events', outcome) =
      (new : List Event) × (events' ≡ start ++ new) × Ended initial_bytes stream start new outcome

  -- What is copied to a backend that is connected.
  copied-Ended :
      (initial_bytes stream : Bytes) (start new : List Event) (c : Connection)
      (choice : Choice Text (Backend Bytes (rustls.Config) ClientConfig)) (conn : SocketAddr)
      (header : Bool) (server : Option (rustls.Config)) (m : Outcome HandleError Bytes)
      → Routed net sockets is_match contains from_utf8_lossy config initial_bytes stream (c, choice)
      → Served net c choice.backend start new (proxied c conn header server)
      → Post (Sent net good sockets c header server) m
      → Ended initial_bytes stream start new (m >>= λ got. ok (some (conn, got)))
  unfolding ◌>>=◌
  copied-Ended initial_bytes stream start new c choice conn header server _ r h (returns s) =
      delivered (c, choice, header, server, r, h, s)
  copied-Ended initial_bytes stream start new c choice conn header server _ r h fails =
      interrupted c choice conn header server r h

  Served-Ended :
      (initial_bytes stream : Bytes) (start new : List Event) (c : Connection)
      (choice : Choice Text (Backend Bytes (rustls.Config) ClientConfig))
      (o : Outcome ConnectError (ConnectedBackend net))
      → Routed net sockets is_match contains from_utf8_lossy config initial_bytes stream (c, choice)
      → Holds (Served net c choice.backend start new) (Fails net good c choice.backend start new) o
      → Ended initial_bytes stream start new
          (lifted not_connected o >>= handle_connected_backend net sockets)
  unfolding ◌>>=◌
  Served-Ended initial_bytes stream start new c choice (ok handed_off) r h =
      delivered (c, choice, r, h)
  Served-Ended initial_bytes stream start new c choice (ok (proxied c1 conn header server)) r h =
      let same : c1 ≡ c = Served-IsSame net good sockets c h in
      rw same (
        copied-Ended initial_bytes stream start new c choice conn header server _ r
          (subst
            (λ (x : Connection).
              Served net c choice.backend start new (proxied x conn header server))
            same h)
          (handle_connected_proxy-Post net good sockets c header server))
  Served-Ended initial_bytes stream start new c choice (err e) r h = unconnected c choice r h
  Served-Ended initial_bytes stream start new c choice panic r h = absurd h
  Served-Ended initial_bytes stream start new c choice out_of_fuel r h = absurd h

  connected_by-Ends :
      (initial_bytes stream : Bytes) (events : List Event)
      (o : Outcome HandleError
        (Connection × Choice Text (Backend Bytes (rustls.Config) ClientConfig)))
      → Routes net sockets is_match contains from_utf8_lossy config initial_bytes stream o
      → Ends initial_bytes stream events
          (connected_by net sockets is_match contains from_utf8_lossy config o events)
  connected_by-Ends initial_bytes stream events (ok (c, choice)) r =
      let run = connect_or_handoff_backend-Runs net good c choice.backend events in
      (run.new, run.grown, Served-Ended initial_bytes stream events run.new c choice _ r run.holds)
  connected_by-Ends initial_bytes stream events (err e) u =
      ([], sym (append-nil events), unrouted refl u)
  connected_by-Ends initial_bytes stream events panic u = absurd u
  connected_by-Ends initial_bytes stream events out_of_fuel u = absurd u

  -- Whatever a client sends, with a rustls that keeps the laws of `IsRustls`, its connection ends with success or an
  -- error, without a panic. Where it succeeds, it was served by a backend or by a sorry backend of that one, in the way
  -- that `connect_or_handoff_backend-Runs` says. The backend is the one that the rules decide on for the peer and the
  -- host name in the ClientHello that was read: that of the first rule that is not skipped, whose ACL accepts the peer,
  -- or of the default, whose ACL accepts it, where all are skipped or there is no name. Where the connection was
  -- proxied, the backend has got the PROXY line, if it wants one, and then all bytes of the client, those of its
  -- ClientHello included: as the client sent them, or, where the router ends its TLS, the plaintext of the handshake
  -- and what the kernel decrypts of the rest. Where it fails, its ClientHello could not be read or no backend is chosen,
  -- and then nothing was done, or its backend could not be connected, or was connected and the handshake with the client
  -- or the copying failed.
  pub handle_conn-Ends :
      (initial_bytes stream : Bytes) (events : List Event)
      → Ends initial_bytes stream events (
          handle_conn net sockets is_match contains from_utf8_lossy config initial_bytes stream
            events)
  unfolding handle_conn
  handle_conn-Ends initial_bytes stream events =
      connected_by-Ends initial_bytes stream events _
        (route-Routes net sockets is_match contains from_utf8_lossy config initial_bytes stream)
