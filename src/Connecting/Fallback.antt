-- ===== src/Connecting/Fallback.antt =====
-- When the router turns to a sorry backend, and what a backend gets.
use mathlib.Core.List.{append-nil}
use sni_router.Prelude.{◌≡◌, refl, inl, inr, Bool, false, List, [], ◌∷◌, ◌++◌, Option, Bool-cases}
use sni_router.Prelude.Outcomes.{Bytes}
use sni_router.Records.{Connection}
use sni_router.Handshake.Feeding.{IsRustls}
use sni_router.Backends.{Backend, null, pass, proxy, Sorry, no_sorry, sorry}
use sni_router.Connecting.{
  Event, unix_connected, unix_refused, ConnectError, Network, ConnectedBackend, handed_off, proxied,
  pure, connect_for_proxy, hand_off, connect_or_handoff_backend, fall_back,
}
use sni_router.Connecting
use sni_router.Connecting.Runs.{Runs, Runs-pure, Runs-fail, Runs-catch, Runs-emit, Runs-weaken}
use sni_router.Connecting.Quiet.{Attempted, IsOver, IsOver-append}
use sni_router.Connecting.Dialled.{Unreached, Unreached-Quiet}
use sni_router.Connecting.Served.{
  Unsent, Unhanded, unsent, not_handshaken, unsent_after, Served, closed, handed, dialled,
  instead_of_pass, instead_of_proxy, Unserved, not_handed, no_path, nor_instead_of_pass,
  not_dialled, nor_instead_of_proxy,
}
use sni_router.Connecting.Attempts.{connect_for_proxy-Runs}
use sni_router.Connecting.HandingOver.{hand_off-Runs}

module _ (net : Network) (good : IsRustls net.rustls) where
  open net use {rustls, ClientConfig, unix_connect}

  Unsent-Attempted :
      (c : Connection) (path : Bytes) (start new : List Event)
      → Unsent net c path start new
      → Attempted path new
  Unsent-Attempted c path start new (inl (e, is)) = rw is tt
  Unsent-Attempted c path start new (inr (n, e, part, is)) = rw is (refl, tt)

  Unhanded-Attempted :
      {c : Connection} {path : Bytes} {server : Option (rustls.Config)} {start new : List Event}
      → Unhanded net c path server start new
      → Attempted path new
  Unhanded-Attempted {c} {path} (unsent u) = Unsent-Attempted c path _ _ u
  Unhanded-Attempted (not_handshaken e h) = tt
  Unhanded-Attempted {path} (unsent_after {c1} t u) = Unsent-Attempted c1 path _ _ u

  Unserved-IsOver :
      {c : Connection} {backend : Backend Bytes (rustls.Config) ClientConfig}
      {start new : List Event}
      → Unserved net c backend start new
      → IsOver new
  Unserved-IsOver (not_handed e u) = inr ([], _, _, tt, refl, Unhanded-Attempted u)
  Unserved-IsOver (no_path e) = inl (refl, tt)
  Unserved-IsOver (nor_instead_of_pass {path} {new} e u) =
      IsOver-append (unix_refused path ∷ []) new (refl, tt) (Unserved-IsOver u)
  Unserved-IsOver (not_dialled u) = inl (Unreached-Quiet net u)
  Unserved-IsOver (nor_instead_of_proxy {new} before u v) =
      IsOver-append before new (Unreached-Quiet net u) (Unserved-IsOver v)

  -- A sorry backend takes the place of one that could not be connected.
  abbrev InsteadOf :
      Connection
      → Sorry Bytes (rustls.Config) ClientConfig
      → List Event
      → List Event
      → ConnectedBackend net
      → Type 0
  InsteadOf c no_sorry start new r = ⊥
  InsteadOf c (sorry backend) start new r = Served net c backend start new r

  -- It could not either, or there is none.
  abbrev Neither :
      Connection → Sorry Bytes (rustls.Config) ClientConfig → List Event → List Event → Type 0
  Neither c no_sorry start new = new ≡ []
  Neither c (sorry backend) start new = Unserved net c backend start new

  module _ (c : Connection) (start : List Event) where
    instead-pass :
        (path : Bytes) (server : Option (rustls.Config))
        (s : Sorry Bytes (rustls.Config) ClientConfig) (new : List Event) (r : ConnectedBackend net)
        → unix_connect start path ≡ false
        → InsteadOf c s (start ++ unix_refused path ∷ []) new r
        → Served net c (pass path server s) start (unix_refused path ∷ new) r
    instead-pass path server no_sorry new r e h = absurd h
    instead-pass path server (sorry backend) new r e h = instead_of_pass e h

    Neither-pass :
        (path : Bytes) (server : Option (rustls.Config))
        (s : Sorry Bytes (rustls.Config) ClientConfig) (new : List Event)
        → unix_connect start path ≡ false
        → Neither c s (start ++ unix_refused path ∷ []) new
        → Unserved net c (pass path server s) start (unix_refused path ∷ new)
    Neither-pass path server no_sorry new e h = rw h (no_path e)
    Neither-pass path server (sorry backend) new e h = nor_instead_of_pass e h

    instead-proxy :
        (addr : Bytes) (header : Bool) (server : Option (rustls.Config))
        (client : Option ClientConfig) (s : Sorry Bytes (rustls.Config) ClientConfig)
        (before new : List Event) (r : ConnectedBackend net)
        → Unreached net addr client start before
        → InsteadOf c s (start ++ before) new r
        → Served net c (proxy addr header server client s) start (before ++ new) r
    instead-proxy addr header server client no_sorry before new r u h = absurd h
    instead-proxy addr header server client (sorry backend) before new r u h =
        instead_of_proxy before u (Unreached-Quiet net u) h

    Neither-proxy :
        (addr : Bytes) (header : Bool) (server : Option (rustls.Config))
        (client : Option ClientConfig) (s : Sorry Bytes (rustls.Config) ClientConfig)
        (before new : List Event)
        → Unreached net addr client start before
        → Neither c s (start ++ before) new
        → Unserved net c (proxy addr header server client s) start (before ++ new)
    Neither-proxy addr header server client no_sorry before new u h =
        rw (h, append-nil before) (not_dialled u)
    Neither-proxy addr header server client (sorry backend) before new u h =
        nor_instead_of_proxy before u h

  mutual
    unfolding connect_or_handoff_backend fall_back

    connecting-Runs :
        (c : Connection) (backend : Backend Bytes (rustls.Config) ClientConfig) (start : List Event)
        → Runs
            (Served net c backend start)
            (Unserved net c backend start)
            (connect_or_handoff_backend net c backend)
            start
    connecting-Runs c null start = Runs-pure handed_off closed
    connecting-Runs c (pass path server s) start = elim (Bool-cases (unix_connect start path)) [
      | inl e ↦ rw e (
          Runs-emit (unix_connected path) (λ _. hand_off net c path server)
            (Runs-weaken (hand_off-Runs net good c path server (start ++ unix_connected path ∷ []))
              (λ new r (is, h). rw is (handed e h)) (λ new u. not_handed e u)))
      | inr e ↦ rw e (
          Runs-emit (unix_refused path) (λ _. fall_back net c s Connecting.no_path)
            (Runs-weaken (fall_back-Runs c s Connecting.no_path (start ++ unix_refused path ∷ []))
              (λ new r h. instead-pass c start path server s new r e h)
              (λ new h. Neither-pass c start path server s new e h)))
    ]
    connecting-Runs c (proxy addr header server client s) start =
        Runs-catch (connect_for_proxy net addr client) (λ conn. pure (proxied c conn header server))
          (λ e. fall_back net c s e) (connect_for_proxy-Runs net addr client start)
          (λ new conn d. Runs-pure (proxied c conn header server) (rw (append-nil new) (dialled d)))
          (λ new x u.
            Runs-weaken (fall_back-Runs c s x (start ++ new))
              (λ more r h. instead-proxy c start addr header server client s new more r u h)
              (λ more h. Neither-proxy c start addr header server client s new more u h))

    fall_back-Runs :
        (c : Connection) (s : Sorry Bytes (rustls.Config) ClientConfig) (x : ConnectError)
        (start : List Event)
        → Runs (InsteadOf c s start) (Neither c s start) (fall_back net c s x) start
    fall_back-Runs c no_sorry x start = Runs-fail x refl
    fall_back-Runs c (sorry backend) x start = connecting-Runs c backend start

  -- Why connecting fails, and that nothing is tried behind a hand-over that failed.
  abbrev pub Fails :
      Connection → Backend Bytes (rustls.Config) ClientConfig → List Event → List Event → Type 0
  Fails c backend start new = Unserved net c backend start new × IsOver new

  -- With a rustls that keeps the laws of `IsRustls`, connecting any backend, from any events on, returns or fails.
  -- Where it returns, the client is served by the first backend, in the order of the backend and its sorry backends,
  -- that could be connected: by a connection to the first of the addresses that `lookup_host` has for the backend's
  -- address that `tcp_connect` does not refuse, with a TLS handshake for its host where TLS is configured, the client's
  -- connection being as it was; or by a descriptor that `sendmsg` took with all that was read of the connection, behind
  -- a handshake with the client where that is configured. Before a sorry backend is turned to, the backend before it
  -- was not reached - it had no address, all its addresses refused, its host is no server name, its TLS failed or began
  -- with data, or its path refused - and the client has no part in any event. Where it fails, this holds of every
  -- backend in that order, or the hand-over to the first path that took a connection failed, with no other backend
  -- tried after that.
  pub connect_or_handoff_backend-Runs :
      (c : Connection) (backend : Backend Bytes (rustls.Config) ClientConfig) (start : List Event)
      → Runs
          (Served net c backend start)
          (Fails c backend start)
          (connect_or_handoff_backend net c backend)
          start
  connect_or_handoff_backend-Runs c backend start =
      Runs-weaken (connecting-Runs c backend start) (λ new r h. h) λ new u. (u, Unserved-IsOver u)
