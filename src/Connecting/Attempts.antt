-- ===== src/Connecting/Attempts.antt =====
-- The attempts at the addresses of a backend.
use mathlib.Core.List.{append_assoc, append-nil}
use sni_router.Prelude.{
  ℕ, ◌≡◌, refl, ap, inl, inr, true, false, List, [], ◌∷◌, ◌++◌, Option, none, some, Bool-cases,
  Option-cases,
}
use sni_router.Prelude.Outcomes.{Bytes, Outcome, Post, returns, fails}
use sni_router.Net.{SocketAddr}
use sni_router.Net.HostPort.{HostPortError, split_host_port}
use sni_router.Net.HostPort.Written.{split_host_port-Runs}
use sni_router.Connecting.{
  Event, connected, refused, backend_handshake, Network, connect_first, resolved, without_payload,
  start_tls, secured, connect_for_proxy, host_or_placeholder, ◌>>=◌, no_address, bad_server_name,
  tls_failed, early_data, unresolved,
}
use sni_router.Connecting.Runs.{Runs, Runs-pure, Runs-fail, Runs-bind, Runs-emit, Runs-weaken}
use sni_router.Connecting.Dialled.{
  IsHost, Refused, none_tried, one_refused, Connects, Dialled, plain, secure, Unreached,
  not_resolved, all_refused, no_server_name, no_tls, spoke_first,
}

module _ (net : Network) where
  open net use {
    rustls, ClientConfig, lookup_host, tcp_connect, is_server_name, sendmsg, backend_tls,
  }

  -- The first of some addresses that does not refuse.
  abbrev First : List SocketAddr → List Event → List Event → SocketAddr → Type 0
  First addrs start new conn =
      (tried : List SocketAddr) × (rest : List SocketAddr) × (failed : List Event) × (addrs
        ≡ tried ++ conn ∷ rest)
      × Refused net start tried failed
      × (tcp_connect (start ++ failed) conn ≡ true)
      × (new ≡ failed ++ connected conn ∷ [])

  later_First :
      (addr : SocketAddr) (addrs : List SocketAddr) (start new : List Event) (conn : SocketAddr)
      → tcp_connect start addr ≡ false
      → First addrs (start ++ refused addr ∷ []) new conn
      → First (addr ∷ addrs) start (refused addr ∷ new) conn
  later_First addr addrs start new conn e (tried, rest, failed, same, r, accepted, is) = (
    addr ∷ tried,
    rest,
    refused addr ∷ failed,
    ap (λ (x : List SocketAddr). addr ∷ x) same,
    one_refused e r,
    rw (← append_assoc start (refused addr ∷ []) failed) accepted,
    ap (λ (x : List Event). refused addr ∷ x) is,
  )

  connect_first-Runs :
      (addrs : List SocketAddr) (start : List Event)
      → Runs (First addrs start) (Refused net start addrs) (connect_first net addrs) start
  unfolding connect_first
  connect_first-Runs [] start = Runs-fail no_address none_tried
  connect_first-Runs (addr ∷ addrs) start = elim (Bool-cases (tcp_connect start addr)) [
    | inl e ↦ rw e (
        Runs-emit (connected addr) _
          (Runs-pure addr ([], addrs, [], refl, none_tried, rw (append-nil start) e, refl)))
    | inr e ↦ rw e (
        Runs-emit (refused addr) _ (
          Runs-weaken (connect_first-Runs addrs (start ++ refused addr ∷ []))
            (λ new conn f. later_First addr addrs start new conn e f) (λ new r. one_refused e r)))
  ]

  host-Runs :
      (addr : Bytes) (start : List Event) (o : Outcome HostPortError (Bytes × ℕ))
      → split_host_port addr ≡ o
      → Post (λ _. Unit {0}) o
      → Runs (λ new host. (new ≡ []) × IsHost addr host) (λ new. ⊥) (host_or_placeholder o) start
  host-Runs addr start _ e (returns {a = (host, port)} h) = Runs-pure host (refl, inl (port, e))
  host-Runs addr start _ e (fails {e = x}) = Runs-pure _ (refl, inr (x, e, refl))

  -- What TLS makes of a connection.
  abbrev Secures : Bytes → ClientConfig → List Event → List Event → List Event → SocketAddr → Type 0
  Secures addr cfg start new more conn = Dialled net addr (some cfg) start conn (new ++ more)

  start_tls-Runs :
      (addr : Bytes) (conn : SocketAddr) (cfg : ClientConfig) (host : Bytes)
      (start new : List Event)
      → Connects net addr start conn new
      → IsHost addr host
      → Runs
          (Secures addr cfg start new)
          (λ more. Unreached net addr (some cfg) start (new ++ more))
          (start_tls net conn cfg host)
          (start ++ new)
  start_tls-Runs addr conn cfg host start new c is = elim (Bool-cases (is_server_name host)) [
    | inr e ↦ rw e (Runs-fail bad_server_name (rw (append-nil new) (no_server_name host c is e)))
    | inl e ↦ rw e (Runs-emit (backend_handshake host) _ (payload-Runs e))
  ]
    where
      payload-Runs :
          is_server_name host ≡ true
          → Runs
              (λ more. Secures addr cfg start new (backend_handshake host ∷ more))
              (λ more. Unreached net addr (some cfg) start (new ++ backend_handshake host ∷ more))
              (λ events. without_payload net conn (backend_tls events cfg host) events)
              ((start ++ new) ++ backend_handshake host ∷ [])
      payload-Runs named =
          elim (Option-cases
            (backend_tls ((start ++ new) ++ backend_handshake host ∷ []) cfg host)) [
              | inl e ↦ rw e (Runs-fail tls_failed (no_tls host c is e))
              | inr (none, e) ↦ rw e (Runs-pure conn (secure host c is named e))
              | inr (some payload, e) ↦
                  rw e (Runs-fail early_data (spoke_first host payload c is e))
            ]

  secured-Runs :
      (addr : Bytes) (client : Option ClientConfig) (conn : SocketAddr) (start new : List Event)
      → Connects net addr start conn new
      → Runs
          (λ more c. Dialled net addr client start c (new ++ more))
          (λ more. Unreached net addr client start (new ++ more))
          (secured net addr client conn)
          (start ++ new)
  secured-Runs addr none conn start new c = Runs-pure conn (rw (append-nil new) (plain c))
  secured-Runs addr (some cfg) conn start new c =
      Runs-bind _ _ (host-Runs addr (start ++ new) _ refl (split_host_port-Runs addr))
        (λ no_more host (is, named).
          rw (is, append-nil (start ++ new)) (start_tls-Runs addr conn cfg host start new c named))
        (λ no_more h. absurd h)

  pub connect_for_proxy-Runs :
      (addr : Bytes) (client : Option ClientConfig) (start : List Event)
      → Runs
          (λ new conn. Dialled net addr client start conn new)
          (Unreached net addr client start)
          (connect_for_proxy net addr client)
          start
  unfolding connect_for_proxy
  connect_for_proxy-Runs addr client start =
      Runs-bind (λ events. resolved net (lookup_host events addr) events)
        (λ addrs. connect_first net addrs >>= λ conn. secured net addr client conn)
        (resolved-Runs (lookup_host start addr) refl)
        (λ new addrs (is, found).
          rw (is, append-nil start)
            (Runs-bind (connect_first net addrs) (λ conn. secured net addr client conn)
              (connect_first-Runs addrs start)
              (λ more conn (tried, rest, failed, same, r, accepted, h).
                secured-Runs addr client conn start more (record {
                  tried = tried;
                  rest = rest;
                  failed = failed;
                  found = rw found (ap some same);
                  refusing = r;
                  taking = accepted;
                  is_new = h;
                }))
              (λ more r. all_refused found r)))
        (λ new u. u)
    where
      resolved-Runs :
          (o : Option (List SocketAddr))
          → lookup_host start addr ≡ o
          → Runs
              (λ new addrs. (new ≡ []) × (lookup_host start addr ≡ some addrs))
              (Unreached net addr client start)
              (resolved net o)
              start
      resolved-Runs none e = Runs-fail unresolved (not_resolved e)
      resolved-Runs (some addrs) e = Runs-pure addrs (refl, e)
