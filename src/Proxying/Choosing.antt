-- ===== src/Proxying/Choosing.antt =====
-- Which backend a client's connection is routed to, and why it is not.
use sni_router.Prelude.{ℕ, ◌≡◌, refl, ◌⊎◌, Bool, ◌++◌, Option, none, some, inl, inr}
use sni_router.Prelude.Outcomes.{
  Bytes, Outcome, ok, err, panic, out_of_fuel, ◌>>=◌, Post, returns, fails, Post-bind, Post-weaken,
  Post-self,
}
use sni_router.Net.{peer_ip_v6}
use sni_router.Sni.{HelloError, extract_sni}
use sni_router.Sni.Safety.{extract_sni-Post}
use sni_router.Records.{ReadError, Connection, Hello, read_tls_clienthello}
use sni_router.Records.Replay.{all_bytes, read_tls_clienthello-Post}
use sni_router.Routing.{RouteError, accept, acl_action}
use sni_router.Routing
use sni_router.Routing.Deciding.{Allowed, AclAction-cases, choose_for_sni-Post}
use sni_router.Routing.Tcp.{lift_hello, Choice, choose_default, choose_for_sni, choose_backend}
use sni_router.Backends.{Backend}
use sni_router.Connecting.{Network}
use sni_router.Proxying.{HandleError, no_hello, no_route, lifted, Sockets, hello_of, route}

module _ (net : Network) (sockets : Sockets) {Regex Nets Text : Type 0}
    (is_match : Regex → Text → Bool) (contains : Nets → ℕ → Bool) (from_utf8_lossy : Bytes → Text)
    (config : Routing.Config Regex Nets
      (Backend Bytes (net.rustls.Config) (net.ClientConfig))) where
  open net use {rustls, ClientConfig}

  -- The default rule accepts the peer.
  abbrev ByDefault : Choice Text (Backend Bytes (rustls.Config) ClientConfig) → Type 0
  ByDefault choice =
      (acl_action contains config.default.acl (peer_ip_v6 sockets.peer) ≡ accept)
      × (choice.backend ≡ config.default.backend)

  -- What the rules decide, with the ClientHello or without one.
  abbrev pub Decided :
      Option Bytes → Choice Text (Backend Bytes (rustls.Config) ClientConfig) → Type 0
  Decided none choice = ByDefault choice
  Decided (some hello) choice =
      ((extract_sni from_utf8_lossy hello ≡ ok none) × ByDefault choice)
      ⊎ ((sni : Text) × (extract_sni from_utf8_lossy hello ≡ ok (some sni))
          × Allowed is_match contains config (peer_ip_v6 sockets.peer) config.rules sni choice)

  choose_default-Post :
      Post ByDefault (choose_default is_match contains config (peer_ip_v6 sockets.peer))
  unfolding choose_default Routing.match_action
  choose_default-Post =
      elim (AclAction-cases
        (Routing.acl_action contains config.default.acl (peer_ip_v6 sockets.peer))) [
          | inl (inl e) ↦ rw e (returns (e, refl))
          | inl (inr e) ↦ rw e fails
          | inr (inl e) ↦ rw e fails
          | inr (inr e) ↦ rw e fails
        ]

  choose_for_sni-Decided :
      (hello : Bytes) (sni : Option Text)
      → extract_sni from_utf8_lossy hello ≡ ok sni
      → Post
          (Decided (some hello))
          (choose_for_sni is_match contains config (peer_ip_v6 sockets.peer) sni)
  unfolding choose_for_sni
  choose_for_sni-Decided hello none e = Post-weaken choose_default-Post λ choice d. inl (e, d)
  choose_for_sni-Decided hello (some sni) e =
      Post-weaken (choose_for_sni-Post is_match contains config (peer_ip_v6 sockets.peer) sni)
        λ choice a. inr (sni, e, a)

  choose_backend-Post :
      (hello : Option Bytes)
      → Post
          (Decided hello)
          (choose_backend is_match contains from_utf8_lossy config sockets.peer hello)
  unfolding choose_backend
  choose_backend-Post none = choose_default-Post
  choose_backend-Post (some hello) =
      Post-bind _ _ (lift_hello-Post (Post-self (extract_sni-Post from_utf8_lossy hello)))
        λ sni (e, _). choose_for_sni-Decided hello sni e
    where
      lift_hello-Post :
          {A : Type 0} {P : A → Type 0} {m : Outcome HelloError A}
          → Post P m
          → Post P (lift_hello m)
      lift_hello-Post (returns h) = returns h
      lift_hello-Post fails = fails

  -- The connection and the choice that the router comes to: it keeps all bytes, and the backend is the one that the
  -- rules decide on.
  abbrev pub Routed :
      Bytes → Bytes → Connection × Choice Text (Backend Bytes (rustls.Config) ClientConfig) → Type 0
  Routed initial_bytes stream (c, choice) =
      (hello : Hello) × (read_tls_clienthello initial_bytes stream ≡ ok (c, hello))
      × (all_bytes c ≡ initial_bytes ++ stream)
      × Decided (hello_of net sockets hello) choice

  -- Why a connection is not routed.
  abbrev pub Unrouted : Bytes → Bytes → HandleError → Type 0
  Unrouted initial_bytes stream (no_hello e) = read_tls_clienthello initial_bytes stream ≡ err e
  Unrouted initial_bytes stream (no_route e) =
      (c : Connection) × (hello : Hello) × (read_tls_clienthello initial_bytes stream
        ≡ ok (c, hello))
      × (choose_backend is_match contains from_utf8_lossy config sockets.peer
            (hello_of net sockets hello)
          ≡ err e)
  Unrouted initial_bytes stream _ = ⊥

  -- It is routed or not, for one of these reasons.
  abbrev pub Routes :
      Bytes
      → Bytes
      → Outcome HandleError (Connection × Choice Text (Backend Bytes (rustls.Config) ClientConfig))
      → Type 0
  Routes initial_bytes stream (ok x) = Routed initial_bytes stream x
  Routes initial_bytes stream (err e) = Unrouted initial_bytes stream e
  Routes initial_bytes stream panic = ⊥
  Routes initial_bytes stream out_of_fuel = ⊥

  module _ (initial_bytes stream : Bytes) where
    choice-Routes :
        (c : Connection) (hello : Hello)
        (m : Outcome RouteError (Choice Text (Backend Bytes (rustls.Config) ClientConfig)))
        → read_tls_clienthello initial_bytes stream ≡ ok (c, hello)
        → all_bytes c ≡ initial_bytes ++ stream
        → choose_backend is_match contains from_utf8_lossy config sockets.peer
            (hello_of net sockets hello)
          ≡ m
        → Post (Decided (hello_of net sockets hello)) m
        → Routes initial_bytes stream (lifted no_route m >>= λ choice. ok (c, choice))
    unfolding ◌>>=◌
    choice-Routes c hello _ e kept f (returns d) = (hello, e, kept, d)
    choice-Routes c hello _ e kept f fails = (c, hello, e, f)

    hello-Routes :
        (m : Outcome ReadError (Connection × Hello))
        → read_tls_clienthello initial_bytes stream ≡ m
        → Post (λ (c, hello). all_bytes c ≡ initial_bytes ++ stream) m
        → Routes initial_bytes stream (do
          (c, hello) ← lifted no_hello m
          choice ← lifted no_route (
              choose_backend is_match contains from_utf8_lossy config sockets.peer
                (hello_of net sockets hello))
          ok (c, choice))
    unfolding ◌>>=◌
    hello-Routes _ e (returns {a = (c, hello)} kept) =
        choice-Routes c hello _ e kept refl (choose_backend-Post (hello_of net sockets hello))
    hello-Routes _ e fails = e

    pub route-Routes :
        Routes initial_bytes stream
          (route net sockets is_match contains from_utf8_lossy config initial_bytes stream)
    unfolding route
    route-Routes = hello-Routes _ refl (read_tls_clienthello-Post initial_bytes stream)
