-- ===== src/Routing/Agreement.antt =====
-- The two routers choose alike: the QUIC router closes where the TCP router refuses, and sends to the
-- counterpart of its backend elsewhere.
use sni_router.Prelude.{
  ℕ, ◌≡◌, refl, Bool, List, [], ◌∷◌, map, Option, none, some, inl, inr, Bool-cases,
}
use sni_router.Prelude.Outcomes.{Outcome, ok, err, panic, out_of_fuel}
use sni_router.Net.{SocketAddr, peer_ip_v6}
use sni_router.Routing.{
  Rule, Config, RouteError, bad_hello, unspecified_acl, unspecified_default, rejected_by_acl,
  rejected_by_default, acl_action, match_action,
}
use sni_router.Routing.Http3.{Backend, null, Route, route_for_sni, route_loop, default_route}
use sni_router.Routing.Tcp.{Choice, choose_for_sni, choose_loop, choose_default}
use sni_router.Routing.Deciding.{AclAction-cases}

-- A configuration of the QUIC router with the same rules.
abbrev pub map_rule :
    {Regex Net TcpBackend : Type 0}
    → (TcpBackend → Backend)
    → Rule Regex Net TcpBackend
    → Rule Regex Net Backend
map_rule counterpart rule = record {
  re = rule.re;
  backend = (counterpart rule.backend);
  acl = rule.acl;
  timeout = rule.timeout;
}

abbrev pub map_config :
    {Regex Net TcpBackend : Type 0}
    → (TcpBackend → Backend)
    → Config Regex Net TcpBackend
    → Config Regex Net Backend
map_config counterpart config = record {
  max_lifetime = config.max_lifetime;
  handshake_timeout = config.handshake_timeout;
  rules = (map (map_rule counterpart) config.rules);
  default = (map_rule counterpart config.default);
}

abbrev pub backend_of :
    {Text : Type 0} → Outcome RouteError (Route Text) → Outcome RouteError Backend
backend_of (ok route) = ok route.backend
backend_of (err e) = err e
backend_of panic = panic
backend_of out_of_fuel = out_of_fuel

abbrev pub closing :
    {Text TcpBackend : Type 0}
    → (TcpBackend → Backend)
    → Outcome RouteError (Choice Text TcpBackend)
    → Outcome RouteError Backend
closing counterpart (ok choice) = ok (counterpart choice.backend)
closing counterpart (err rejected_by_acl) = ok null
closing counterpart (err rejected_by_default) = ok null
closing counterpart (err (bad_hello e)) = err (bad_hello e)
closing counterpart (err unspecified_acl) = err unspecified_acl
closing counterpart (err unspecified_default) = err unspecified_default
closing counterpart panic = panic
closing counterpart out_of_fuel = out_of_fuel

module _ {Regex Net Text TcpBackend : Type 0} (counterpart : TcpBackend → Backend)
    (is_match : Regex → Text → Bool) (contains : Net → ℕ → Bool) where
  default-agree :
      (config : Config Regex Net TcpBackend) (peer : ℕ) (sni : Option Text)
      → backend_of (default_route is_match contains (map_config counterpart config) peer sni)
        ≡ closing counterpart (choose_default is_match contains config peer)
  unfolding default_route choose_default match_action
  default-agree config peer sni =
      elim (AclAction-cases (acl_action contains config.default.acl peer)) [
        | inl (inl e) ↦ rw e refl
        | inl (inr e) ↦ rw e refl
        | inr (inl e) ↦ rw e refl
        | inr (inr e) ↦ rw e refl
      ]

  loop-agree :
      (config : Config Regex Net TcpBackend) (rules : List (Rule Regex Net TcpBackend)) (peer : ℕ)
      (sni : Text)
      → backend_of (
          route_loop is_match contains
            (map_config counterpart config)
            (map (map_rule counterpart) rules)
            peer
            sni)
        ≡ closing counterpart (choose_loop is_match contains config rules peer sni)
  unfolding route_loop choose_loop match_action
  loop-agree config [] peer sni = default-agree config peer (some sni)
  loop-agree config (rule ∷ rules) peer sni = elim (Bool-cases (is_match rule.re sni)) [
    | inr m ↦ rw m (loop-agree config rules peer sni)
    | inl m ↦ elim (AclAction-cases (acl_action contains rule.acl peer)) [
      | inl (inl e) ↦ rw (m, e) refl
      | inl (inr e) ↦ rw (m, e) (loop-agree config rules peer sni)
      | inr (inl e) ↦ rw (m, e) refl
      | inr (inr e) ↦ rw (m, e) refl
    ]
  ]

  -- On the same rules, for the same peer and the same name or the lack of one, the QUIC router sends to the counterpart
  -- of the TCP router's backend, closes where that one rejects, and fails with its error otherwise.
  pub route_for_sni-choose_for_sni :
      (config : Config Regex Net TcpBackend) (peer : SocketAddr) (sni : Option Text)
      → backend_of (route_for_sni is_match contains (map_config counterpart config) peer sni)
        ≡ closing counterpart (choose_for_sni is_match contains config (peer_ip_v6 peer) sni)
  unfolding route_for_sni choose_for_sni
  route_for_sni-choose_for_sni config peer none = default-agree config (peer_ip_v6 peer) none
  route_for_sni-choose_for_sni config peer (some sni) =
      loop-agree config config.rules (peer_ip_v6 peer) sni
