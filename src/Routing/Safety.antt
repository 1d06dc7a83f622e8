-- ===== src/Routing/Safety.antt =====
-- `route_for_sni` of src/bin/sni-router-h3.rs returns or fails.
use sni_router.Prelude.{
  false, arith, refl, ◌≡◌, ℕ, inl, inr, Bool, List, [], ◌∷◌, Option, none, some, Bool-cases,
}
use sni_router.Prelude.Outcomes.{ok, Post, returns, fails}
use sni_router.Net.{SocketAddr, peer_ip_v6}
use sni_router.Routing.{
  AclAction, is_unspecified, AclRule, Acl, Rule, Config, first_action, acl_action, match_action,
}
use sni_router.Routing.Deciding.{AclAction-cases}
use sni_router.Routing.Http3.{Route, Backend, default_route, route_loop, route_for_sni}

-- An ACL none of whose actions is unspecified.
abbrev pub Specified : {Net : Type 0} → List (AclRule Net) → Type 0
Specified [] = Unit {0}
Specified (rule ∷ rules) = (is_unspecified rule.action ≡ false) × Specified rules

abbrev pub IsComplete : {Net : Type 0} → Acl Net → Type 0
IsComplete acl = Specified acl.rules × (is_unspecified acl.default_action ≡ false)

abbrev pub AllComplete : {Regex Net : Type 0} → List (Rule Regex Net Backend) → Type 0
AllComplete [] = Unit {0}
AllComplete (rule ∷ rules) = IsComplete rule.acl × AllComplete rules

module _ {Regex Net Text : Type 0} (is_match : Regex → Text → Bool)
    (contains : Net → ℕ → Bool) where
  default_route-Post :
      (config : Config Regex Net Backend) (peer : ℕ) (sni : Option Text)
      → Post (λ _. Unit {0}) (default_route is_match contains config peer sni)
  unfolding default_route match_action
  default_route-Post config peer sni =
      elim (AclAction-cases (acl_action contains config.default.acl peer)) [
        | inl (inl e) ↦ rw e (returns tt)
        | inl (inr e) ↦ rw e (returns tt)
        | inr (inl e) ↦ rw e (returns tt)
        | inr (inr e) ↦ rw e fails
      ]

  route_loop-Post :
      (config : Config Regex Net Backend) (rules : List (Rule Regex Net Backend)) (peer : ℕ)
      (sni : Text)
      → Post (λ _. Unit {0}) (route_loop is_match contains config rules peer sni)
  unfolding route_loop match_action
  route_loop-Post config [] peer sni = default_route-Post config peer (some sni)
  route_loop-Post config (rule ∷ rules) peer sni = elim (Bool-cases (is_match rule.re sni)) [
    | inr m ↦ rw m (route_loop-Post config rules peer sni)
    | inl m ↦ elim (AclAction-cases (acl_action contains rule.acl peer)) [
      | inl (inl e) ↦ rw (m, e) (returns tt)
      | inl (inr e) ↦ rw (m, e) (route_loop-Post config rules peer sni)
      | inr (inl e) ↦ rw (m, e) (returns tt)
      | inr (inr e) ↦ rw (m, e) fails
    ]
  ]

  -- The routing of a datagram never panics.
  pub route_for_sni-Post :
      (config : Config Regex Net Backend) (peer : SocketAddr) (sni : Option Text)
      → Post (λ _. Unit {0}) (route_for_sni is_match contains config peer sni)
  unfolding route_for_sni
  route_for_sni-Post config peer none = default_route-Post config (peer_ip_v6 peer) none
  route_for_sni-Post config peer (some sni) =
      route_loop-Post config config.rules (peer_ip_v6 peer) sni

  first_action-Specified :
      (rules : List (AclRule Net)) (default : AclAction) (peer : ℕ)
      → Specified rules
      → is_unspecified default ≡ false
      → is_unspecified (first_action contains rules default peer) ≡ false
  unfolding first_action
  first_action-Specified [] default peer s d = d
  first_action-Specified (rule ∷ rules) default peer (s, ss) d =
      elim (Bool-cases (contains rule.source peer)) [
        | inl e ↦ rw e s
        | inr e ↦ rw e (first_action-Specified rules default peer ss d)
      ]

  acl_action-specified :
      (acl : Acl Net) (peer : ℕ)
      → IsComplete acl
      → is_unspecified (acl_action contains acl peer) ≡ false
  unfolding acl_action
  acl_action-specified acl peer (s, d) =
      first_action-Specified acl.rules acl.default_action peer s d

  default_route-ok :
      (config : Config Regex Net Backend) (peer : ℕ) (sni : Option Text)
      → IsComplete config.default.acl
      → (route : Route Text) × (default_route is_match contains config peer sni ≡ ok route)
  unfolding default_route match_action
  default_route-ok config peer sni c =
      let specified = acl_action-specified config.default.acl peer c in
      elim (AclAction-cases (acl_action contains config.default.acl peer)) [
        | inl (inl e) ↦ rw e (_, refl)
        | inl (inr e) ↦ rw e (_, refl)
        | inr (inl e) ↦ rw e (_, refl)
        | inr (inr e) ↦ absurd (ground (arith, e, specified))
      ]

  route_loop-ok :
      (config : Config Regex Net Backend) (rules : List (Rule Regex Net Backend)) (peer : ℕ)
      (sni : Text)
      → AllComplete rules
      → IsComplete config.default.acl
      → (route : Route Text) × (route_loop is_match contains config rules peer sni ≡ ok route)
  unfolding route_loop match_action
  route_loop-ok config [] peer sni a c = default_route-ok config peer (some sni) c
  route_loop-ok config (rule ∷ rules) peer sni (s, a) c =
      let specified = acl_action-specified rule.acl peer s in
      let next = route_loop-ok config rules peer sni a c in
      elim (Bool-cases (is_match rule.re sni)) [
        | inr m ↦ rw m next
        | inl m ↦ elim (AclAction-cases (acl_action contains rule.acl peer)) [
          | inl (inl e) ↦ rw (m, e) (_, refl)
          | inl (inr e) ↦ rw (m, e) next
          | inr (inl e) ↦ rw (m, e) (_, refl)
          | inr (inr e) ↦ absurd (ground (arith, e, specified))
        ]
      ]

  -- Where no ACL has an unspecified action, every datagram is routed, whatever its peer and its host name.
  pub route_for_sni-ok :
      (config : Config Regex Net Backend) (peer : SocketAddr) (sni : Option Text)
      → AllComplete config.rules
      → IsComplete config.default.acl
      → (route : Route Text) × (route_for_sni is_match contains config peer sni ≡ ok route)
  unfolding route_for_sni
  route_for_sni-ok config peer none a c = default_route-ok config (peer_ip_v6 peer) none c
  route_for_sni-ok config peer (some sni) a c =
      route_loop-ok config config.rules (peer_ip_v6 peer) sni a c
