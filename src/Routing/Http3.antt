-- ===== src/Routing/Http3.antt =====
-- `route_for_sni` and `min_timeout` of src/bin/sni-router-h3.rs.
use sni_router.Prelude.{ℕ, min, Bool, List, [], ◌∷◌, Option, none, some, if◌then◌else◌}
use sni_router.Prelude.Outcomes.{Outcome, ok, err}
use sni_router.Net.{SocketAddr, peer_ip_v6}
use sni_router.Routing.{
  Rule, Config, RouteError, unspecified_acl, unspecified_default, acl_action, match_action,
}

pub data Backend : Type 0 where
  null : Backend
  udp : SocketAddr → Backend

pub record Route (Text : Type 0) : Type 0 where
  pub backend : Backend
  pub timeout : Option ℕ
  pub sni : Option Text

unfoldable pub min_timeout : Option ℕ → Option ℕ → Option ℕ
min_timeout (some a) (some b) = some (min a b)
min_timeout (some a) none = some a
min_timeout none (some b) = some b
min_timeout none none = none

-- `Route { backend, timeout: min_timeout(self.config.max_lifetime, rule.timeout), sni }`
abbrev pub route_to :
    {Regex Net Text : Type 0}
    → Config Regex Net Backend
    → Rule Regex Net Backend
    → Backend
    → Option Text
    → Route Text
route_to config rule backend sni = record {
  backend = backend;
  timeout = (min_timeout config.max_lifetime rule.timeout);
  sni = sni;
}

module _ {Regex Net Text : Type 0} (is_match : Regex → Text → Bool)
    (contains : Net → ℕ → Bool) where
  unfoldable pub default_route :
      Config Regex Net Backend → ℕ → Option Text → Outcome RouteError (Route Text)
  unfolding match_action
  default_route config peer sni =
      match_action (acl_action contains config.default.acl peer) (err unspecified_default)
        (ok (route_to config config.default null sni))
        (ok (route_to config config.default null sni))
        (ok (route_to config config.default config.default.backend sni))

  -- `for rule in &self.config.rules`, with what follows the loop.
  unfoldable pub route_loop :
      Config Regex Net Backend
      → List (Rule Regex Net Backend)
      → ℕ
      → Text
      → Outcome RouteError (Route Text)
  unfolding match_action
  route_loop config [] peer sni = default_route config peer (some sni)
  route_loop config (rule ∷ rules) peer sni =
      let next = route_loop config rules peer sni in
      let matched =
        match_action (acl_action contains rule.acl peer) (err unspecified_acl) next
          (ok (route_to config rule null (some sni)))
          (ok (route_to config rule rule.backend (some sni))) in
      if is_match rule.re sni then matched else next

  unfoldable pub route_for_sni :
      Config Regex Net Backend → SocketAddr → Option Text → Outcome RouteError (Route Text)
  unfolding default_route route_loop
  route_for_sni config peer none = default_route config (peer_ip_v6 peer) none
  route_for_sni config peer (some sni) = route_loop config config.rules (peer_ip_v6 peer) sni
