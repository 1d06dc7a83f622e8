-- ===== src/Routing/Tcp.antt =====
-- The choice that `route_and_connect` of src/main.rs makes before it connects: the rules and the default, on the
-- SNI of the ClientHello, where there is one.
use sni_router.Prelude.{ℕ, Bool, List, [], ◌∷◌, Option, none, some, if◌then◌else◌}
use sni_router.Prelude.Outcomes.{Bytes, Outcome, ok, err, panic, out_of_fuel, ◌>>=◌}
use sni_router.Net.{SocketAddr, peer_ip_v6}
use sni_router.Sni.{HelloError, extract_sni}
use sni_router.Routing.{
  Rule, Config, RouteError, bad_hello, unspecified_acl, unspecified_default, rejected_by_acl,
  rejected_by_default, acl_action, match_action,
}

-- The backend to connect to, with the SNI and the timeout of the `RoutedConnection`.
pub record Choice (Text Backend : Type 0) : Type 0 where
  pub sni : Option Text
  pub backend : Backend
  pub timeout : Option ℕ

-- `extract_sni(..)?` inside a function with the router's error type.
abbrev pub lift_hello {ℓ} : {A : Type ℓ} → Outcome HelloError A → Outcome RouteError A
lift_hello (ok a) = ok a
lift_hello (err e) = err (bad_hello e)
lift_hello panic = panic
lift_hello out_of_fuel = out_of_fuel

module _ {Regex Net Text Backend : Type 0} (is_match : Regex → Text → Bool)
    (contains : Net → ℕ → Bool) where
  -- What follows the `match clienthello`.
  unfoldable pub choose_default :
      Config Regex Net Backend → ℕ → Outcome RouteError (Choice Text Backend)
  unfolding match_action
  choose_default config peer =
      match_action (acl_action contains config.default.acl peer) (err unspecified_default)
        (err rejected_by_default) (err rejected_by_default)
        (ok (record {
          sni = none;
          backend = config.default.backend;
          timeout = config.default.timeout;
        }))

  -- `for rule in &config.rules`
  unfoldable pub choose_loop :
      Config Regex Net Backend
      → List (Rule Regex Net Backend)
      → ℕ
      → Text
      → Outcome RouteError (Choice Text Backend)
  unfolding match_action
  choose_loop config [] peer sni = choose_default config peer
  choose_loop config (rule ∷ rules) peer sni =
      let next = choose_loop config rules peer sni in
      let matched =
        match_action (acl_action contains rule.acl peer) (err unspecified_acl) next
          (err rejected_by_acl)
          (ok (record { sni = (some sni); backend = rule.backend; timeout = rule.timeout })) in
      if is_match rule.re sni then matched else next

  unfoldable pub choose_for_sni :
      Config Regex Net Backend → ℕ → Option Text → Outcome RouteError (Choice Text Backend)
  unfolding choose_default choose_loop
  choose_for_sni config peer none = choose_default config peer
  choose_for_sni config peer (some sni) = choose_loop config config.rules peer sni

  -- The ClientHello is none where `read_tls_clienthello` returned its inner error.
  unfoldable pub choose_backend :
      (Bytes → Text)
      → Config Regex Net Backend
      → SocketAddr
      → Option Bytes
      → Outcome RouteError (Choice Text Backend)
  unfolding ◌>>=◌
  choose_backend from_utf8_lossy config peer none = choose_default config (peer_ip_v6 peer)
  choose_backend from_utf8_lossy config peer (some hello) =
      lift_hello (extract_sni from_utf8_lossy hello) >>= choose_for_sni config (peer_ip_v6 peer)
