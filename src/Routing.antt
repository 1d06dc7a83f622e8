-- ===== src/Routing.antt =====
-- The rules that both routers choose a backend by: `Acl`, `AclRule`, `Rule` and `acl_action` of src/main.rs
-- and of src/bin/sni-router-h3.rs, which declare them alike. A compiled regular expression and an IPv6 network
-- are parameters, with their tests; a backend is one of either router.
pub mod Http3
pub mod Tcp
pub mod Deciding
pub mod Safety
pub mod Agreement
use sni_router.Prelude.{ℕ, Bool, true, false, List, [], ◌∷◌, Option, if◌then◌else◌}
use sni_router.Sni.{HelloError}

pub data AclAction : Type 0 where
  unspecified accept drop continue : AclAction

-- `action == Unspecified`
abbrev pub is_unspecified : AclAction → Bool
is_unspecified unspecified = true
is_unspecified accept = false
is_unspecified drop = false
is_unspecified continue = false

pub record AclRule (Net : Type 0) : Type 0 where
  pub source : Net
  pub action : AclAction

pub record Acl (Net : Type 0) : Type 0 where
  pub rules : List (AclRule Net)
  pub default_action : AclAction

-- The timeout is in milliseconds.
pub record Rule (Regex Net Backend : Type 0) : Type 0 where
  pub re : Regex
  pub backend : Backend
  pub acl : Acl Net
  pub timeout : Option ℕ

pub record Config (Regex Net Backend : Type 0) : Type 0 where
  pub max_lifetime : Option ℕ
  pub handshake_timeout : Option ℕ
  pub rules : List (Rule Regex Net Backend)
  pub default : Rule Regex Net Backend

-- What `bail!` and `Err` report of a choice.
pub data RouteError : Type 0 where
  bad_hello : HelloError → RouteError
  unspecified_acl unspecified_default rejected_by_acl rejected_by_default : RouteError

-- `match acl_action(..)`, with the result of each arm.
unfoldable pub match_action {ℓ} : {A : Type ℓ} → AclAction → A → A → A → A → A
match_action unspecified on_unspecified on_continue on_drop on_accept = on_unspecified
match_action continue on_unspecified on_continue on_drop on_accept = on_continue
match_action drop on_unspecified on_continue on_drop on_accept = on_drop
match_action accept on_unspecified on_continue on_drop on_accept = on_accept

module _ {Net : Type 0} (contains : Net → ℕ → Bool) where
  -- `for rule in &acl.rules`, with the default after the loop.
  pub first_action : List (AclRule Net) → AclAction → ℕ → AclAction
  first_action [] default peer = default
  first_action (rule ∷ rules) default peer =
      if contains rule.source peer then rule.action else first_action rules default peer

  unfoldable pub acl_action : Acl Net → ℕ → AclAction
  unfolding first_action
  acl_action acl peer = first_action acl.rules acl.default_action peer
