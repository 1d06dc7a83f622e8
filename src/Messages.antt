-- ===== src/Messages.antt =====
-- The messages of proto/sni_router.proto, with what src/main.rs and src/bin/sni-router-h3.rs read of them. An action
-- that is unknown reads as unspecified.
use sni_router.Prelude.{ℕ, Bool, true, false, List, Option}
use sni_router.Routing.{AclAction}

pub record AclRulePb (Text : Type 0) : Type 0 where
  pub source : Text
  pub action : AclAction

pub record AclPb (Text : Type 0) : Type 0 where
  pub default_action : AclAction
  pub rules : List (AclRulePb Text)

pub record TlsPb (Text : Type 0) : Type 0 where
  pub cert_file : Text
  pub key_file : Text
  pub mtls_ca : Text

pub record BackendTlsPb (Text : Type 0) : Type 0 where
  pub cert_file : Text
  pub key_file : Text
  pub insecure : Bool

pub data BackendTypePb (Text : Type 0) : Type 0 where
  null_type : BackendTypePb Text
  -- `addr`, `proxy_header` and `backend_tls`
  proxy_type : Text → Bool → Option (BackendTlsPb Text) → BackendTypePb Text
  -- `path`
  pass_type : Text → BackendTypePb Text

mutual
  -- `backend_type`, `frontend_tls` and `sorry`
  pub data BackendPb (Text : Type 0) : Type 0 where
    backend_pb : Option (BackendTypePb Text) → Option (TlsPb Text) → SorryPb Text → BackendPb Text

  pub data SorryPb (Text : Type 0) : Type 0 where
    no_sorry_pb : SorryPb Text
    sorry_pb : BackendPb Text → SorryPb Text

-- `sorry.is_some()`
abbrev pub has_sorry_pb : {Text : Type 0} → SorryPb Text → Bool
has_sorry_pb no_sorry_pb = false
has_sorry_pb (sorry_pb pb) = true

pub record RulePb (Text : Type 0) : Type 0 where
  pub regex : Option Text
  pub acl : Option (AclPb Text)
  pub backend : Option (BackendPb Text)
  pub max_lifetime_ms : ℕ

pub record QuicLbPb (Text : Type 0) : Type 0 where
  pub config_id : ℕ
  pub key_file : Text
  pub servers : List (Option ℕ × Text)

pub record SniConfigPb (Text : Type 0) : Type 0 where
  pub quic_lb : List (QuicLbPb Text)
  pub rules : List (RulePb Text)
  pub default : Option (RulePb Text)
  pub max_lifetime_ms : ℕ
  pub handshake_timeout_ms : ℕ
