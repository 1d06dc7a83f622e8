-- ===== src/Loading/Tcp.antt =====
-- The loading of the TCP router's configuration: `load_tls`, `load_backend_tls`, `load_backend`, `load_rule` and
-- `load_config` of src/main.rs. `load_acl` and `compile_full_match` are as in the QUIC router.
pub mod Loaded
pub mod Backends
pub mod Agreement
use sni_router.Prelude.{
  ℕ, Bool, true, false, not, ◌&&◌, List, [], ◌∷◌, Option, none, some, if◌then◌else◌,
}
use sni_router.Prelude.Maps.{is_some}
use sni_router.Prelude.Outcomes.{Outcome, ok, ◌>>=◌, ◌>>◌, bail_if, ok_or}
use sni_router.Routing.{Rule}
use sni_router.Routing
use sni_router.Backends.{Backend, null, pass, proxy, Sorry, no_sorry, sorry, has_sorry}
use sni_router.Messages.{
  TlsPb, BackendTlsPb, BackendTypePb, null_type, proxy_type, pass_type, BackendPb, backend_pb,
  SorryPb, no_sorry_pb, sorry_pb, has_sorry_pb, RulePb, SniConfigPb,
}
use sni_router.Loading.{
  Loader, LoadError, no_backend_type, default_regex, no_backend, no_default, sorry_of_sorry,
  empty_sorry, null_with_sorry, header_with_backend_tls, half_credentials, bad_tls, positive,
  load_acl_or_accept, load_regex,
}

-- The files of certificates and keys, as they are read, and what rustls makes of them.
pub record TlsLoader (Text : Type 0) : Type 1 where
  pub Cert : Type 0
  pub Key : Type 0
  pub Roots : Type 0
  pub Verifier : Type 0
  pub ServerConfig : Type 0
  pub ClientConfig : Type 0
  pub is_empty : Text → Bool
  pub load_certs : Text → Option (List Cert)
  pub load_private_key : Text → Option Key
  pub no_roots : Roots
  pub add_root : Roots → Cert → Option Roots
  pub client_verifier : Roots → Option Verifier
  -- with `allow_keylogging`
  pub server_config : Option Verifier → List Cert → Key → Bool → Option ServerConfig
  -- with `insecure`, the client credentials and `allow_keylogging`
  pub client_config : Bool → Option (List Cert × Key) → Bool → Option ClientConfig

module _ (env : Loader) (tls : TlsLoader (env.Text)) (allow_keylogging : Bool) where
  open env use {Regex, Net, Text, has_pattern}
  open tls use {
    Cert, Key, Roots, Verifier, ServerConfig, ClientConfig, is_empty, load_certs, load_private_key,
    no_roots, add_root, client_verifier, server_config, client_config,
  }

  pub add_roots : List Cert → Roots → Outcome LoadError Roots
  add_roots [] roots = ok roots
  add_roots (cert ∷ certs) roots = do
    added ← ok_or (add_root roots cert) bad_tls
    add_roots certs added

  unfoldable pub load_root_store : Text → Outcome LoadError Roots
  unfolding add_roots
  load_root_store path = do certs ← ok_or (load_certs path) bad_tls; add_roots certs no_roots

  pub load_verifier : Text → Outcome LoadError (Option Verifier)
  unfolding load_root_store
  load_verifier mtls_ca =
      let verifier = (do
        roots ← load_root_store mtls_ca
        verifier ← ok_or (client_verifier roots) bad_tls
        ok (some verifier)) in
      if is_empty mtls_ca then ok none else verifier

  unfoldable pub load_tls : Option (TlsPb Text) → Outcome LoadError (Option ServerConfig)
  unfolding load_verifier
  load_tls none = ok none
  load_tls (some pb) = do
    certs ← ok_or (load_certs pb.cert_file) bad_tls
    key ← ok_or (load_private_key pb.key_file) bad_tls
    verifier ← load_verifier pb.mtls_ca
    cfg ← ok_or (server_config verifier certs key allow_keylogging) bad_tls
    ok (some cfg)

  pub load_credentials : BackendTlsPb Text → Outcome LoadError (Option (List Cert × Key))
  load_credentials pb =
      let credentials = (do
        certs ← ok_or (load_certs pb.cert_file) bad_tls
        key ← ok_or (load_private_key pb.key_file) bad_tls
        ok (some (certs, key))) in
      if is_empty pb.cert_file then ok none else credentials

  -- Client credentials are both given or both left out.
  unfoldable pub load_backend_tls : BackendTlsPb Text → Outcome LoadError ClientConfig
  unfolding load_credentials
  load_backend_tls pb = do
    bail_if (if is_empty pb.cert_file then not (is_empty pb.key_file) else is_empty pb.key_file)
        half_credentials
    credentials ← load_credentials pb
    ok_or (client_config pb.insecure credentials allow_keylogging) bad_tls

  -- `p.backend_tls.as_ref().map(..).transpose()?`
  abbrev pub load_backend_tls_or_none :
      Option (BackendTlsPb Text) → Outcome LoadError (Option ClientConfig)
  load_backend_tls_or_none none = ok none
  load_backend_tls_or_none (some pb) = do cfg ← load_backend_tls pb; ok (some cfg)

  -- `match be`, once the sorry backend is loaded.
  pub load_backend_with :
      BackendTypePb Text
      → Option (TlsPb Text)
      → Sorry Text ServerConfig ClientConfig
      → Outcome LoadError (Backend Text ServerConfig ClientConfig)
  load_backend_with null_type frontend_tls s = bail_if (has_sorry s) null_with_sorry >> ok null
  load_backend_with (proxy_type addr proxy_header backend_tls) frontend_tls s = do
    bail_if (proxy_header && is_some backend_tls) header_with_backend_tls
    server ← load_tls frontend_tls
    client ← load_backend_tls_or_none backend_tls
    ok (proxy addr proxy_header server client s)
  load_backend_with (pass_type path) frontend_tls s = do
    server ← load_tls frontend_tls
    ok (pass path server s)

  -- A sorry backend has none of its own, so that the recursive call is on one without.
  pub load_sorry : SorryPb Text → Outcome LoadError (Sorry Text ServerConfig ClientConfig)
  load_sorry no_sorry_pb = ok no_sorry
  load_sorry (sorry_pb (backend_pb backend_type frontend_tls s)) = do
    bail_if (has_sorry_pb s) sorry_of_sorry
    be ← ok_or backend_type empty_sorry
    backend ← load_backend_with be frontend_tls no_sorry
    ok (sorry backend)

  unfoldable pub load_tcp_backend :
      BackendTypePb Text
      → Option (TlsPb Text)
      → SorryPb Text
      → Outcome LoadError (Backend Text ServerConfig ClientConfig)
  unfolding load_backend_with load_sorry
  load_tcp_backend be frontend_tls s = do
    loaded ← load_sorry s
    load_backend_with be frontend_tls loaded

  -- The backend of a rule's message.
  abbrev pub load_message :
      BackendPb Text → Outcome LoadError (Backend Text ServerConfig ClientConfig)
  load_message (backend_pb backend_type frontend_tls s) = do
    be ← ok_or backend_type no_backend_type
    load_tcp_backend be frontend_tls s

  unfoldable pub load_tcp_rule :
      RulePb Text
      → Bool
      → Outcome LoadError (Rule Regex Net (Backend Text ServerConfig ClientConfig))
  unfolding load_tcp_backend
  load_tcp_rule pb is_default = do
    re ← load_regex env pb.regex is_default
    acl ← load_acl_or_accept env pb.acl
    message ← ok_or pb.backend no_backend
    backend ← load_message message
    ok (record { re = re; backend = backend; acl = acl; timeout = positive pb.max_lifetime_ms })

  pub load_tcp_rules :
      List (RulePb Text)
      → Outcome LoadError (List (Rule Regex Net (Backend Text ServerConfig ClientConfig)))
  load_tcp_rules [] = ok []
  load_tcp_rules (pb ∷ pbs) = do
    rule ← load_tcp_rule pb false
    rules ← load_tcp_rules pbs
    ok (rule ∷ rules)

  unfoldable pub load_tcp_config :
      SniConfigPb Text
      → Outcome LoadError (Routing.Config Regex Net (Backend Text ServerConfig ClientConfig))
  unfolding load_tcp_rule load_tcp_rules
  load_tcp_config pb = do
    default_pb ← ok_or pb.default no_default
    default ← load_tcp_rule default_pb true
    bail_if (has_pattern default.re) default_regex
    rules ← load_tcp_rules pb.rules
    ok (record {
      max_lifetime = positive pb.max_lifetime_ms;
      handshake_timeout = positive pb.handshake_timeout_ms;
      rules = rules;
      default = default;
    })
