-- ===== src/Loading/Tcp/Loaded.antt =====
-- What the TCP router loads from the message of a backend: its TLS on both sides, and its sorry backend.
use sni_router.Prelude.{◌≡◌, Bool, true, false, ◌&&◌, List, [], ◌∷◌, Option, none, some}
use sni_router.Prelude.Maps.{is_some}
use sni_router.Routing.{Rule}
use sni_router.Backends.{Backend, null, pass, proxy, Sorry, no_sorry, sorry}
use sni_router.Messages.{
  TlsPb, BackendTlsPb, BackendTypePb, null_type, proxy_type, pass_type, BackendPb, backend_pb,
  SorryPb, no_sorry_pb, sorry_pb, RulePb,
}
use sni_router.Loading.{Loader}
use sni_router.Loading.Loaded.{limit, RegexLoaded, AclLoaded}
use sni_router.Loading.Tcp.{TlsLoader}

module _ (env : Loader) (tls : TlsLoader (env.Text)) (allow_keylogging : Bool) where
  open env use {Regex, Net, Text}
  open tls use {
    Cert, Key, Roots, Verifier, ServerConfig, ClientConfig, is_empty, load_certs, load_private_key,
    no_roots, add_root, client_verifier, server_config, client_config,
  }

  -- All certificates are added to the roots.
  pub data Added : List Cert → Roots → Roots → Type 0 where
    all_added : {roots : Roots} → Added [] roots roots
    added :
        {cert : Cert} {certs : List Cert} {roots roots1 roots2 : Roots}
        → add_root roots cert ≡ some roots1
        → Added certs roots1 roots2
        → Added (cert ∷ certs) roots roots2

  -- Clients are verified where and only where there is a file for it, by all of its certificates.
  abbrev pub VerifierLoaded : Text → Option Verifier → Type 0
  VerifierLoaded ca none = is_empty ca ≡ true
  VerifierLoaded ca (some verifier) =
      (is_empty ca ≡ false)
      × ((certs : List Cert) × (roots : Roots) × (load_certs ca ≡ some certs)
          × Added certs no_roots roots
          × (client_verifier roots ≡ some verifier))

  -- TLS with the client is set up where and only where the message asks for it, from its files.
  abbrev pub TlsLoaded : Option (TlsPb Text) → Option ServerConfig → Type 0
  TlsLoaded none none = Unit {0}
  TlsLoaded none (some cfg) = ⊥
  TlsLoaded (some pb) none = ⊥
  TlsLoaded (some pb) (some cfg) =
      (certs : List Cert) × (key : Key) × (verifier : Option Verifier) × (load_certs pb.cert_file
        ≡ some certs)
      × (load_private_key pb.key_file ≡ some key)
      × VerifierLoaded pb.mtls_ca verifier
      × (server_config verifier certs key allow_keylogging ≡ some cfg)

  -- Credentials for the backend: both files are given, or neither.
  abbrev pub CredentialsLoaded : BackendTlsPb Text → Option (List Cert × Key) → Type 0
  CredentialsLoaded pb none = (is_empty pb.cert_file ≡ true) × (is_empty pb.key_file ≡ true)
  CredentialsLoaded pb (some (certs, key)) =
      ((is_empty pb.cert_file ≡ false) × (is_empty pb.key_file ≡ false))
      × (load_certs pb.cert_file ≡ some certs)
      × (load_private_key pb.key_file ≡ some key)

  -- The same with the backend.
  abbrev pub BackendTlsLoaded : Option (BackendTlsPb Text) → Option ClientConfig → Type 0
  BackendTlsLoaded none none = Unit {0}
  BackendTlsLoaded none (some cfg) = ⊥
  BackendTlsLoaded (some pb) none = ⊥
  BackendTlsLoaded (some pb) (some cfg) =
      (credentials : Option (List Cert × Key)) × CredentialsLoaded pb credentials
      × (client_config pb.insecure credentials allow_keylogging ≡ some cfg)

  -- What a backend is loaded from: its type, its `frontend_tls`, and the sorry backend that it gets. That of a null
  -- backend is not looked at.
  pub data From
      : BackendTypePb Text
        → Option (TlsPb Text)
        → Sorry Text ServerConfig ClientConfig
        → Backend Text ServerConfig ClientConfig
        → Type 0 where
    from_null : {frontend_tls : Option (TlsPb Text)} → From null_type frontend_tls no_sorry null
    from_proxy :
        {addr : Text} {proxy_header : Bool} {backend_tls : Option (BackendTlsPb Text)}
        {frontend_tls : Option (TlsPb Text)} {server : Option ServerConfig}
        {client : Option ClientConfig} {s : Sorry Text ServerConfig ClientConfig}
        → TlsLoaded frontend_tls server
        → BackendTlsLoaded backend_tls client
        → (proxy_header && is_some backend_tls) ≡ false
        → From
            (proxy_type addr proxy_header backend_tls)
            frontend_tls
            s
            (proxy addr proxy_header server client s)
    from_pass :
        {path : Text} {frontend_tls : Option (TlsPb Text)} {server : Option ServerConfig}
        {s : Sorry Text ServerConfig ClientConfig}
        → TlsLoaded frontend_tls server
        → From (pass_type path) frontend_tls s (pass path server s)

  -- A sorry backend has no sorry backend.
  pub data FromSorry : SorryPb Text → Sorry Text ServerConfig ClientConfig → Type 0 where
    from_none : FromSorry no_sorry_pb no_sorry
    from_some :
        {be : BackendTypePb Text} {frontend_tls : Option (TlsPb Text)}
        {backend : Backend Text ServerConfig ClientConfig}
        → From be frontend_tls no_sorry backend
        → FromSorry (sorry_pb (backend_pb (some be) frontend_tls no_sorry_pb)) (sorry backend)

  pub data FromMessage : BackendPb Text → Backend Text ServerConfig ClientConfig → Type 0 where
    from_message :
        {be : BackendTypePb Text} {frontend_tls : Option (TlsPb Text)} {pb : SorryPb Text}
        {s : Sorry Text ServerConfig ClientConfig}
        {backend : Backend Text ServerConfig ClientConfig}
        → FromSorry pb s
        → From be frontend_tls s backend
        → FromMessage (backend_pb (some be) frontend_tls pb) backend

  -- What is loaded from the message of a rule.
  abbrev pub TcpRuleLoaded :
      Bool → RulePb Text → Rule Regex Net (Backend Text ServerConfig ClientConfig) → Type 0
  TcpRuleLoaded is_default pb rule =
      RegexLoaded env is_default pb.regex rule.re
      × AclLoaded env pb.acl rule.acl
      × ((message : BackendPb Text) × (pb.backend ≡ some message)
          × FromMessage message rule.backend)
      × (rule.timeout ≡ limit pb.max_lifetime_ms)
