-- ===== src/Loading/Tcp/Backends.antt =====
-- Which configurations the TCP router loads.
use sni_router.Prelude.{
  ◌≡◌, inl, inr, Bool, true, false, not, List, [], ◌∷◌, Option, none, some, Bool-cases,
  if◌then◌else◌, arith,
}
use sni_router.Prelude.Outcomes.{
  Post, returns, fails, Post-bind, Post-bail_if, Post-ok_or, Post-weaken, run_steps,
}
use sni_router.Routing
use sni_router.Backends.{Backend, Sorry, no_sorry, sorry}
use sni_router.Messages.{
  TlsPb, BackendTlsPb, BackendTypePb, null_type, proxy_type, pass_type, BackendPb, backend_pb,
  SorryPb, no_sorry_pb, sorry_pb, RulePb, SniConfigPb,
}
use sni_router.Loading.{Loader}
use sni_router.Loading.Loaded.{Pairwise, limit}
use sni_router.Loading.Parts.{ok_or-Post, positive-limit, load_acl_or_accept-Post, load_regex-Post}
use sni_router.Loading.Tcp.{
  TlsLoader, add_roots, load_root_store, load_verifier, load_tls, load_credentials,
  load_backend_tls, load_backend_tls_or_none, load_backend_with, load_sorry, load_tcp_backend,
  load_message, load_tcp_rule, load_tcp_rules, load_tcp_config,
}
use sni_router.Loading.Tcp.Loaded.{
  Added, all_added, added, VerifierLoaded, TlsLoaded, CredentialsLoaded, BackendTlsLoaded, From,
  from_null, from_proxy, from_pass, FromSorry, from_none, from_some, FromMessage, from_message,
  TcpRuleLoaded,
}

module _ (env : Loader) (tls : TlsLoader (env.Text)) (allow_keylogging : Bool) where
  open env use {Regex, Net, Text, has_pattern}
  open tls use {Cert, Roots, ServerConfig, ClientConfig, is_empty, load_certs, no_roots}

  add_roots-Post :
      (certs : List Cert) (roots : Roots)
      → Post
          (Added env tls allow_keylogging certs roots)
          (add_roots env tls allow_keylogging certs roots)
  unfolding add_roots
  add_roots-Post [] roots = returns all_added
  add_roots-Post (cert ∷ certs) roots =
      Post-ok_or _ _ _ λ roots1 e. Post-weaken (add_roots-Post certs roots1) λ roots2 a. added e a

  load_root_store-Post :
      (ca : Text)
      → Post
          (λ roots.
            (certs : List Cert) × (load_certs ca ≡ some certs)
            × Added env tls allow_keylogging certs no_roots roots)
          (load_root_store env tls allow_keylogging ca)
  unfolding load_root_store
  load_root_store-Post ca =
      Post-ok_or _ _ _
        λ certs c. Post-weaken (add_roots-Post certs no_roots) λ roots a. (certs, c, a)

  load_verifier-Post :
      (ca : Text)
      → Post
          (VerifierLoaded env tls allow_keylogging ca)
          (load_verifier env tls allow_keylogging ca)
  unfolding load_verifier
  load_verifier-Post ca = elim (Bool-cases (is_empty ca)) [
    | inl e ↦ rw e (returns e)
    | inr e ↦ rw e (
        Post-bind _ _ (load_root_store-Post ca) λ roots (certs, c, a).
          Post-ok_or _ _ _ λ verifier v. returns (e, (certs, roots, c, a, v)))
  ]

  load_tls-Post :
      (pb : Option (TlsPb Text))
      → Post (TlsLoaded env tls allow_keylogging pb) (load_tls env tls allow_keylogging pb)
  unfolding load_tls
  load_tls-Post none = returns tt
  load_tls-Post (some pb) = Post-ok_or _ _ _ λ certs c. Post-ok_or _ _ _ λ key k.
      Post-bind _ _ (load_verifier-Post pb.mtls_ca)
        λ verifier v. Post-ok_or _ _ _ λ cfg e. returns (certs, key, verifier, c, k, v, e)

  load_credentials-Post :
      (pb : BackendTlsPb Text)
      → (if is_empty pb.cert_file then not (is_empty pb.key_file) else is_empty pb.key_file) ≡ false
      → Post
          (CredentialsLoaded env tls allow_keylogging pb)
          (load_credentials env tls allow_keylogging pb)
  unfolding load_credentials
  load_credentials-Post pb both = elim (Bool-cases (is_empty pb.cert_file)) [
    | inl e ↦ rw e (returns (e, ground (arith, both, e)))
    | inr e ↦ rw e (
        Post-ok_or _ _ _
          λ certs c. Post-ok_or _ _ _ λ key k. returns ((e, ground (arith, both, e)), c, k))
  ]

  client-Post :
      (pb : BackendTlsPb Text)
      → Post
          (λ cfg. BackendTlsLoaded env tls allow_keylogging (some pb) (some cfg))
          (load_backend_tls env tls allow_keylogging pb)
  unfolding load_backend_tls
  client-Post pb = Post-bail_if _ _ _ λ both.
      Post-bind _ _ (load_credentials-Post pb both)
        λ credentials c. ok_or-Post _ _ λ cfg e. (credentials, c, e)

  load_backend_tls-Post :
      (pb : Option (BackendTlsPb Text))
      → Post
          (BackendTlsLoaded env tls allow_keylogging pb)
          (load_backend_tls_or_none env tls allow_keylogging pb)
  load_backend_tls-Post none = returns tt
  load_backend_tls-Post (some pb) = Post-bind _ _ (client-Post pb) λ cfg loaded. returns loaded

  load_backend_with-Post :
      (be : BackendTypePb Text) (frontend_tls : Option (TlsPb Text))
      (s : Sorry Text ServerConfig ClientConfig)
      → Post
          (From env tls allow_keylogging be frontend_tls s)
          (load_backend_with env tls allow_keylogging be frontend_tls s)
  unfolding load_backend_with
  load_backend_with-Post null_type frontend_tls no_sorry = Post-bail_if _ _ _ λ _. returns from_null
  load_backend_with-Post null_type frontend_tls (sorry b) = Post-bail_if _ _ _ λ e. absurd (cc)
  load_backend_with-Post (proxy_type addr proxy_header backend_tls) frontend_tls s =
      Post-bail_if _ _ _ λ apart. Post-bind _ _ (load_tls-Post frontend_tls) λ server f.
        Post-bind _ _ (load_backend_tls-Post backend_tls) λ client b. returns (from_proxy f b apart)
  load_backend_with-Post (pass_type path) frontend_tls s =
      Post-bind _ _ (load_tls-Post frontend_tls) λ server f. returns (from_pass f)

  load_sorry-Post :
      (pb : SorryPb Text)
      → Post (FromSorry env tls allow_keylogging pb) (load_sorry env tls allow_keylogging pb)
  unfolding run_steps load_sorry
  load_sorry-Post no_sorry_pb = returns from_none
  load_sorry-Post (sorry_pb (backend_pb none frontend_tls no_sorry_pb)) = fails
  load_sorry-Post (sorry_pb (backend_pb none frontend_tls (sorry_pb s))) = fails
  load_sorry-Post (sorry_pb (backend_pb (some be) frontend_tls (sorry_pb s))) = fails
  load_sorry-Post (sorry_pb (backend_pb (some be) frontend_tls no_sorry_pb)) =
      Post-bind _ _ (load_backend_with-Post be frontend_tls no_sorry)
        λ backend f. returns (from_some f)

  load_message-Post :
      (pb : BackendPb Text)
      → Post (FromMessage env tls allow_keylogging pb) (load_message env tls allow_keylogging pb)
  unfolding run_steps load_tcp_backend
  load_message-Post (backend_pb none frontend_tls s) = fails
  load_message-Post (backend_pb (some be) frontend_tls s) =
      Post-bind _ _ (load_sorry-Post s) λ loaded fs.
        Post-weaken (load_backend_with-Post be frontend_tls loaded) λ backend f. from_message fs f

  load_tcp_rule-Post :
      (pb : RulePb Text) (is_default : Bool)
      → Post
          (TcpRuleLoaded env tls allow_keylogging is_default pb)
          (load_tcp_rule env tls allow_keylogging pb is_default)
  unfolding load_tcp_rule
  load_tcp_rule-Post pb is_default = Post-bind _ _ (load_regex-Post env pb.regex is_default) λ re p.
      Post-bind _ _ (load_acl_or_accept-Post env pb.acl) λ acl a. Post-ok_or _ _ _ λ message e.
        Post-bind _ _ (load_message-Post message)
          λ backend f. returns (p, a, (message, e, f), positive-limit pb.max_lifetime_ms)

  load_tcp_rules-Post :
      (pbs : List (RulePb Text))
      → Post
          (Pairwise (TcpRuleLoaded env tls allow_keylogging false) pbs)
          (load_tcp_rules env tls allow_keylogging pbs)
  unfolding load_tcp_rules
  load_tcp_rules-Post [] = returns tt
  load_tcp_rules-Post (pb ∷ pbs) =
      Post-bind _ _ (load_tcp_rule-Post pb false)
        λ rule r. Post-bind _ _ (load_tcp_rules-Post pbs) λ rules more. returns (r, more)

  abbrev pub IsTcpLoaded :
      SniConfigPb Text → Routing.Config Regex Net (Backend Text ServerConfig ClientConfig) → Type 0
  IsTcpLoaded pb config =
      Pairwise (TcpRuleLoaded env tls allow_keylogging false) pb.rules config.rules
      × ((default_pb : RulePb Text) × (pb.default ≡ some default_pb)
          × TcpRuleLoaded env tls allow_keylogging true default_pb config.default
          × (has_pattern config.default.re ≡ false))
      × (config.max_lifetime ≡ limit pb.max_lifetime_ms)
      × (config.handshake_timeout ≡ limit pb.handshake_timeout_ms)

  -- The TCP router's loading of any message returns or fails. A configuration that it returns is that of the message:
  -- it has the rules of the message in its order, and its default, each with the pattern, the ACL, the backend and the
  -- time limit of its own message, and the limits of the message. An ACL has the networks, actions and default action
  -- of its message, no rule of it having an unspecified action, or accepts everyone where there is none; the default
  -- has no pattern. A backend that is not null has TLS with its clients just where the message asks for it, which
  -- verifies them just where there is a file for that; one with an address has TLS with the backend just where the
  -- message asks for it, with credentials where both files are given, and no PROXY header before that. There is a
  -- sorry backend just where the message has one, which has no sorry backend itself and does not stand in for a null
  -- backend.
  pub load_tcp_config-Post :
      (pb : SniConfigPb Text) → Post (IsTcpLoaded pb) (load_tcp_config env tls allow_keylogging pb)
  unfolding load_tcp_config
  load_tcp_config-Post pb = Post-ok_or _ _ _ λ default_pb e.
      Post-bind _ _ (load_tcp_rule-Post default_pb true) λ default r.
        Post-bail_if _ _ _ λ no_pattern. Post-bind _ _ (load_tcp_rules-Post pb.rules) λ rules more.
          returns (
            more,
            (default_pb, e, r, no_pattern),
            positive-limit pb.max_lifetime_ms,
            positive-limit pb.handshake_timeout_ms,
          )
