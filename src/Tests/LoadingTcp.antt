-- ===== src/Tests/LoadingTcp.antt =====
-- A configuration of the TCP router with TLS on either side, and one that both routers load.
use sni_router.Prelude.{ℕ, ◌≡◌, refl, Bool, true, false, List, [], ◌∷◌, none, some}
use sni_router.Prelude.Equality.{nat_Key}
use sni_router.Prelude.Outcomes.{Bytes, ok, err, Post, run_steps}
use sni_router.Net.{v4, peer_ip_v6}
use sni_router.Routing.{accept}
use sni_router.Routing
use sni_router.Routing.Agreement.{backend_of, closing}
use sni_router.Routing.Http3.{route_for_sni}
use sni_router.Routing.Tcp.{choose_for_sni}
use sni_router.Backends.{Backend, pass, proxy, no_sorry, sorry}
use sni_router.Messages.{
  TlsPb, BackendTlsPb, null_type, proxy_type, pass_type, BackendPb, backend_pb, no_sorry_pb,
  sorry_pb, RulePb, SniConfigPb,
}
use sni_router.Loading.{
  load_config, compile_full_match, load_acl, half_credentials, null_with_sorry,
}
use sni_router.Loading.Tcp.{
  TlsLoader, load_tls, load_root_store, load_backend_tls, load_tcp_backend, load_tcp_rule,
  load_tcp_config,
}
use sni_router.Loading.Tcp.Backends.{IsTcpLoaded, load_tcp_config-Post}
use sni_router.Loading.Tcp.Agreement.{has_backend_tls, IsPlain, counterpart, load_config-agree}
use sni_router.Tests.Loading.{plain, default_rule, example_rule, example_config}
use sni_router.Tests.Loading

-- A configuration of rustls is its certificates.
abbrev files : TlsLoader Bytes
files = record {
  Cert = ℕ;
  Key = ℕ;
  Roots = List ℕ;
  Verifier = List ℕ;
  ServerConfig = List ℕ;
  ClientConfig = Bool;
  is_empty = λ text. elim text [ [] ↦ true | b ∷ bs ↦ false ];
  load_certs = λ text. some text;
  load_private_key = λ text. some 1;
  no_roots = [];
  add_root = λ roots cert. some (cert ∷ roots);
  client_verifier = λ roots. some roots;
  server_config = λ verifier certs key keylog. some certs;
  client_config = λ insecure credentials keylog. some insecure;
}

abbrev server_tls : TlsPb Bytes
server_tls = record { cert_file = 99 ∷ []; key_file = 107 ∷ []; mtls_ca = [] }

abbrev backend_tls : BackendTlsPb Bytes
backend_tls = record { cert_file = []; key_file = []; insecure = true }

abbrev secure : BackendPb Bytes
secure =
    backend_pb (some (proxy_type (98 ∷ []) false (some backend_tls))) (some server_tls)
      (sorry_pb (backend_pb (some (pass_type (115 ∷ []))) none no_sorry_pb))

abbrev secure_config : SniConfigPb Bytes
secure_config = record {
  quic_lb = [];
  rules = [];
  default = some (record { regex = none; acl = none; backend = some secure; max_lifetime_ms = 0 });
  max_lifetime_ms = 0;
  handshake_timeout_ms = 0;
}

load_tcp_config-runs :
    load_tcp_config plain files false secure_config
    ≡ ok (record {
      max_lifetime = none;
      handshake_timeout = none;
      rules = [];
      default = record {
        re = [];
        backend =
            proxy
              (98 ∷ [])
              false
              (some (99 ∷ []))
              (some true)
              (sorry (pass (115 ∷ []) none no_sorry));
        acl = record { rules = []; default_action = accept };
        timeout = none;
      };
    })
unfolding run_steps load_tcp_config load_tcp_rule load_tcp_backend load_backend_tls load_tls
    load_root_store compile_full_match load_acl
load_tcp_config-runs = refl

-- A key without a certificate is refused.
load_backend_tls-half :
    load_backend_tls plain files false
      (record { cert_file = []; key_file = 107 ∷ []; insecure = false })
    ≡ err half_credentials
unfolding run_steps load_backend_tls
load_backend_tls-half = refl

load_tcp_backend-null :
    load_tcp_backend plain files false null_type none
      (sorry_pb (backend_pb (some (pass_type (115 ∷ []))) none no_sorry_pb))
    ≡ err null_with_sorry
unfolding run_steps load_tcp_backend load_tls
load_tcp_backend-null = refl

load_tcp_config-Post_example :
    Post
      (IsTcpLoaded plain files false secure_config)
      (load_tcp_config plain files false secure_config)
load_tcp_config-Post_example = load_tcp_config-Post plain files false secure_config

example-IsPlain :
    (message : BackendPb Bytes)
    → some (Loading.proxy) ≡ some message
    → has_backend_tls message ≡ false
example-IsPlain message e = let same : Loading.proxy ≡ message = cc in rw (← same) refl

default-IsPlain :
    (default_pb : RulePb Bytes) → some default_rule ≡ some default_pb → IsPlain default_pb
default-IsPlain default_pb e =
    let same : default_rule ≡ default_pb = cc in rw (← same) example-IsPlain

load_config-agree_example :
    Post
      (λ c.
        (t : Routing.Config Bytes Bytes (Backend Bytes (List ℕ) Bool)) × (load_tcp_config plain
            files false example_config
          ≡ ok t)
        × (backend_of {Text = ℕ}
              (route_for_sni (λ re name. true) (λ net ip. false) c.1 (v4 1 2) (some 5))
            ≡ closing {Text = ℕ} (counterpart plain files false) (
                choose_for_sni
                  (λ re name. true)
                  (λ net ip. false)
                  t
                  (peer_ip_v6 (v4 1 2))
                  (some 5))))
      (load_config plain example_config)
load_config-agree_example =
    load_config-agree plain files false (λ re name. true) (λ net ip. false) example_config
      (example-IsPlain, tt) default-IsPlain (v4 1 2) (some 5)
