-- ===== src/Tests/Loading.antt =====
-- A configuration as it is loaded, over a library for which every text is a pattern, a network and a host.
use sni_router.Prelude.{ℕ, ◌≡◌, refl, true, false, [], ◌∷◌, none, some}
use sni_router.Prelude.Equality.{nat_Key}
use sni_router.Prelude.Maps
use sni_router.Prelude.Outcomes.{Bytes, ok, err, Post, run_steps}
use sni_router.Prelude.Sets.{any}
use sni_router.Net.{v4, normalize_socket_addr}
use sni_router.QuicLb
use sni_router.Routing.{unspecified, accept, drop}
use sni_router.Routing.Http3.{Route, udp, route_for_sni}
use sni_router.Messages.{proxy_type, BackendPb, backend_pb, no_sorry_pb, RulePb, SniConfigPb}
use sni_router.Loading.{
  v6_net, Loader, unspecified_action, compile_full_match, resolve_one_addr, load_acl, load_backend,
  load_rule, load_config,
}
use sni_router.Loading.Loaded.{IsLoaded}
use sni_router.Loading.Checked.{load_config-Post, load_config-route_for_sni}

abbrev pub plain : Loader
plain = record {
  Regex = Bytes;
  Net = Bytes;
  Text = Bytes;
  Cipher = Bytes;
  parse_net = λ text. some (v6_net text);
  ipv6_net = λ ip prefix. some [];
  regex_new = λ text. some text;
  has_pattern = λ re. false;
  wrapped = λ text. text;
  wrapped_line = λ text. text;
  no_text = [];
  lookup_host = λ host. some (v4 0xc0000202 443 ∷ []);
  read_key = λ file. some file;
}

abbrev pub proxy : BackendPb Bytes
proxy = backend_pb (some (proxy_type (104 ∷ []) false none)) none no_sorry_pb

abbrev pub example_rule : RulePb Bytes
example_rule = record {
  regex = some (101 ∷ []);
  acl =
      some (record {
        default_action = accept;
        rules = record { source = 1 ∷ []; action = drop } ∷ [];
      });
  backend = some proxy;
  max_lifetime_ms = 0;
}

abbrev pub default_rule : RulePb Bytes
default_rule = record { regex = none; acl = none; backend = some proxy; max_lifetime_ms = 500 }

abbrev pub example_config : SniConfigPb Bytes
example_config = record {
  quic_lb = record { config_id = 3; key_file = 107 ∷ []; servers = (some 1, 104 ∷ []) ∷ [] } ∷ [];
  rules = example_rule ∷ [];
  default = some default_rule;
  max_lifetime_ms = 0;
  handshake_timeout_ms = 1000;
}

load_config-runs :
    load_config plain example_config
    ≡ ok (
      record {
        codec = record { config_id = 3; cipher = 107 ∷ [] };
        servers = (1, v4 0xc0000202 443) ∷ [];
      }
          ∷ [],
      record {
        max_lifetime = none;
        handshake_timeout = some 1000;
        rules =
            record {
              re = 101 ∷ [];
              backend = udp (v4 0xc0000202 443);
              acl = record {
                rules = record { source = 1 ∷ []; action = drop } ∷ [];
                default_action = accept;
              };
              timeout = none;
            }
            ∷ [];
        default = record {
          re = [];
          backend = udp (v4 0xc0000202 443);
          acl = record { rules = []; default_action = accept };
          timeout = some 500;
        };
      },
    )
unfolding run_steps load_config load_rule load_backend load_acl resolve_one_addr compile_full_match
    any Maps.get Maps.put QuicLb.new normalize_socket_addr
load_config-runs = refl

-- An unspecified default action is loaded, one of a rule is not.
load_acl-unspecified :
    load_acl plain (record { default_action = unspecified; rules = [] })
    ≡ ok (record { rules = []; default_action = unspecified })
unfolding run_steps load_acl
load_acl-unspecified = refl

load_acl-refused :
    load_acl plain (record {
      default_action = accept;
      rules = record { source = 1 ∷ []; action = unspecified } ∷ [];
    })
    ≡ err unspecified_action
unfolding run_steps load_acl
load_acl-refused = refl

load_config-Post_example : Post (IsLoaded plain example_config) (load_config plain example_config)
load_config-Post_example = load_config-Post plain example_config

load_config-route_for_sni_example :
    Post
      (λ c.
        (route : Route ℕ) × (route_for_sni (λ re name. true) (λ net ip. false) c.1 (v4 1 2) (some 5)
          ≡ ok route))
      (load_config plain example_config)
load_config-route_for_sni_example =
    load_config-route_for_sni plain (λ re name. true) (λ net ip. false) example_config default_rule
      refl refl (refl, tt) (v4 1 2) (some 5)
