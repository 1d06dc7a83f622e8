-- ===== src/Loading.antt =====
-- The loading of the QUIC router's configuration: `load_acl`, `resolve_one_addr`, `load_backend`, `load_rule`, `load_config` and
-- `compile_full_match` of src/bin/sni-router-h3.rs, from the decoded protobuf message on.
pub mod Loaded
pub mod Parts
pub mod Checked
pub mod Tcp
use sni_router.Prelude.{
  ℕ, suc, ◌+◌, Bool, true, false, not, List, [], ◌∷◌, ◌++◌, Option, none, some, leb, ltb,
  if◌then◌else◌,
}
use sni_router.Prelude.Equality.{nat_Key}
use sni_router.Prelude.Maps
use sni_router.Prelude.Maps.{Map, is_some}
use sni_router.Prelude.Sets
use sni_router.Prelude.Outcomes.{Outcome, ok, err, panic, out_of_fuel, ◌>>=◌, ◌>>◌, bail_if, ok_or}
use sni_router.Net.{SocketAddr, normalize_socket_addr, to_ipv6_mapped}
use sni_router.QuicLb
use sni_router.QuicLb.{Codec, CodecError}
use sni_router.Routing.{AclAction, is_unspecified, accept, Acl, AclRule, Rule}
use sni_router.Routing
use sni_router.Routing.Http3.{Backend, null, udp}
use sni_router.Router.{LbConfig}
use sni_router.Messages.{
  AclRulePb, AclPb, BackendTypePb, null_type, proxy_type, pass_type, BackendPb, backend_pb,
  has_sorry_pb, RulePb, QuicLbPb, SniConfigPb,
}

-- `ipnet::IpNet`: the network address and prefix length of an IPv4 network, or an IPv6 network.
pub data IpNet (Net : Type 0) : Type 0 where
  v4_net : ℕ → ℕ → IpNet Net
  v6_net : Net → IpNet Net

-- What other libraries, the resolver and the files answer. The pattern of a regular expression is wrapped in two ways.
pub record Loader : Type 1 where
  pub Regex : Type 0
  pub Net : Type 0
  pub Text : Type 0
  pub Cipher : Type 0
  pub parse_net : Text → Option (IpNet Net)
  pub ipv6_net : ℕ → ℕ → Option Net
  pub regex_new : Text → Option Regex
  pub has_pattern : Regex → Bool
  pub wrapped : Text → Text
  pub wrapped_line : Text → Text
  pub no_text : Text
  pub lookup_host : Text → Option (List SocketAddr)
  pub read_key : Text → Option Cipher

-- Of both routers: the last line has those of the TCP router alone.
pub data LoadError : Type 0 where
  bad_cidr unspecified_action frontend_tls_set sorry_set no_backend_type proxy_header_set pass_set
        unresolved :
      LoadError
  default_regex no_regex bad_regex no_backend no_default : LoadError
  bad_config_id duplicate_config bad_key no_server_id duplicate_server no_servers : LoadError
  sorry_of_sorry empty_sorry null_with_sorry header_with_backend_tls half_credentials bad_tls :
      LoadError

-- `(ms > 0).then(..)`
abbrev pub positive : ℕ → Option ℕ
positive ms = if ltb 0 ms then some ms else none

abbrev first_addr : List SocketAddr → Option SocketAddr
first_addr [] = none
first_addr (addr ∷ _) = some addr

abbrev codec_or_bail :
    {Cipher : Type 0} → Outcome CodecError (Codec Cipher) → Outcome LoadError (Codec Cipher)
codec_or_bail (ok codec) = ok codec
codec_or_bail (err e) = err bad_config_id
codec_or_bail panic = panic
codec_or_bail out_of_fuel = out_of_fuel

abbrev pub no_entries : Map ℕ SocketAddr → Bool
no_entries [] = true
no_entries (_ ∷ _) = false

module _ (env : Loader) where
  open env use {
    Regex, Net, Text, Cipher, parse_net, ipv6_net, regex_new, has_pattern, wrapped, wrapped_line,
    no_text, lookup_host, read_key,
  }

  -- An IPv4 network is taken as the network of its mapped addresses.
  pub source_net : IpNet Net → Outcome LoadError Net
  source_net (v4_net ip prefix) = ok_or (ipv6_net (to_ipv6_mapped ip) (96 + prefix)) bad_cidr
  source_net (v6_net net) = ok net

  pub load_acl_rules : List (AclRulePb Text) → Outcome LoadError (List (AclRule Net))
  load_acl_rules [] = ok []
  load_acl_rules (pb ∷ pbs) = do
    parsed ← ok_or (parse_net pb.source) bad_cidr
    source ← source_net parsed
    bail_if (is_unspecified pb.action) unspecified_action
    rules ← load_acl_rules pbs
    ok (record { source = source; action = pb.action } ∷ rules)

  unfoldable pub load_acl : AclPb Text → Outcome LoadError (Acl Net)
  unfolding source_net load_acl_rules
  load_acl pb = do
    rules ← load_acl_rules pb.rules
    ok (record { rules = rules; default_action = pb.default_action })

  -- A rule without an ACL accepts everyone.
  abbrev pub load_acl_or_accept : Option (AclPb Text) → Outcome LoadError (Acl Net)
  load_acl_or_accept none = ok (record { rules = []; default_action = accept })
  load_acl_or_accept (some pb) = load_acl pb

  unfoldable pub resolve_one_addr : Text → Outcome LoadError SocketAddr
  resolve_one_addr addr = do
    addrs ← ok_or (lookup_host addr) unresolved
    ok_or (first_addr addrs) unresolved

  abbrev pub load_backend_type : BackendTypePb Text → Outcome LoadError Backend
  load_backend_type null_type = ok null
  load_backend_type (proxy_type addr proxy_header backend_tls) =
      bail_if proxy_header proxy_header_set >> (resolve_one_addr addr >>= λ to. ok (udp to))
  load_backend_type (pass_type path) = err pass_set

  unfoldable pub load_backend : BackendPb Text → Outcome LoadError Backend
  unfolding resolve_one_addr
  load_backend (backend_pb backend_type frontend_tls sorry) = do
    bail_if (is_some frontend_tls) frontend_tls_set
    bail_if (has_sorry_pb sorry) sorry_set
    type ← ok_or backend_type no_backend_type
    load_backend_type type

  abbrev pub or_else : Option Regex → Option Regex → Option Regex
  or_else none re = re
  or_else (some re) _ = some re

  -- The pattern by itself must be valid, and is then wrapped to match the whole name.
  unfoldable pub compile_full_match : Text → Outcome LoadError Regex
  compile_full_match pattern = do
    valid ← ok_or (regex_new pattern) bad_regex
    ok_or (or_else (regex_new (wrapped pattern)) (regex_new (wrapped_line pattern))) bad_regex

  abbrev pub load_regex : Option Text → Bool → Outcome LoadError Regex
  load_regex none true = ok_or (regex_new no_text) bad_regex
  load_regex (some _) true = err default_regex
  load_regex none false = err no_regex
  load_regex (some pattern) false = compile_full_match pattern

  unfoldable pub load_rule : RulePb Text → Bool → Outcome LoadError (Rule Regex Net Backend)
  unfolding compile_full_match load_backend load_acl
  load_rule pb is_default = do
    re ← load_regex pb.regex is_default
    acl ← load_acl_or_accept pb.acl
    message ← ok_or pb.backend no_backend
    backend ← load_backend message
    ok (record { re = re; backend = backend; acl = acl; timeout = positive pb.max_lifetime_ms })

  pub load_rules : List (RulePb Text) → Outcome LoadError (List (Rule Regex Net Backend))
  load_rules [] = ok []
  load_rules (pb ∷ pbs) = do rule ← load_rule pb false; rules ← load_rules pbs; ok (rule ∷ rules)

  pub load_servers :
      List (Option ℕ × Text) → Map ℕ SocketAddr → Outcome LoadError (Map ℕ SocketAddr)
  load_servers [] servers = ok servers
  load_servers ((server_id, addr) ∷ rest) servers = do
    sid ← ok_or server_id no_server_id
    to ← resolve_one_addr addr
    bail_if (is_some (Maps.get sid servers)) duplicate_server
    load_servers rest (Maps.put sid (normalize_socket_addr to) servers)

  -- `config_ids` are those of the configurations before. A `config_id` beyond a byte, or 7, is refused.
  pub load_quic_lb : List (QuicLbPb Text) → List ℕ → Outcome LoadError (List (LbConfig Cipher))
  load_quic_lb [] config_ids = ok []
  load_quic_lb (pb ∷ pbs) config_ids = do
    bail_if (leb 256 pb.config_id) bad_config_id
    bail_if (Sets.member pb.config_id config_ids) duplicate_config
    cipher ← ok_or (read_key pb.key_file) bad_key
    codec ← codec_or_bail (QuicLb.new pb.config_id cipher)
    servers ← load_servers pb.servers []
    bail_if (no_entries servers) no_servers
    rest ← load_quic_lb pbs (Sets.insert pb.config_id config_ids)
    ok (record { codec = codec; servers = servers } ∷ rest)

  unfoldable pub load_config :
      SniConfigPb Text
      → Outcome LoadError (List (LbConfig Cipher) × Routing.Config Regex Net Backend)
  unfolding load_rule load_rules load_quic_lb load_servers
  load_config pb = do
    quic_lb ← load_quic_lb pb.quic_lb []
    default_pb ← ok_or pb.default no_default
    default ← load_rule default_pb true
    bail_if (has_pattern default.re) default_regex
    rules ← load_rules pb.rules
    ok (
      quic_lb,
      record {
        max_lifetime = positive pb.max_lifetime_ms;
        handshake_timeout = positive pb.handshake_timeout_ms;
        rules = rules;
        default = default;
      },
    )
