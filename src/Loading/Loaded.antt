-- ===== src/Loading/Loaded.antt =====
-- What is loaded from a message: its ACLs, patterns, backends, timeouts and QUIC-LB servers.
use sni_router.Prelude.{
  ℕ, zero, suc, ◌+◌, ◌<◌, ◌≡◌, ◌⊎◌, Bool, true, false, List, [], ◌∷◌, Option, none, some,
}
use sni_router.Prelude.Equality.{nat_Key}
use sni_router.Prelude.Maps.Distinct.{Distinct}
use sni_router.Prelude.Sets
use sni_router.Net.{SocketAddr, normalize_socket_addr, to_ipv6_mapped}
use sni_router.Routing.{is_unspecified, accept, Acl, AclRule, Rule}
use sni_router.Routing
use sni_router.Routing.Http3.{Backend, null, udp}
use sni_router.Router.{LbConfig}
use sni_router.Messages.{
  AclRulePb, AclPb, null_type, proxy_type, BackendTlsPb, BackendPb, backend_pb, no_sorry_pb, RulePb,
  QuicLbPb, SniConfigPb,
}
use sni_router.Loading.{v4_net, v6_net, Loader, no_entries}

-- Two lists of one length, related one by one.
abbrev pub Pairwise : {A B : Type 0} → (A → B → Type 0) → List A → List B → Type 0
Pairwise R [] [] = Unit {0}
Pairwise R [] (b ∷ bs) = ⊥
Pairwise R (a ∷ rest) [] = ⊥
Pairwise R (a ∷ rest) (b ∷ bs) = R a b × Pairwise R rest bs

-- A time of 0 is no limit.
abbrev pub limit : ℕ → Option ℕ
limit zero = none
limit (suc ms) = some (suc ms)

-- The configurations of QUIC-LB: their ids below 7, apart from each other and from those before; some servers, none
-- twice.
abbrev pub LbChecked : {Cipher : Type 0} → List ℕ → List (LbConfig Cipher) → Type 0
LbChecked config_ids [] = Unit {0}
LbChecked config_ids (lb ∷ lbs) =
    (lb.codec.config_id < 7)
    × (Sets.member lb.codec.config_id config_ids ≡ false)
    × (no_entries lb.servers ≡ false)
    × Distinct lb.servers
    × LbChecked (Sets.insert lb.codec.config_id config_ids) lbs

module _ (env : Loader) where
  open env use {
    Regex, Net, Text, Cipher, parse_net, ipv6_net, regex_new, has_pattern, wrapped, wrapped_line,
    no_text, lookup_host, read_key,
  }

  -- The network of a text, an IPv4 network being that of its mapped addresses.
  pub data IsSource (text : Text) (net : Net) : Type 0 where
    mapped :
        (ip prefix : ℕ)
        → parse_net text ≡ some (v4_net ip prefix)
        → ipv6_net (to_ipv6_mapped ip) (96 + prefix) ≡ some net
        → IsSource text net
    plain : parse_net text ≡ some (v6_net net) → IsSource text net

  -- A rule of an ACL has the network and the action of its message, which is specified.
  abbrev pub AclRuleLoaded : AclRulePb Text → AclRule Net → Type 0
  AclRuleLoaded pb rule =
      IsSource pb.source rule.source
      × (rule.action ≡ pb.action)
      × (is_unspecified rule.action ≡ false)

  -- An ACL has the rules of its message, in their order, and its default action. Without one everyone is accepted.
  abbrev pub AclLoaded : Option (AclPb Text) → Acl Net → Type 0
  AclLoaded none acl = (acl.rules ≡ []) × (acl.default_action ≡ accept)
  AclLoaded (some pb) acl =
      Pairwise AclRuleLoaded pb.rules acl.rules × (acl.default_action ≡ pb.default_action)

  -- The pattern of the default is the empty one. Another one is valid by itself, and wrapped to match the whole name:
  -- in the second way where the first is refused.
  abbrev pub RegexLoaded : Bool → Option Text → Regex → Type 0
  RegexLoaded true none re = regex_new no_text ≡ some re
  RegexLoaded true (some pattern) re = ⊥
  RegexLoaded false none re = ⊥
  RegexLoaded false (some pattern) re =
      ((valid : Regex) × (regex_new pattern ≡ some valid))
      × ((regex_new (wrapped pattern) ≡ some re)
          ⊎ ((regex_new (wrapped pattern) ≡ none) × (regex_new (wrapped_line pattern) ≡ some re)))

  -- The first address of a host.
  abbrev pub IsFirst : Text → SocketAddr → Type 0
  IsFirst host addr = (rest : List SocketAddr) × (lookup_host host ≡ some (addr ∷ rest))

  -- A backend of the QUIC router: its message has nothing that is for TCP only, but TLS with the backend, which is
  -- ignored.
  pub data BackendLoaded : BackendPb Text → Backend → Type 0 where
    from_null : BackendLoaded (backend_pb (some null_type) none no_sorry_pb) null
    from_proxy :
        {host : Text} {tls : Option (BackendTlsPb Text)} {addr : SocketAddr}
        → IsFirst host addr
        → BackendLoaded (backend_pb (some (proxy_type host false tls)) none no_sorry_pb) (udp addr)

  -- A rule is that of its message.
  abbrev pub RuleLoaded : Bool → RulePb Text → Rule Regex Net Backend → Type 0
  RuleLoaded is_default pb rule =
      RegexLoaded is_default pb.regex rule.re
      × AclLoaded pb.acl rule.acl
      × ((message : BackendPb Text) × (pb.backend ≡ some message)
          × BackendLoaded message rule.backend)
      × (rule.timeout ≡ limit pb.max_lifetime_ms)

  -- A server of QUIC-LB has the id of its message, and the first address of its host.
  abbrev pub ServerLoaded : Option ℕ × Text → ℕ × SocketAddr → Type 0
  ServerLoaded (server_id, host) (sid, to) =
      (server_id ≡ some sid)
      × ((addr : SocketAddr) × IsFirst host addr × (to ≡ normalize_socket_addr addr))

  abbrev pub LbLoaded : QuicLbPb Text → LbConfig Cipher → Type 0
  LbLoaded pb lb =
      (lb.codec.config_id ≡ pb.config_id)
      × (read_key pb.key_file ≡ some lb.codec.cipher)
      × Pairwise ServerLoaded pb.servers lb.servers

  -- A configuration is that of its message, and its QUIC-LB configurations are checked.
  abbrev pub IsLoaded :
      SniConfigPb Text → List (LbConfig Cipher) × Routing.Config Regex Net Backend → Type 0
  IsLoaded pb (quic_lb, config) =
      (LbChecked [] quic_lb × Pairwise LbLoaded pb.quic_lb quic_lb)
      × Pairwise (RuleLoaded false) pb.rules config.rules
      × ((default_pb : RulePb Text) × (pb.default ≡ some default_pb)
          × RuleLoaded true default_pb config.default
          × (has_pattern config.default.re ≡ false))
      × (config.max_lifetime ≡ limit pb.max_lifetime_ms)
      × (config.handshake_timeout ≡ limit pb.handshake_timeout_ms)
