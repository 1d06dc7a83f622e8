-- ===== src/Loading/Tcp/Agreement.antt =====
-- One message for both routers: what the QUIC router loads, the TCP router loads too, and routes alike.
use sni_router.Prelude.{
  ℕ, ◌≡◌, refl, ap, ap₂, sym, ◌∙◌, Bool, true, false, List, [], ◌∷◌, map, Option, none, some,
}
use sni_router.Prelude.Outcomes.{
  Outcome, ok, err, panic, out_of_fuel, Post, returns, fails, Post-bind, Post-bail_if, Post-ok_or,
  Post-weaken, Post-self, run_steps,
}
use sni_router.Net.{SocketAddr, peer_ip_v6}
use sni_router.Routing.{Rule, RouteError}
use sni_router.Routing
use sni_router.Routing.Http3.{route_for_sni}
use sni_router.Routing.Http3
use sni_router.Routing.Tcp.{choose_for_sni}
use sni_router.Routing.Agreement.{
  map_rule, map_config, backend_of, closing, route_for_sni-choose_for_sni,
}
use sni_router.Backends.{Backend, null, pass, proxy, no_sorry}
use sni_router.Messages.{
  null_type, proxy_type, pass_type, BackendPb, backend_pb, no_sorry_pb, sorry_pb, RulePb,
  SniConfigPb,
}
use sni_router.Loading.{
  Loader, LoadError, positive, resolve_one_addr, load_backend, load_rule, load_rules, load_config,
}
use sni_router.Loading.Parts.{
  resolve_one_addr-Post, load_acl_or_accept-Post, load_regex-Post, load_quic_lb-Post,
}
use sni_router.Loading.Tcp.{
  TlsLoader, load_tls, load_backend_with, load_sorry, load_tcp_backend, load_message, load_tcp_rule,
  load_tcp_rules, load_tcp_config,
}

-- `backend_tls` is ignored by the QUIC router.
abbrev pub has_backend_tls : {Text : Type 0} → BackendPb Text → Bool
has_backend_tls (backend_pb none frontend_tls s) = false
has_backend_tls (backend_pb (some null_type) frontend_tls s) = false
has_backend_tls (backend_pb (some (pass_type path)) frontend_tls s) = false
has_backend_tls (backend_pb (some (proxy_type addr header none)) frontend_tls s) = false
has_backend_tls (backend_pb (some (proxy_type addr header (some pb))) frontend_tls s) = true

abbrev pub IsPlain : {Text : Type 0} → RulePb Text → Type 0
IsPlain {Text} pb =
    (message : BackendPb Text) → pb.backend ≡ some message → has_backend_tls message ≡ false

abbrev pub ArePlain : {Text : Type 0} → List (RulePb Text) → Type 0
ArePlain [] = Unit {0}
ArePlain (pb ∷ pbs) = IsPlain pb × ArePlain pbs

abbrev pub udp_to : Outcome LoadError SocketAddr → Http3.Backend
udp_to (ok to) = Http3.udp to
udp_to (err e) = Http3.null
udp_to panic = Http3.null
udp_to out_of_fuel = Http3.null

module _ (env : Loader) (tls : TlsLoader (env.Text)) (allow_keylogging : Bool) where
  open env use {Regex, Net, Text, has_pattern}
  open tls use {ServerConfig, ClientConfig}

  -- The backend of the QUIC router for one of the TCP router: its address, resolved.
  abbrev pub counterpart : Backend Text ServerConfig ClientConfig → Http3.Backend
  counterpart null = Http3.null
  counterpart (pass path server s) = Http3.null
  counterpart (proxy addr proxy_header server client s) = udp_to (resolve_one_addr env addr)

  load_message-agree :
      (message : BackendPb Text)
      → has_backend_tls message ≡ false
      → Post
          (λ b.
            (t : Backend Text ServerConfig ClientConfig) × (load_message env tls allow_keylogging
                message
              ≡ ok t)
            × (counterpart t ≡ b))
          (load_backend env message)
  unfolding run_steps load_backend load_tcp_backend load_sorry load_backend_with load_tls
  load_message-agree (backend_pb type (some t) s) plain = fails
  load_message-agree (backend_pb type none (sorry_pb s)) plain = fails
  load_message-agree (backend_pb none none no_sorry_pb) plain = fails
  load_message-agree (backend_pb (some null_type) none no_sorry_pb) plain =
      returns (null, refl, refl)
  load_message-agree (backend_pb (some (pass_type path)) none no_sorry_pb) plain = fails
  load_message-agree (backend_pb (some (proxy_type addr true b)) none no_sorry_pb) plain = fails
  load_message-agree (backend_pb (some (proxy_type addr false (some b))) none no_sorry_pb) plain =
      absurd (cc)
  load_message-agree (backend_pb (some (proxy_type addr false none)) none no_sorry_pb) plain =
      Post-bind _ _ (Post-self (resolve_one_addr-Post env addr))
        λ to (e, _). returns (proxy addr false none none no_sorry, refl, ap udp_to e)

  load_rule-agree :
      (pb : RulePb Text) (is_default : Bool)
      → IsPlain pb
      → Post
          (λ rule.
            (r : Rule Regex Net (Backend Text ServerConfig ClientConfig)) × (load_tcp_rule env tls
                allow_keylogging pb is_default
              ≡ ok r)
            × (map_rule counterpart r ≡ rule))
          (load_rule env pb is_default)
  unfolding run_steps load_rule load_tcp_rule
  load_rule-agree pb is_default plain =
      Post-bind _ _ (Post-self (load_regex-Post env pb.regex is_default)) λ re (e1, _).
        Post-bind _ _ (Post-self (load_acl_or_accept-Post env pb.acl)) λ acl (e2, _).
          Post-ok_or _ _ _ λ message e3.
            Post-bind _ _ (load_message-agree message (plain message e3)) λ b (t, e4, c). returns (
              record { re = re; backend = t; acl = acl; timeout = positive pb.max_lifetime_ms },
              rw (e1, e2, e3, e4) refl,
              rw c refl,
            )

  load_rules-agree :
      (pbs : List (RulePb Text))
      → ArePlain pbs
      → Post
          (λ rules.
            (rs : List (Rule Regex Net (Backend Text ServerConfig ClientConfig))) × (load_tcp_rules
                env tls allow_keylogging pbs
              ≡ ok rs)
            × (map (map_rule counterpart) rs ≡ rules))
          (load_rules env pbs)
  unfolding run_steps load_rules load_tcp_rules
  load_rules-agree [] plain = returns ([], refl, refl)
  load_rules-agree (pb ∷ pbs) (plain, more) =
      Post-bind _ _ (load_rule-agree pb false plain) λ rule (r, e, c).
        Post-bind _ _ (load_rules-agree pbs more)
          λ rules (rs, es, cs). returns (r ∷ rs, rw (e, es) refl, ap₂ (λ x xs. x ∷ xs) c cs)

  load_config-load_tcp_config :
      (pb : SniConfigPb Text)
      → ArePlain pb.rules
      → ((default_pb : RulePb Text) → pb.default ≡ some default_pb → IsPlain default_pb)
      → Post
          (λ c.
            (t : Routing.Config Regex Net (Backend Text ServerConfig ClientConfig))
            × (load_tcp_config env tls allow_keylogging pb ≡ ok t)
            × (map_config counterpart t ≡ c.1))
          (load_config env pb)
  unfolding run_steps load_config load_tcp_config
  load_config-load_tcp_config pb plain default_plain =
      Post-bind _ _ (load_quic_lb-Post env pb.quic_lb []) λ quic_lb _.
        Post-ok_or _ _ _ λ default_pb e1.
          Post-bind _ _ (load_rule-agree default_pb true (default_plain default_pb e1))
            λ default (d, e2, c). Post-bail_if _ _ _ λ e3.
              let e3' : has_pattern d.re ≡ false =
                (ap (λ (r : Rule Regex Net Http3.Backend). has_pattern r.re) c ∙ e3) in
              Post-bind _ _ (load_rules-agree pb.rules plain) λ rules (rs, e4, cs). returns (
                record {
                  max_lifetime = positive pb.max_lifetime_ms;
                  handshake_timeout = positive pb.handshake_timeout_ms;
                  rules = rs;
                  default = d;
                },
                rw (e1, e2, e3', e4) refl,
                rw (c, cs) refl,
              )

  -- Where no rule of a message, the default included, has TLS with its backend, and the QUIC router loads the message,
  -- the TCP router loads it too; and then, for the same peer and the same name or the lack of one, the QUIC router
  -- sends to the address of the TCP router's backend as it was resolved, closes where that one has no address or
  -- rejects, and fails with its error otherwise.
  pub load_config-agree :
      {Name : Type 0} (is_match : Regex → Name → Bool) (contains : Net → ℕ → Bool)
      (pb : SniConfigPb Text)
      → ArePlain pb.rules
      → ((default_pb : RulePb Text) → pb.default ≡ some default_pb → IsPlain default_pb)
      → (peer : SocketAddr) (sni : Option Name)
      → Post
          (λ c.
            (t : Routing.Config Regex Net (Backend Text ServerConfig ClientConfig))
            × (load_tcp_config env tls allow_keylogging pb ≡ ok t)
            × (backend_of (route_for_sni is_match contains c.1 peer sni)
                ≡ closing counterpart (choose_for_sni is_match contains t (peer_ip_v6 peer) sni)))
          (load_config env pb)
  load_config-agree is_match contains pb plain default_plain peer sni =
      Post-weaken (load_config-load_tcp_config pb plain default_plain) λ c (t, e, m).
        (t, e, rw (sym m) (route_for_sni-choose_for_sni counterpart is_match contains t peer sni))
