-- ===== src/Loading/Checked.antt =====
-- What `load_config` has made of a message, and checked of it.
use mathlib.Core.Path.{sym}
use sni_router.Prelude.{ℕ, ◌≡◌, Bool, true, false, List, [], ◌∷◌, Option, none, some, refl}
use sni_router.Prelude.Outcomes.{
  ok, Post, returns, Post-bind, Post-bail_if, Post-ok_or, Post-weaken,
}
use sni_router.Net.{SocketAddr}
use sni_router.Routing.{AclAction, is_unspecified, accept, Acl, AclRule, Rule}
use sni_router.Routing.Http3.{Backend, Route, route_for_sni}
use sni_router.Routing.Safety.{Specified, IsComplete, AllComplete, route_for_sni-ok}
use sni_router.Messages.{AclRulePb, AclPb, RulePb, SniConfigPb}
use sni_router.Loading.{Loader, load_rule, load_rules, load_config}
use sni_router.Loading.Loaded.{Pairwise, AclRuleLoaded, AclLoaded, RuleLoaded, IsLoaded}
use sni_router.Loading.Parts.{
  positive-limit, load_acl_or_accept-Post, load_backend-Post, load_regex-Post, load_quic_lb-Post,
}

-- The default action of a rule's ACL, which accepts where the rule has none.
abbrev pub default_of : {Text : Type 0} → Option (AclPb Text) → AclAction
default_of none = accept
default_of (some pb) = pb.default_action

module _ (env : Loader) where
  open env use {Regex, Net, Text}

  load_rule-Post :
      (pb : RulePb Text) (is_default : Bool)
      → Post (RuleLoaded env is_default pb) (load_rule env pb is_default)
  unfolding load_rule
  load_rule-Post pb is_default = Post-bind _ _ (load_regex-Post env pb.regex is_default) λ re p.
      Post-bind _ _ (load_acl_or_accept-Post env pb.acl) λ acl a. Post-ok_or _ _ _ λ message e.
        Post-bind _ _ (load_backend-Post env message)
          λ backend b. returns (p, a, (message, e, b), positive-limit pb.max_lifetime_ms)

  load_rules-Post :
      (pbs : List (RulePb Text)) → Post (Pairwise (RuleLoaded env false) pbs) (load_rules env pbs)
  unfolding load_rules
  load_rules-Post [] = returns tt
  load_rules-Post (pb ∷ pbs) =
      Post-bind _ _ (load_rule-Post pb false)
        λ rule a. Post-bind _ _ (load_rules-Post pbs) λ rules more. returns (a, more)

  -- The loading of any message returns or fails. A configuration that it returns is that of the message: it has the
  -- rules of the message in its order, and its default, each with the pattern, the ACL, the backend and the time limit
  -- of its own message, and the limits and QUIC-LB configurations of the message. An ACL has the networks, actions and
  -- default action of its message, or accepts everyone where there is none; a backend is null, or has the first
  -- address of its host; a QUIC-LB configuration has the id, the key and the servers of its message. No rule of an ACL
  -- has an unspecified action, the default has no pattern, and the QUIC-LB ids are below 7 and all different, with at
  -- least one server each and none twice.
  pub load_config-Post : (pb : SniConfigPb Text) → Post (IsLoaded env pb) (load_config env pb)
  unfolding load_config
  load_config-Post pb = Post-bind _ _ (load_quic_lb-Post env pb.quic_lb []) λ quic_lb checked.
      Post-ok_or _ _ _ λ default_pb e. Post-bind _ _ (load_rule-Post default_pb true) λ default a.
        Post-bail_if _ _ _ λ no_pattern. Post-bind _ _ (load_rules-Post pb.rules) λ rules more.
          returns (
            checked,
            more,
            (default_pb, e, a, no_pattern),
            positive-limit pb.max_lifetime_ms,
            positive-limit pb.handshake_timeout_ms,
          )

  specified :
      (pbs : List (AclRulePb Text)) (rules : List (AclRule Net))
      → Pairwise (AclRuleLoaded env) pbs rules
      → Specified rules
  specified [] [] a = tt
  specified [] (rule ∷ rules) a = absurd a
  specified (pb ∷ pbs) [] a = absurd a
  specified (pb ∷ pbs) (rule ∷ rules) ((source, action, s), more) = (s, specified pbs rules more)

  acl-IsComplete :
      (pb : Option (AclPb Text)) (acl : Acl Net)
      → AclLoaded env pb acl
      → is_unspecified (default_of pb) ≡ false
      → IsComplete acl
  acl-IsComplete none acl (no_rules, e) d = (rw no_rules tt, rw e refl)
  acl-IsComplete (some pb) acl (rules, e) d = (specified pb.rules acl.rules rules, rw e d)

  abbrev pub HasDefault : RulePb Text → Type 0
  HasDefault pb = is_unspecified (default_of pb.acl) ≡ false

  abbrev pub HaveDefaults : List (RulePb Text) → Type 0
  HaveDefaults [] = Unit {0}
  HaveDefaults (pb ∷ pbs) = HasDefault pb × HaveDefaults pbs

  complete :
      (is_default : Bool) (pb : RulePb Text) (rule : Rule Regex Net Backend)
      → RuleLoaded env is_default pb rule
      → HasDefault pb
      → IsComplete rule.acl
  complete is_default pb rule (_, a, _, _) d = acl-IsComplete pb.acl rule.acl a d

  all_complete :
      (pbs : List (RulePb Text)) (rules : List (Rule Regex Net Backend))
      → Pairwise (RuleLoaded env false) pbs rules
      → HaveDefaults pbs
      → AllComplete rules
  all_complete [] [] a d = tt
  all_complete [] (rule ∷ rules) a d = absurd a
  all_complete (pb ∷ pbs) [] a d = absurd a
  all_complete (pb ∷ pbs) (rule ∷ rules) (a, more) (d, ds) =
      (complete false pb rule a d, all_complete pbs rules more ds)

  -- Where the message has a default rule, and each ACL of a rule, the default's included, states its default action, a
  -- configuration that is loaded from the message routes every connection, whatever the peer and the host name: no
  -- choice fails at run time.
  pub load_config-route_for_sni :
      {Name : Type 0} (is_match : Regex → Name → Bool) (contains : Net → ℕ → Bool)
      (pb : SniConfigPb Text) (default_pb : RulePb Text)
      → pb.default ≡ some default_pb
      → HasDefault default_pb
      → HaveDefaults pb.rules
      → (peer : SocketAddr) (sni : Option Name)
      → Post
          (λ c. (route : Route Name) × (route_for_sni is_match contains c.1 peer sni ≡ ok route))
          (load_config env pb)
  load_config-route_for_sni is_match contains pb default_pb e d ds peer sni =
      Post-weaken (load_config-Post pb) λ (quic_lb, config) (_, more, (found, f, a, _), _, _).
        let g : default_pb ≡ found = same e f in
        route_for_sni-ok is_match contains config peer sni
          (all_complete pb.rules config.rules more ds)
          (complete true found config.default a (rw (sym g) d))
    where
      same : {A : Type 0} {o : Option A} {x y : A} → o ≡ some x → o ≡ some y → x ≡ y
      same h k = cc
