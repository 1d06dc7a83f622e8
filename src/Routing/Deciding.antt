-- ===== src/Routing/Deciding.antt =====
-- Which rule decides: the first one that matches the name and whose ACL has a say on the peer.
use sni_router.Prelude.{
  ℕ, ◌≡◌, refl, ap, ◌∙◌, Bool, true, false, List, [], ◌∷◌, ◌++◌, none, some, ◌⊎◌, inl, inr,
  Bool-cases,
}
use sni_router.Prelude.Outcomes.{ok, Post, returns, fails, Post-weaken}
use sni_router.Routing.{
  AclAction, unspecified, accept, drop, continue, AclRule, Rule, Config, acl_action, first_action,
  match_action,
}
use sni_router.Routing.Tcp.{Choice, choose_default, choose_loop, choose_for_sni}

pub data All {A : Type 0} (P : A → Type 0) : List A → Type 0 where
  none_left : All P []
  both : {a : A} {rest : List A} → P a → All P rest → All P (a ∷ rest)

pub AclAction-cases :
    (a : AclAction) → ((a ≡ accept) ⊎ (a ≡ continue)) ⊎ ((a ≡ drop) ⊎ (a ≡ unspecified))
AclAction-cases accept = inl (inl refl)
AclAction-cases continue = inl (inr refl)
AclAction-cases drop = inr (inl refl)
AclAction-cases unspecified = inr (inr refl)

module _ {Net : Type 0} (contains : Net → ℕ → Bool) where
  -- The first rule of an ACL whose network has the peer gives the action, whatever follows it and
  -- whatever the default.
  pub acl_action-first :
      (before after : List (AclRule Net)) (rule : AclRule Net) (default : AclAction) (peer : ℕ)
      → All (λ r. contains r.source peer ≡ false) before
      → contains rule.source peer ≡ true
      → acl_action contains
          (record { rules = (before ++ rule ∷ after); default_action = default })
          peer
        ≡ rule.action
  unfolding acl_action first_action
  acl_action-first [] after rule default peer _ h = rw h refl
  acl_action-first (r ∷ before) after rule default peer (both e rest) h =
      rw e (acl_action-first before after rule default peer rest h)

module _ {Regex Net Text Backend : Type 0} (is_match : Regex → Text → Bool)
    (contains : Net → ℕ → Bool) where
  -- The rule leaves the choice to the next one.
  abbrev pub Skipped : ℕ → Text → Rule Regex Net Backend → Type 0
  Skipped peer sni rule =
      (is_match rule.re sni ≡ false) ⊎ (acl_action contains rule.acl peer ≡ continue)

  -- The choices that the rules from `rules` on allow.
  pub data Allowed (config : Config Regex Net Backend) (peer : ℕ)
      (rules : List (Rule Regex Net Backend)) (sni : Text) : Choice Text Backend → Type 0 where
    by_rule :
        (before after : List (Rule Regex Net Backend)) (rule : Rule Regex Net Backend)
        → rules ≡ before ++ rule ∷ after
        → All (Skipped peer sni) before
        → is_match rule.re sni ≡ true
        → acl_action contains rule.acl peer ≡ accept
        → Allowed config peer rules sni
            (record { sni = (some sni); backend = rule.backend; timeout = rule.timeout })
    by_default :
        All (Skipped peer sni) rules
        → acl_action contains config.default.acl peer ≡ accept
        → Allowed config peer rules sni (record {
          sni = none;
          backend = config.default.backend;
          timeout = config.default.timeout;
        })

  skip-Allowed :
      (config : Config Regex Net Backend) (peer : ℕ) (rule : Rule Regex Net Backend)
      (rules : List (Rule Regex Net Backend)) (sni : Text) (choice : Choice Text Backend)
      → Skipped peer sni rule
      → Allowed config peer rules sni choice
      → Allowed config peer (rule ∷ rules) sni choice
  skip-Allowed config peer rule rules sni _ s (by_rule before after r e skipped m a) =
      by_rule (rule ∷ before) after r (ap (λ rs. rule ∷ rs) e) (both s skipped) m a
  skip-Allowed config peer rule rules sni _ s (by_default skipped a) = by_default (both s skipped) a

  choose_loop-Post :
      (config : Config Regex Net Backend) (rules : List (Rule Regex Net Backend)) (peer : ℕ)
      (sni : Text)
      → Post (Allowed config peer rules sni) (choose_loop is_match contains config rules peer sni)
  unfolding choose_loop choose_default match_action
  choose_loop-Post config [] peer sni =
      elim (AclAction-cases (acl_action contains config.default.acl peer)) [
        | inl (inl e) ↦ rw e (returns (by_default none_left e))
        | inl (inr e) ↦ rw e fails
        | inr (inl e) ↦ rw e fails
        | inr (inr e) ↦ rw e fails
      ]
  choose_loop-Post config (rule ∷ rules) peer sni =
      let skip = λ (s : Skipped peer sni rule).
        Post-weaken (choose_loop-Post config rules peer sni)
          (λ c h. skip-Allowed config peer rule rules sni c s h) in
      elim (Bool-cases (is_match rule.re sni)) [
        | inr m ↦ rw m (skip (inl m))
        | inl m ↦ elim (AclAction-cases (acl_action contains rule.acl peer)) [
          | inl (inl e) ↦ rw (m, e) (returns (by_rule [] rules rule refl none_left m e))
          | inl (inr e) ↦ rw (m, e) (skip (inr e))
          | inr (inl e) ↦ rw (m, e) fails
          | inr (inr e) ↦ rw (m, e) fails
        ]
      ]

  -- A rule is skipped where its pattern does not match the name or its ACL says to continue. A backend
  -- is chosen for a name only by the first rule that is not skipped, whose ACL accepts the peer, or,
  -- where every rule is skipped, by the default, whose ACL accepts it; and the choice never panics.
  pub choose_for_sni-Post :
      (config : Config Regex Net Backend) (peer : ℕ) (sni : Text)
      → Post
          (Allowed config peer config.rules sni)
          (choose_for_sni is_match contains config peer (some sni))
  unfolding choose_for_sni
  choose_for_sni-Post config peer sni = choose_loop-Post config config.rules peer sni

  choose_loop-Skipped :
      (config : Config Regex Net Backend) (rule : Rule Regex Net Backend)
      (rules : List (Rule Regex Net Backend)) (peer : ℕ) (sni : Text)
      → Skipped peer sni rule
      → choose_loop is_match contains config (rule ∷ rules) peer sni
        ≡ choose_loop is_match contains config rules peer sni
  unfolding choose_loop match_action
  choose_loop-Skipped config rule rules peer sni (inl e) = rw e refl
  choose_loop-Skipped config rule rules peer sni (inr e) =
      elim (Bool-cases (is_match rule.re sni)) [ inl m ↦ rw (m, e) refl | inr m ↦ rw m refl ]

  choose_loop-All :
      (config : Config Regex Net Backend) (before rules : List (Rule Regex Net Backend)) (peer : ℕ)
      (sni : Text)
      → All (Skipped peer sni) before
      → choose_loop is_match contains config (before ++ rules) peer sni
        ≡ choose_loop is_match contains config rules peer sni
  choose_loop-All config [] rules peer sni h = refl
  choose_loop-All config (r ∷ before) rules peer sni (both s h) =
      choose_loop-Skipped config r (before ++ rules) peer sni s
      ∙ choose_loop-All config before rules peer sni h

  choose_loop-default :
      (config : Config Regex Net Backend) (rules : List (Rule Regex Net Backend)) (peer : ℕ)
      (sni : Text)
      → All (Skipped peer sni) rules
      → choose_loop is_match contains config rules peer sni
        ≡ choose_default is_match contains config peer
  unfolding choose_loop
  choose_loop-default config [] peer sni h = refl
  choose_loop-default config (r ∷ rules) peer sni (both s h) =
      choose_loop-Skipped config r rules peer sni s ∙ choose_loop-default config rules peer sni h

  -- What the rules allow for a name is what is chosen, so that the rules allow one choice at most.
  pub choose_for_sni-Allowed :
      (config : Config Regex Net Backend) (peer : ℕ) (sni : Text) (choice : Choice Text Backend)
      → Allowed config peer config.rules sni choice
      → choose_for_sni is_match contains config peer (some sni) ≡ ok choice
  unfolding choose_for_sni choose_loop choose_default match_action
  choose_for_sni-Allowed config peer sni _ (by_rule before after rule e skipped m a) =
      rw e (choose_loop-All config before (rule ∷ after) peer sni skipped ∙ rw (m, a) refl)
  choose_for_sni-Allowed config peer sni _ (by_default skipped a) =
      choose_loop-default config config.rules peer sni skipped ∙ rw a refl
