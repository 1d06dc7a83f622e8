-- ===== src/Router/Cleanup/Safety.antt =====
-- `cleanup` keeps the router's invariant and forgets the paths that expired, and no other.
use mathlib.Core.Path.{subst}
use sni_router.Prelude.{
  ℕ, ◌≡◌, refl, inl, inr, false, [], ◌∷◌, Option, none, some, Bool-cases, nat_eq, nat_eq→eq, arith,
  if◌then◌else◌,
}
use sni_router.Prelude.Equality.{nat_Key, bytes_Key, pair_Key}
use sni_router.Prelude.Maps
use sni_router.Prelude.Maps.{Map, is_some, get-delete, length-delete_le}
use sni_router.Prelude.Maps.Distinct.{Distinct}
use sni_router.Prelude.Sets
use sni_router.Prelude.Sets.{filter, any}
use sni_router.Net.Laws.{addr_Key}
use sni_router.Pending.{PendingConnection}
use sni_router.Router.{Library, PendingKey, World, Connection, Router, expired}
use sni_router.Router.Action.{resume, Ends, Ends-weaken}
use sni_router.Router.Cleanup.{minimum, forget_all, expired_ids, forget_lb_paths, cleanup}
use sni_router.Router.Cleanup.Forget.{
  Loose, forget_all-Loose, forget_all-pending, forget_all-get, forget_lb_paths-Inv,
}
use sni_router.Router.Invariant.{Inv}
use sni_router.Router.Invariant.Timeout.{waiting_on, cleanup_pending-Ends}

-- What the sweep leaves of a path.
abbrev pub swept : {Text : Type 0} → ℕ → ℕ → Option (Connection Text) → Option (Connection Text)
swept now idle_timeout none = none
swept now idle_timeout (some conn) = if expired conn now idle_timeout then none else some conn

expired_ids-missing :
    {Text : Type 0} (now idle_timeout j : ℕ) (conns : Map ℕ (Connection Text))
    → Maps.get j conns ≡ none
    → Sets.member j (expired_ids now idle_timeout conns) ≡ false
unfolding expired_ids Maps.get any
expired_ids-missing now t j [] h = refl
expired_ids-missing now t j ((id, conn) ∷ conns) h = elim (Bool-cases (nat_eq id j)) [
  | inl f ↦ absurd (ground (arith, f, h))
  | inr f ↦ elim (Bool-cases (expired conn now t)) [
    | inl e ↦ rw (e, f) (expired_ids-missing now t j conns (ground (arith, f, h)))
    | inr e ↦ rw e (expired_ids-missing now t j conns (ground (arith, f, h)))
  ]
]

expired_ids-swept :
    {Text : Type 0} (now idle_timeout j : ℕ) (conns : Map ℕ (Connection Text))
    → Distinct conns
    → (if Sets.member j (expired_ids now idle_timeout conns) then none else Maps.get j conns)
      ≡ swept now idle_timeout (Maps.get j conns)
unfolding expired_ids Maps.get any
expired_ids-swept now t j [] d = refl
expired_ids-swept now t j ((id, conn) ∷ conns) d = elim (Bool-cases (nat_eq id j)) [
  | inl f ↦
      let gone =
        expired_ids-missing now t j conns
          (subst (λ k. Maps.get k conns ≡ none) (nat_eq→eq id j f) d.0) in
      elim (Bool-cases (expired conn now t)) [
        | inl e ↦ rw (e, f, e) refl
        | inr e ↦ rw (e, f, gone, e) refl
      ]
  | inr f ↦ elim (Bool-cases (expired conn now t)) [
    | inl e ↦ rw (e, f) (expired_ids-swept now t j conns d.1)
    | inr e ↦ rw (e, f) (expired_ids-swept now t j conns d.1)
  ]
]

module _ {lib : Library} where
  -- On a router with the invariant the sweep does not panic and keeps it. It forgets every path that expired, and every
  -- pending connection that has waited for the handshake timeout or the idle timeout, whichever is less, since it was
  -- opened or since its last datagram; and it leaves every other as it is.
  pub cleanup-Ends :
      (w : World) (r : Router lib)
      → Inv r
      → Ends Inv
          (λ _ s.
            ((id : ℕ)
              → Maps.get id s.connections ≡ swept w.now r.idle_timeout (Maps.get id r.connections))
            × ((key : PendingKey)
                → Maps.get key s.pending
                  ≡ waiting_on w.now
                      (minimum r.config.routing.handshake_timeout r.idle_timeout)
                      (Maps.get key r.pending)))
          (cleanup w r)
  unfolding cleanup forget_lb_paths resume
  cleanup-Ends w r (b, i) =
      let ids = expired_ids w.now r.idle_timeout r.connections in
      let loose : Loose r = (
        b,
        record {
          few = i.few;
          distinct = i.distinct;
          fresh = i.fresh;
          valid = i.valid;
          owned = i.owned;
          found = i.found;
          few_cids = i.few_cids;
          leads = λ path id. unfold Maps.get in λ g. absurd (ground (arith, g));
        },
      ) in
      Ends-weaken
        (cleanup_pending-Ends w.now (forget_lb_paths (forget_all ids r))
          (forget_lb_paths-Inv (forget_all ids r) (forget_all-Loose ids r loose)))
        λ _ s (same, waits). (
          λ id.
              rw (same, forget_all-get ids id r)
                (expired_ids-swept w.now r.idle_timeout id r.connections i.distinct),
          λ key. kept key s.pending (waits key),
        )
    where
      kept :
          (key : PendingKey) (m : Map PendingKey PendingConnection)
          → Maps.get key m
            ≡ waiting_on w.now
                (minimum
                  (forget_all
                    (expired_ids w.now r.idle_timeout r.connections)
                    r).config.routing.handshake_timeout
                  (forget_all (expired_ids w.now r.idle_timeout r.connections) r).idle_timeout)
                (Maps.get key
                  (forget_all (expired_ids w.now r.idle_timeout r.connections) r).pending)
          → Maps.get key m
            ≡ waiting_on w.now
                (minimum r.config.routing.handshake_timeout r.idle_timeout)
                (Maps.get key r.pending)
      kept key m =
          let (p, c, t) = forget_all-pending (expired_ids w.now r.idle_timeout r.connections) r in
          rw (p, c, t) (λ g. g)
