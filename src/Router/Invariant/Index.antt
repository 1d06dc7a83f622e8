-- ===== src/Router/Invariant/Index.antt =====
-- A connection that is added or changed, with the index of connection IDs beside it: what keeps the two together.
use mathlib.Core.Path.{subst}
use sni_router.Prelude.{
  ℕ, ◌+◌, ◌≤◌, ◌<◌, ◌≡◌, refl, inl, inr, true, false, List, some, Bool-cases, leb, nat_eq,
  nat_eq_iff, nat_eq→eq, length, tests, arith, if◌then◌else◌,
}
use sni_router.Prelude.Equality.{nat_Key, bytes_Key, pair_Key}
use sni_router.Prelude.Maps
use sni_router.Prelude.Maps.{Map, is_some, get-put, length-put_present}
use sni_router.Prelude.Maps.Distinct.{put-Distinct}
use sni_router.Prelude.Sets
use sni_router.Prelude.Sets.{filter, member-append}
use sni_router.Prelude.Outcomes.{Bytes}
use sni_router.CidRoutes
use sni_router.CidRoutes.{CidRoutes}
use sni_router.CidRoutes.Shape.{IsValid}
use sni_router.Net.{SocketAddr}
use sni_router.Net.Laws.{addr_Key}
use sni_router.Router.{Limits, Connection}
use sni_router.Router.Establish.{owned_by_other}
use sni_router.Router.Invariant.{holds, Paths}

at_some : {A : Type 0} (P : A → Type 0) (a b : A) → some a ≡ some b → P a → P b
at_some P a b e p = let f : a ≡ b = cc in subst P f p

module _ {Text : Type 0} {limits : Limits} {next : ℕ} {conns : Map ℕ (Connection Text)}
    {routes : CidRoutes} {lb_paths : Map (SocketAddr × SocketAddr) ℕ}
    (i : Paths limits next conns routes lb_paths) where
  -- What a connection may claim: connection IDs that no other connection owns, with those that it held.
  pub record Claims (id : ℕ) (cids : List Bytes) (routes' : CidRoutes) : Type 0 where
    pub valid : IsValid routes'
    pub few : length cids ≤ limits.max_cids_per_path
    pub routed :
        (c : Bytes)
        → CidRoutes.get routes' c ≡ (if Sets.member c cids then some id else CidRoutes.get routes c)
    pub free :
        (c : Bytes) → Sets.member c cids ≡ true → owned_by_other id (CidRoutes.get routes c) ≡ false
    pub grows : (c : Bytes) → holds c (Maps.get id conns) ≡ true → Sets.member c cids ≡ true

  pub put-Paths :
      (next' id : ℕ) (conn : Connection Text) (routes' : CidRoutes)
      → next ≤ next'
      → id < next'
      → length (Maps.put id conn conns) ≤ limits.max_paths
      → Claims id conn.cids routes'
      → Paths limits next' (Maps.put id conn conns) routes' lb_paths
  put-Paths next' id conn routes' n m few h = record {
    few = few;
    distinct = put-Distinct id conn conns i.distinct;
    fresh = λ j g. rw (get-put id j conn conns) (elim (Bool-cases (nat_eq id j)) [
      | inl e ↦ absurd (omega (arith, nat_eq→eq id j e))
      | inr e ↦ rw e (i.fresh j (omega arith))
    ]);
    valid = h.valid;
    owned = λ c j g. rw (get-put id j conn conns) (elim (Bool-cases (Sets.member c conn.cids)) [
      | inl e ↦ ground (arith, e, g, h.routed c, nat_eq_iff id j)
      | inr e ↦ elim (Bool-cases (nat_eq id j)) [
        | inl f ↦ ground (arith, e, f, g, h.routed c, i.owned c j, h.grows c, nat_eq→eq id j f)
        | inr f ↦ rw f (i.owned c j (ground (arith, e, g, h.routed c)))
      ]
    ]);
    found = λ c j.
        rw (get-put id j conn conns, h.routed c)
          (elim (Bool-cases (nat_eq id j)) [
            | inl f ↦ rw f (λ g. rw g (rw (nat_eq→eq id j f) refl))
            | inr f ↦ rw f (λ g. elim (Bool-cases (Sets.member c conn.cids)) [
              | inl e ↦
                  absurd (
                    ground (arith, e, f, h.free c, i.found c j g, nat_eq_iff id j, nat_eq_iff j id))
              | inr e ↦ rw e (i.found c j g)
            ])
          ]);
    few_cids = λ j d. rw (get-put id j conn conns) (elim (Bool-cases (nat_eq id j)) [
      | inl f ↦ rw f (λ g. at_some (λ x. length x.cids ≤ limits.max_cids_per_path) conn d g h.few)
      | inr f ↦ rw f (i.few_cids j d)
    ]);
    leads = λ path j g.
        rw (get-put id j conn conns)
          (elim (Bool-cases (nat_eq id j)) [ inl f ↦ rw f refl | inr f ↦ rw f (i.leads path j g) ]);
  }

  -- What the connection under `id` holds, its connection IDs being free for it.
  pub free_of_found :
      (id : ℕ) (c : Bytes)
      → holds c (Maps.get id conns) ≡ true
      → owned_by_other id (CidRoutes.get routes c) ≡ false
  free_of_found id c g = rw (i.found c id g, (nat_eq_iff id id).1 refl) refl

  pub below : (id : ℕ) (conn : Connection Text) → Maps.get id conns ≡ some conn → id < next
  below id conn g = elim (Bool-cases (leb next id)) [
    | inl h ↦ absurd (ground (arith, g, i.fresh id (omega tests)))
    | inr h ↦ omega tests
  ]

  -- A connection changes, but for its connection IDs.
  pub update-Paths :
      (id : ℕ) (old conn : Connection Text)
      → Maps.get id conns ≡ some old
      → conn.cids ≡ old.cids
      → Paths limits next (Maps.put id conn conns) routes lb_paths
  update-Paths id old conn e same =
      put-Paths next id conn routes (omega arith) (below id old e)
        (rw (length-put_present id conn old conns e) i.few)
        (rw same (record {
          valid = i.valid;
          few = i.few_cids id old e;
          routed = λ c. elim (Bool-cases (Sets.member c old.cids)) [
            | inl g ↦ rw g (i.found c id (rw e g))
            | inr g ↦ rw g refl
          ];
          free = λ c g. free_of_found id c (rw e g);
          grows = λ c. rw e (λ g. g);
        }))

  -- An index that answers as the old one.
  pub same-Paths :
      (routes' : CidRoutes)
      → IsValid routes'
      → ((c : Bytes) → CidRoutes.get routes' c ≡ CidRoutes.get routes c)
      → Paths limits next conns routes' lb_paths
  same-Paths routes' v same = record {
    few = i.few;
    distinct = i.distinct;
    fresh = i.fresh;
    valid = v;
    owned = λ c j g. i.owned c j (ground (arith, g, same c));
    found = λ c j g. rw (same c) (i.found c j g);
    few_cids = i.few_cids;
    leads = i.leads;
  }

  -- An id that is given away.
  pub next-Paths : Paths limits (next + 1) conns routes lb_paths
  next-Paths = record {
    few = i.few;
    distinct = i.distinct;
    fresh = λ id h. i.fresh id (omega arith);
    valid = i.valid;
    owned = i.owned;
    found = i.found;
    few_cids = i.few_cids;
    leads = i.leads;
  }

  -- A path of `lb_paths` that leads to a connection.
  pub lead-Paths :
      (path : SocketAddr × SocketAddr) (id : ℕ)
      → is_some (Maps.get id conns) ≡ true
      → Paths limits next conns routes (Maps.put path id lb_paths)
  lead-Paths path id e = record {
    few = i.few;
    distinct = i.distinct;
    fresh = i.fresh;
    valid = i.valid;
    owned = i.owned;
    found = i.found;
    few_cids = i.few_cids;
    leads = λ q j.
        rw (get-put path q id lb_paths)
          (elim (Bool-cases ((pair_Key ⦃e = addr_Key⦄ ⦃f = addr_Key⦄).eq path q)) [
            | inl f ↦ rw f (λ g. at_some (λ x. is_some (Maps.get x conns) ≡ true) id j g e)
            | inr f ↦ rw f (i.leads q j)
          ]);
  }
