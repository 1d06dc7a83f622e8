-- ===== src/Router/Cleanup/Forget.antt =====
-- The paths that `cleanup` forgets, with their connection IDs, and `lb_paths` after them.
use mathlib.Core.Path.{subst, ◌∙◌}
use sni_router.Prelude.{
  ℕ, ◌≡◌, refl, ◌&&◌, inl, inr, true, List, [], ◌∷◌, none, some, Bool-cases, Option-cases, nat_eq,
  nat_eq_iff, nat_eq→eq, arith, if◌then◌else◌,
}
use sni_router.Prelude.Equality.{◌==◌, nat_Key, bytes_Key, pair_Key}
use sni_router.Prelude.Maps
use sni_router.Prelude.Maps.{Map, is_some, get-delete, length-delete_le}
use sni_router.Prelude.Maps.Distinct.{delete-Distinct}
use sni_router.Prelude.Sets
use sni_router.Prelude.Sets.{filter, any}
use sni_router.Prelude.Outcomes.{Bytes}
use sni_router.CidRoutes
use sni_router.CidRoutes.{CidRoutes}
use sni_router.Net.{SocketAddr}
use sni_router.Net.Laws.{addr_Key}
use sni_router.Router.{Library, Limits, Connection, Router}
use sni_router.Router.Cleanup.{owned_by, unroute_all, forget, forget_all, forget_lb_paths}
use sni_router.Router.Invariant.{Waiting, Paths, Inv}
use sni_router.Router.Invariant.Routed.{unroute_all-get}

module _ {Text : Type 0} {limits : Limits} {next : ℕ} {conns : Map ℕ (Connection Text)}
    {routes : CidRoutes} (i : Paths limits next conns routes []) where
  -- A connection goes, and its connection IDs with it.
  delete-Paths :
      (id : ℕ) (conn : Connection Text)
      → Maps.get id conns ≡ some conn
      → Paths limits next (Maps.delete id conns) (unroute_all conn.cids id routes) []
  delete-Paths id conn e =
      let (v, found) = unroute_all-get conn.cids id routes i.valid in
      record {
        few = omega (arith, i.few, length-delete_le id conns);
        distinct = delete-Distinct id conns i.distinct;
        fresh = λ j h.
            rw (get-delete id j conns)
              (elim (Bool-cases (nat_eq id j)) [ inl f ↦ rw f refl | inr f ↦ rw f (i.fresh j h) ]);
        valid = v;
        owned = λ c j.
            rw (get-delete id j conns, found c)
              (λ g. elim (Bool-cases (nat_eq id j)) [
                | inl f ↦ absurd (own c j (nat_eq→eq id j f) g)
                | inr f ↦ rw f (i.owned c j (ground (arith, g)))
              ]);
        found = λ c j.
            rw (get-delete id j conns, found c)
              (elim (Bool-cases (nat_eq id j)) [
                | inl f ↦ rw f (λ g. absurd (ground (arith, g)))
                | inr f ↦
                    rw f (λ g.
                      rw (i.found c j g) (ground (arith, f, nat_eq_iff id j, nat_eq_iff j id)))
              ]);
        few_cids = λ j d. rw (get-delete id j conns) (elim (Bool-cases (nat_eq id j)) [
          | inl f ↦ rw f (λ g. absurd (ground (arith, g)))
          | inr f ↦ rw f (i.few_cids j d)
        ]);
        leads = λ path j. unfold Maps.get in λ g. absurd (ground (arith, g));
      }
    where
      own :
          (c : Bytes) (j : ℕ)
          → id ≡ j
          → (if Sets.member c conn.cids && owned_by id (CidRoutes.get routes c)
              then none
              else CidRoutes.get routes c)
            ≡ some j
          → ⊥
      own c j f =
          subst
            (λ x.
              (if Sets.member c conn.cids && owned_by id (CidRoutes.get routes c)
                  then none
                  else CidRoutes.get routes c)
                ≡ some x
              → ⊥)
            f
            (λ g.
              elim (Bool-cases (Sets.member c conn.cids && owned_by id (CidRoutes.get routes c))) [
                | inl h ↦ ground (arith, h, g)
                | inr h ↦
                    let k : CidRoutes.get routes c ≡ some id = ground (arith, h, g) in
                    ground (arith, h, e, k, i.owned c id k, nat_eq_iff id id)
              ])

-- `retain` leaves the entries that lead to a path.
retained-leads :
    {Text : Type 0} (conns : Map ℕ (Connection Text)) (paths : Map (SocketAddr × SocketAddr) ℕ)
    (path : SocketAddr × SocketAddr) (id : ℕ)
    → Maps.get path (filter (λ p. is_some (Maps.get p.1 conns)) paths) ≡ some id
    → is_some (Maps.get id conns) ≡ true
unfolding filter Maps.get
retained-leads conns [] path id h = absurd (ground (arith, h))
retained-leads conns ((q, j) ∷ paths) path id h = elim (Bool-cases (is_some (Maps.get j conns))) [
  | inr e ↦ retained-leads conns paths path id (ground (arith, e, h))
  | inl e ↦ elim (Bool-cases (q == path)) [
    | inl f ↦
        let g : some j ≡ some id = ground (arith, e, f, h) in
        let k : j ≡ id = cc in subst (λ x. is_some (Maps.get x conns) ≡ true) k e
    | inr f ↦ retained-leads conns paths path id (ground (arith, e, f, h))
  ]
]

module _ {lib : Library} where
  -- The invariant while `lb_paths` still leads to paths that are gone.
  abbrev pub Loose : Router lib → Type 0
  Loose r =
      Waiting r.limits r.pending r.pending_bytes
      × Paths r.limits r.next_connection_id r.connections r.cid_routes []

  forget-Loose : (id : ℕ) (r : Router lib) → Loose r → Loose (forget id r)
  unfolding forget
  forget-Loose id r (b, i) = elim (Option-cases (Maps.get id r.connections)) [
    | inl e ↦ rw e (b, i)
    | inr (conn, e) ↦ rw e (b, delete-Paths i id conn e)
  ]

  forget-get :
      (id j : ℕ) (r : Router lib)
      → Maps.get j (forget id r).connections
        ≡ (if nat_eq id j then none else Maps.get j r.connections)
  unfolding forget
  forget-get id j r = elim (Option-cases (Maps.get id r.connections)) [
    | inl e ↦ rw e (ground (arith, e, nat_eq_iff id j))
    | inr (conn, e) ↦ rw e (get-delete id j r.connections)
  ]

  pub forget_all-Loose : (ids : List ℕ) (r : Router lib) → Loose r → Loose (forget_all ids r)
  unfolding forget_all
  forget_all-Loose [] r i = i
  forget_all-Loose (id ∷ ids) r i = forget_all-Loose ids _ (forget-Loose id r i)

  -- Only the paths go.
  abbrev pub SamePending : Router lib → Router lib → Type 0
  SamePending r s =
      (s.pending ≡ r.pending) × (s.config ≡ r.config) × (s.idle_timeout ≡ r.idle_timeout)

  forget-pending : (id : ℕ) (r : Router lib) → SamePending r (forget id r)
  unfolding forget
  forget-pending id r = elim (Option-cases (Maps.get id r.connections)) [
    | inl e ↦ rw e (refl, refl, refl)
    | inr (conn, e) ↦ rw e (refl, refl, refl)
  ]

  pub forget_all-pending : (ids : List ℕ) (r : Router lib) → SamePending r (forget_all ids r)
  unfolding forget_all
  forget_all-pending [] r = (refl, refl, refl)
  forget_all-pending (id ∷ ids) r =
      let (a, b, c) = forget-pending id r in
      let (d, e, f) = forget_all-pending ids (forget id r) in (d ∙ a, e ∙ b, f ∙ c)

  pub forget_all-get :
      (ids : List ℕ) (j : ℕ) (r : Router lib)
      → Maps.get j (forget_all ids r).connections
        ≡ (if Sets.member j ids then none else Maps.get j r.connections)
  unfolding forget_all any
  forget_all-get [] j r = refl
  forget_all-get (id ∷ ids) j r =
      ground (arith, forget_all-get ids j (forget id r), forget-get id j r)

  pub forget_lb_paths-Inv : (r : Router lib) → Loose r → Inv (forget_lb_paths r)
  unfolding forget_lb_paths
  forget_lb_paths-Inv r (b, i) = (
    b,
    record {
      few = i.few;
      distinct = i.distinct;
      fresh = i.fresh;
      valid = i.valid;
      owned = i.owned;
      found = i.found;
      few_cids = i.few_cids;
      leads = λ path id. retained-leads r.connections r.lb_paths path id;
    },
  )
