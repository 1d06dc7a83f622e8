-- ===== src/Router/Invariant/Routed.antt =====
-- The loops that enter connection IDs into the index and take them out, and the sets of connection IDs they run over.
use mathlib.Core.Path.{subst}
use sni_router.Prelude.{
  ℕ, ◌≡◌, refl, ◌&&◌, not, inl, inr, true, false, List, [], ◌∷◌, Option, none, some, Bool-cases,
  nat_eq_iff, arith, if◌then◌else◌,
}
use sni_router.Prelude.Equality.{bytes_eq, bytes_eq_iff, nat_Key, bytes_Key}
use sni_router.Prelude.Sets
use sni_router.Prelude.Sets.{
  filter, any, insert_each, member-insert_each, member-filter, any-member,
}
use sni_router.Prelude.Outcomes.{Bytes}
use sni_router.CidRoutes
use sni_router.CidRoutes.{CidRoutes}
use sni_router.CidRoutes.Laws.{owner_or, get-insert, get-remove}
use sni_router.CidRoutes.Shape.{IsValid, insert-IsValid, remove-IsValid}
use sni_router.Pending.{PendingConnection}
use sni_router.Router.Cleanup.{owned_by, unroute_all}
use sni_router.Router.Establish.{is_empty, owned_by_other, route_all, claimed_cids, requested_cids}

-- An owner that is not another connection is this one, or there is none.
pub owner_or-free :
    (id : ℕ) (owner : Option ℕ) → owned_by_other id owner ≡ false → owner_or id owner ≡ id
owner_or-free id none h = refl
owner_or-free id (some w) h = ground (arith, h, nat_eq_iff w id)

pub get-insert_free :
    (routes : CidRoutes) (b : ℕ) (cid : Bytes) (id : ℕ) (c : Bytes)
    → owned_by_other id (CidRoutes.get routes (b ∷ cid)) ≡ false
    → CidRoutes.get (CidRoutes.insert routes (b ∷ cid) id).0 c
      ≡ (if bytes_eq (b ∷ cid) c then some id else CidRoutes.get routes c)
get-insert_free routes b cid id c free =
    rw ((get-insert routes b cid id c).0, owner_or-free id _ free) refl

pub route_all-get :
    (cids : List Bytes) (id : ℕ) (routes : CidRoutes)
    → ((c : Bytes)
        → Sets.member c cids ≡ true
        → (is_empty c ≡ false) × (owned_by_other id (CidRoutes.get routes c) ≡ false))
    → IsValid routes
    → IsValid (route_all cids id routes)
      × ((c : Bytes)
          → CidRoutes.get (route_all cids id routes) c
            ≡ (if Sets.member c cids then some id else CidRoutes.get routes c))
unfolding route_all any
route_all-get [] id routes h v = (v, λ c. refl)
route_all-get ([] ∷ cids) id routes h v =
    absurd (ground (arith, (h [] (unfold bytes_eq in refl)).0))
route_all-get ((b ∷ cid) ∷ cids) id routes h v =
    let key : Bytes = b ∷ cid in
    let free = (h key (rw ((bytes_eq_iff key key).1 refl) refl)).1 in
    let routes' = (CidRoutes.insert routes key id).0 in
    let found : (c : Bytes)
        → CidRoutes.get routes' c ≡ (if bytes_eq key c then some id else CidRoutes.get routes c) =
      λ c. get-insert_free routes b cid id c free in
    let (v', rest) =
      route_all-get cids id routes' (later routes' found) (insert-IsValid routes key id v) in
    (v', λ c. ground (arith, rest c, found c, nat_eq_iff id id))
  where
    later :
        (routes' : CidRoutes)
        → ((c : Bytes)
            → CidRoutes.get routes' c
              ≡ (if bytes_eq (b ∷ cid) c then some id else CidRoutes.get routes c))
        → (c : Bytes) → Sets.member c cids ≡ true
        → (is_empty c ≡ false) × (owned_by_other id (CidRoutes.get routes' c) ≡ false)
    later routes' found c m =
        let (full, free) = h c (ground (arith, m)) in
        (
          full,
          rw (found c) (elim (Bool-cases (bytes_eq (b ∷ cid) c)) [
            | inl e ↦ rw (e, (nat_eq_iff id id).1 refl) refl
            | inr e ↦ rw e free
          ]),
        )

pub unroute_all-get :
    (cids : List Bytes) (id : ℕ) (routes : CidRoutes)
    → IsValid routes
    → IsValid (unroute_all cids id routes)
      × ((c : Bytes)
          → CidRoutes.get (unroute_all cids id routes) c ≡ (
              if Sets.member c cids && owned_by id (CidRoutes.get routes c)
              then none
              else CidRoutes.get routes c))
unfolding unroute_all any
unroute_all-get [] id routes v = (v, λ c. refl)
unroute_all-get (cid ∷ cids) id routes v =
    elim (Bool-cases (owned_by id (CidRoutes.get routes cid))) [
      | inl e ↦
          let (v', rest) =
            unroute_all-get cids id (CidRoutes.remove routes cid).0 (remove-IsValid routes cid v) in
          rw e (
            v',
            λ c.
                rw (rest c, (get-remove routes cid c v).0)
                  (elim (Bool-cases (bytes_eq cid c)) [
                    | inl f ↦ rw f (
                        subst
                          (λ x. (if Sets.member c cids && false then none else none) ≡ (
                            if true && owned_by id (CidRoutes.get routes x)
                            then none
                            else CidRoutes.get routes x))
                          ((bytes_eq_iff cid c).0 f) (rw e (ground arith)))
                    | inr f ↦ rw f refl
                  ]),
          )
      | inr e ↦
          let (v', rest) = unroute_all-get cids id routes v in
          rw e (
            v',
            λ c. rw (rest c) (elim (Bool-cases (bytes_eq cid c)) [
              | inl f ↦ rw f (
                  subst
                    (λ x.
                      (if Sets.member x cids && owned_by id (CidRoutes.get routes x)
                        then none
                        else CidRoutes.get routes x)
                      ≡ (if true && owned_by id (CidRoutes.get routes x)
                          then none
                          else CidRoutes.get routes x))
                    ((bytes_eq_iff cid c).0 f) (rw e (ground arith)))
              | inr f ↦ rw f refl
            ]),
          )
    ]

-- What a pending connection requests is not empty, and free where nothing that it claims is taken.
pub requested_cids-free :
    (p : PendingConnection) (id : ℕ) (routes : CidRoutes)
    → any (λ cid. owned_by_other id (CidRoutes.get routes cid)) (claimed_cids p) ≡ false
    → (c : Bytes) → Sets.member c (requested_cids p) ≡ true
    → (is_empty c ≡ false) × (owned_by_other id (CidRoutes.get routes c) ≡ false)
unfolding requested_cids any
requested_cids-free p id routes h c m =
    let full = filter (λ cid. not (is_empty cid)) (claimed_cids p) in
    let m' : Sets.member c full ≡ true = subst (λ b. b ≡ true) (member-insert_each c full []) m in
    let (n, claimed) = member-filter (λ cid. not (is_empty cid)) c (claimed_cids p) m' in
    (
      ground (arith, n),
      any-member (λ cid. owned_by_other id (CidRoutes.get routes cid)) c (claimed_cids p) h claimed,
    )
