-- ===== src/CidRoutes/Laws.antt =====
-- The index is a partial map from connection IDs to connections: what `get` finds after each operation.
use sni_router.Prelude.{
  List-cases, ℕ, ◌≡◌, refl, ap, inl, inr, ◌∷◌, Option, none, some, Option-cases, nat_eq, length,
  if◌then◌else◌, arith,
}
use sni_router.Prelude.Equality.{bytes_Key, bytes_eq, bytes_eq_iff}
use sni_router.Prelude.Maps
use sni_router.Prelude.Maps.{Map, get-put, get-delete}
use sni_router.Prelude.OrderedMap.{lookup, lookup-insert_sorted, lookup-remove_sorted}
use sni_router.Prelude.Outcomes.{Bytes}
use sni_router.CidRoutes.{Routes, CidRoutes, insert, claim, get, or_default, remove, put_back}
use sni_router.CidRoutes.Shape.{IsValid}

abbrev pub owner_or : ℕ → Option ℕ → ℕ
owner_or conn_id none = conn_id
owner_or conn_id (some owner) = owner

claim_found :
    (r : CidRoutes) (cid : Bytes) (conn_id : ℕ) (c : Bytes) (routes : Routes)
    → or_default (lookup (length cid) r.by_length) ≡ routes
    → (get (claim r.by_length cid conn_id routes (Maps.get cid routes)).0 c
        ≡ (if bytes_eq cid c then some (owner_or conn_id (Maps.get cid routes)) else get r c))
      × ((claim r.by_length cid conn_id routes (Maps.get cid routes)).1
          ≡ nat_eq (owner_or conn_id (Maps.get cid routes)) conn_id)
unfolding claim get Maps.get
claim_found r cid conn_id c routes e = ground (
  arith,
  lookup-insert_sorted (length cid) (length c) routes r.by_length,
  lookup-insert_sorted (length cid) (length c) (Maps.put cid conn_id routes) r.by_length,
  get-put cid c conn_id routes,
  bytes_eq_iff cid c,
  ap length {x = cid} {y = c},
)

get_default :
    (r : CidRoutes) (cid : Bytes)
    → get r cid ≡ Maps.get cid (or_default (lookup (length cid) r.by_length))
unfolding get Maps.get
get_default r cid = elim (Option-cases (lookup (length cid) r.by_length)) [
  | inl e ↦ rw e
  | inr (routes, e) ↦ rw e
]

-- Registering a non-empty connection ID gives it to the connection unless another owns it, answers
-- whether the connection owns it afterwards, and changes no other connection ID.
pub get-insert :
    (r : CidRoutes) (b : ℕ) (cid : Bytes) (conn_id : ℕ) (c : Bytes)
    → (get (insert r (b ∷ cid) conn_id).0 c
        ≡ (if bytes_eq (b ∷ cid) c then some (owner_or conn_id (get r (b ∷ cid))) else get r c))
      × ((insert r (b ∷ cid) conn_id).1 ≡ nat_eq (owner_or conn_id (get r (b ∷ cid))) conn_id)
unfolding insert
get-insert r b cid conn_id c =
    rw (get_default r (b ∷ cid)) (claim_found r (b ∷ cid) conn_id c _ refl)

put_back_found :
    (r : CidRoutes) (cid c : Bytes) (routes : Routes)
    → IsValid r
    → lookup (length cid) r.by_length ≡ some routes
    → get (record { by_length = put_back (length cid) (Maps.delete cid routes) r.by_length }) c
      ≡ (if bytes_eq cid c then none else get r c)
unfolding get put_back Maps.get
put_back_found r cid c routes v e = elim (List-cases (Maps.delete cid routes)) [
  | inl gone ↦ rw gone (
      ground (
        arith,
        e,
        lookup-remove_sorted 0 (length cid) (length c) r.by_length v.ascending,
        get-delete cid c routes,
        gone,
        bytes_eq_iff cid c,
        ap length {x = cid} {y = c},
      ))
  | inr (x, rest, left) ↦ rw left (
      ground (
        arith,
        e,
        left,
        lookup-insert_sorted (length cid) (length c) (x ∷ rest) r.by_length,
        get-delete cid c routes,
        bytes_eq_iff cid c,
        ap length {x = cid} {y = c},
      ))
]

-- In a valid index, removal answers with the connection that owned the connection ID, forgets that
-- connection ID, and changes no other.
pub get-remove :
    (r : CidRoutes) (cid c : Bytes)
    → IsValid r
    → (get (remove r cid).0 c ≡ (if bytes_eq cid c then none else get r c))
      × ((remove r cid).1 ≡ get r cid)
unfolding remove
get-remove r cid c v = elim (Option-cases (lookup (length cid) r.by_length)) [
  | inl e ↦ rw e (unfold get in ground (arith, e, bytes_eq_iff cid c, ap length {x = cid} {y = c}))
  | inr (routes, e) ↦ rw e (put_back_found r cid c routes v e, unfold get in rw e)
]
