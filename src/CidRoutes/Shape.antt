-- ===== src/CidRoutes/Shape.antt =====
-- The shape that registration and removal keep.
use mathlib.Core.Path.{subst}
use sni_router.Prelude.{
  ℕ, zero, suc, ◌<◌, ◌≡◌, ◌≢◌, refl, ◌∙◌, inl, inr, List, [], ◌∷◌, some, Bool-cases, Option-cases,
  nat_eq, length, tests, arith,
}
use sni_router.Prelude.Equality.{bytes_Key}
use sni_router.Prelude.Maps
use sni_router.Prelude.Maps.{Map, get-put, get-delete}
use sni_router.Prelude.OrderedMap.{
  lookup, insert_sorted, remove_sorted, Ascending, insert_sorted-Ascending, remove_sorted-Ascending,
  lookup_below,
}
use sni_router.Prelude.Outcomes.{Bytes}
use sni_router.CidRoutes.{
  Routes, CidRoutes, insert, insert_nonempty, claim, remove, remove_in, put_back,
}

abbrev pub SameLength : ℕ → Routes → Type 0
SameLength len [] = Unit {0}
SameLength len ((cid, _) ∷ routes) = (length cid ≡ len) × SameLength len routes

abbrev pub Tables : List (ℕ × Routes) → Type 0
Tables [] = Unit {0}
Tables ((len, routes) ∷ m) = (routes ≢ []) × SameLength len routes × Tables m

-- The lengths rise from 1, no table is empty, and each holds connection IDs of its length.
pub record IsValid (r : CidRoutes) : Type 0 where
  pub ascending : Ascending 0 r.by_length
  pub tables : Tables r.by_length

SameLength-put :
    (len conn_id : ℕ) (cid : Bytes) (routes : Routes)
    → length cid ≡ len
    → SameLength len routes
    → SameLength len (Maps.put cid conn_id routes)
unfolding Maps.put
SameLength-put len conn_id cid [] e s = (e, tt)
SameLength-put len conn_id cid ((c, id) ∷ routes) e s =
    ground (arith, SameLength-put len conn_id cid routes e s.1)

SameLength-delete :
    (len : ℕ) (cid : Bytes) (routes : Routes)
    → SameLength len routes
    → SameLength len (Maps.delete cid routes)
unfolding Maps.delete
SameLength-delete len cid [] s = tt
SameLength-delete len cid ((c, id) ∷ routes) s =
    ground (arith, SameLength-delete len cid routes s.1)

put-ne-nil : (conn_id : ℕ) (cid : Bytes) (routes : Routes) → Maps.put cid conn_id routes ≢ []
unfolding Maps.put
put-ne-nil conn_id cid [] e = cc
put-ne-nil conn_id cid ((c, id) ∷ routes) e = ground arith

Tables-insert_sorted :
    (len : ℕ) (routes : Routes) (m : List (ℕ × Routes))
    → routes ≢ []
    → SameLength len routes
    → Tables m
    → Tables (insert_sorted len routes m)
unfolding insert_sorted
Tables-insert_sorted len routes [] n s t = (n, s, tt)
Tables-insert_sorted len routes ((k, old) ∷ m) n s t =
    ground (arith, Tables-insert_sorted len routes m n s t.2)

Tables-remove_sorted : (len : ℕ) (m : List (ℕ × Routes)) → Tables m → Tables (remove_sorted len m)
unfolding remove_sorted
Tables-remove_sorted len [] t = tt
Tables-remove_sorted len ((k, old) ∷ m) t = ground (arith, Tables-remove_sorted len m t.2)

Tables-lookup :
    (len : ℕ) (routes : Routes) (m : List (ℕ × Routes))
    → Tables m
    → lookup len m ≡ some routes
    → (routes ≢ []) × SameLength len routes
unfolding lookup
Tables-lookup len routes [] t e = absurd (cc)
Tables-lookup len routes ((k, old) ∷ m) t e = elim (Bool-cases (nat_eq len k)) [
  | inl f ↦
      let same : old ≡ routes = ground (arith, f) in
      let key : k ≡ len = omega tests in
      (λ g. t.0 (same ∙ g), subst (λ l. SameLength l routes) key (subst (SameLength k) same t.1))
  | inr f ↦ Tables-lookup len routes m t.2 (rw f at e)
]

insert_table-IsValid :
    (r : CidRoutes) (len : ℕ) (routes : Routes)
    → 0 < len
    → routes ≢ []
    → SameLength len routes
    → IsValid r
    → IsValid (record { by_length = insert_sorted len routes r.by_length })
insert_table-IsValid r len routes h n s v = record {
  ascending = insert_sorted-Ascending 0 len routes r.by_length h v.ascending;
  tables = Tables-insert_sorted len routes r.by_length n s v.tables;
}

-- Registration keeps the index valid: lengths in order, no table empty, and each connection ID in the
-- table of its length.
pub insert-IsValid :
    (r : CidRoutes) (cid : Bytes) (conn_id : ℕ) → IsValid r → IsValid (insert r cid conn_id).0
unfolding insert
insert-IsValid r [] conn_id v = v
insert-IsValid r (b ∷ cid) conn_id v = elim (Option-cases (lookup (suc (length cid)) r.by_length)) [
  | inl e ↦
      rw (e, insert_nonempty)
        (unfold Maps.get in
          insert_table-IsValid r _ (Maps.put (b ∷ cid) conn_id []) (omega arith)
            (put-ne-nil conn_id (b ∷ cid) []) (SameLength-put _ conn_id (b ∷ cid) [] refl tt) v)
  | inr (routes, e) ↦
      rw (e, insert_nonempty)
        (let t = Tables-lookup _ routes r.by_length v.tables e in
          elim (Option-cases (Maps.get (b ∷ cid) routes)) [
            | inl f ↦
                rw (f, claim)
                  (insert_table-IsValid r _ _ (omega arith) (put-ne-nil conn_id (b ∷ cid) routes)
                    (SameLength-put _ conn_id (b ∷ cid) routes refl t.1) v)
            | inr (owner, f) ↦
                rw (f, claim) (insert_table-IsValid r _ routes (omega arith) t.0 t.1 v)
          ])
]

put_back-IsValid :
    (r : CidRoutes) (len : ℕ) (routes : Routes)
    → 0 < len
    → SameLength len routes
    → IsValid r
    → IsValid (record { by_length = put_back len routes r.by_length })
unfolding put_back
put_back-IsValid r len [] h s v = record {
  ascending = remove_sorted-Ascending 0 len r.by_length v.ascending;
  tables = Tables-remove_sorted len r.by_length v.tables;
}
put_back-IsValid r len (x ∷ routes) h s v = insert_table-IsValid r len (x ∷ routes) h (λ e. cc) s v

lookup-pos :
    (r : CidRoutes) (len : ℕ) (routes : Routes)
    → IsValid r
    → lookup len r.by_length ≡ some routes
    → 0 < len
lookup-pos r zero routes v e = absurd (cc (lookup_below 0 0 r.by_length v.ascending (omega arith)))
lookup-pos r (suc len) routes v e = omega arith

-- Removal keeps the index valid: a table that becomes empty goes.
pub remove-IsValid : (r : CidRoutes) (cid : Bytes) → IsValid r → IsValid (remove r cid).0
unfolding remove
remove-IsValid r cid v = elim (Option-cases (lookup (length cid) r.by_length)) [
  | inl e ↦ rw (e, remove_in) v
  | inr (routes, e) ↦
      rw (e, remove_in)
        (put_back-IsValid r _ _ (lookup-pos r (length cid) routes v e)
          (SameLength-delete _ cid routes (Tables-lookup _ routes r.by_length v.tables e).1) v)
]
