-- ===== src/CidRoutes.antt =====
-- `CidRoutes` of src/h3_cid_routes.rs: connection IDs indexed by their length. A method that takes
-- `&mut self` returns the new index beside its result.
pub mod Shape
pub mod Laws
pub mod Longest
use mathlib.Core.List.{reverse}
use sni_router.Prelude.{
  ℕ, Bool, true, false, List, [], ◌∷◌, Option, none, some, leb, nat_eq, length, take, if◌then◌else◌,
}
use sni_router.Prelude.Equality.{bytes_Key}
use sni_router.Prelude.Maps
use sni_router.Prelude.Maps.{Map}
use sni_router.Prelude.OrderedMap.{lookup, insert_sorted, remove_sorted}
use sni_router.Prelude.Outcomes.{Bytes}

abbrev pub Routes : Type 0
Routes = Map Bytes ℕ

pub record CidRoutes : Type 0 where
  pub by_length : List (ℕ × Routes)

abbrev pub empty_routes : CidRoutes
empty_routes = record { by_length = [] }

-- `entry(len).or_default()`
abbrev or_default : Option Routes → Routes
or_default none = []
or_default (some routes) = routes

-- `entry(cid)` of the routes of one length: a vacant entry is filled, an occupied one is kept.
claim : List (ℕ × Routes) → Bytes → ℕ → Routes → Option ℕ → CidRoutes × Bool
claim by_length cid conn_id routes none = (
  record { by_length = insert_sorted (length cid) (Maps.put cid conn_id routes) by_length },
  true,
)
claim by_length cid conn_id routes (some owner) =
    (record { by_length = insert_sorted (length cid) routes by_length }, nat_eq owner conn_id)

insert_nonempty : CidRoutes → Bytes → ℕ → CidRoutes × Bool
insert_nonempty r cid conn_id =
    let routes = or_default (lookup (length cid) r.by_length) in
    claim r.by_length cid conn_id routes (Maps.get cid routes)

unfoldable pub insert : CidRoutes → Bytes → ℕ → CidRoutes × Bool
unfolding claim insert_nonempty
insert r [] conn_id = (r, false)
insert r (b ∷ cid) conn_id = insert_nonempty r (b ∷ cid) conn_id

abbrev get_in : Bytes → Option Routes → Option ℕ
get_in cid none = none
get_in cid (some routes) = Maps.get cid routes

unfoldable pub get : CidRoutes → Bytes → Option ℕ
get r cid = get_in cid (lookup (length cid) r.by_length)

-- What `remove` leaves of the routes of one length: an empty table goes.
put_back : ℕ → Routes → List (ℕ × Routes) → List (ℕ × Routes)
put_back len [] by_length = remove_sorted len by_length
put_back len (route ∷ routes) by_length = insert_sorted len (route ∷ routes) by_length

remove_in : CidRoutes → Bytes → Option Routes → CidRoutes × Option ℕ
remove_in r cid none = (r, none)
remove_in r cid (some routes) = (
  record { by_length = put_back (length cid) (Maps.delete cid routes) r.by_length },
  Maps.get cid routes,
)

unfoldable pub remove : CidRoutes → Bytes → CidRoutes × Option ℕ
unfolding put_back remove_in
remove r cid = remove_in r cid (lookup (length cid) r.by_length)

-- `range(..=n)`: the entries with a key of at most `n`, which stand first.
range_to : ℕ → List (ℕ × Routes) → List (ℕ × Routes)
range_to n [] = []
range_to n ((len, routes) ∷ rest) = if leb len n then (len, routes) ∷ range_to n rest else []

-- `find_map(|(len, routes)| routes.get(&bytes[..*len]).copied())`. The range keeps `len` within `bytes`.
find_prefix : Bytes → List (ℕ × Routes) → Option ℕ
find_prefix bytes [] = none
find_prefix bytes ((len, routes) ∷ rest) = elim (Maps.get (take len bytes) routes) [
  | some id ↦ some id
  | none ↦ find_prefix bytes rest
]

unfoldable pub match_prefix : CidRoutes → Bytes → Option ℕ
unfolding range_to find_prefix
match_prefix r bytes = find_prefix bytes (reverse (range_to (length bytes) r.by_length))
