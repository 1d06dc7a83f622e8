-- ===== src/CidRoutes/Longest.antt =====
-- `match_prefix` walks the index by length; the independent description tries every prefix of the bytes,
-- the longest first.
use mathlib.Core.List.{reverse, reverse-cons}
use sni_router.Prelude.{
  ℕ, zero, suc, ◌≤◌, ◌≡◌, refl, ap, ◌∙◌, inl, inr, List, [], ◌∷◌, ◌++◌, Option, none, some,
  Bool-cases, leb, length, take, length-take, if◌then◌else◌, arith,
}
use sni_router.Prelude.Equality.{bytes_Key}
use sni_router.Prelude.Maps
use sni_router.Prelude.OrderedMap.{lookup, Ascending, lookup_below}
use sni_router.Prelude.Outcomes.{Bytes}
use sni_router.CidRoutes.{Routes, CidRoutes, get, get_in, range_to, find_prefix, match_prefix}
use sni_router.CidRoutes.Shape.{IsValid}

abbrev pub or_else : Option ℕ → Option ℕ → Option ℕ
or_else none o = o
or_else (some id) o = some id

-- The owner of the longest registered prefix of `n` bytes at most.
pub longest_owner : CidRoutes → Bytes → ℕ → Option ℕ
longest_owner r bytes zero = none
longest_owner r bytes (suc n) = or_else (get r (take (suc n) bytes)) (longest_owner r bytes n)

-- The walk, from the front of the index.
abbrev best : Bytes → ℕ → List (ℕ × Routes) → Option ℕ
best bytes n m = find_prefix bytes (reverse (range_to n m))

or_else_assoc : (a b c : Option ℕ) → or_else (or_else a b) c ≡ or_else a (or_else b c)
or_else_assoc none b c = refl
or_else_assoc (some id) b c = refl

find_prefix-concat :
    (bytes : Bytes) (m : List (ℕ × Routes)) (len : ℕ) (routes : Routes)
    → find_prefix bytes (m ++ (len, routes) ∷ [])
      ≡ or_else (find_prefix bytes m) (Maps.get (take len bytes) routes)
unfolding find_prefix
find_prefix-concat bytes [] len routes = ground arith
find_prefix-concat bytes ((k, rs) ∷ m) len routes =
    ground (arith, find_prefix-concat bytes m len routes)

best-cons :
    (bytes : Bytes) (n len : ℕ) (routes : Routes) (m : List (ℕ × Routes))
    → best bytes n ((len, routes) ∷ m)
      ≡ (if leb len n then or_else (best bytes n m) (Maps.get (take len bytes) routes) else none)
unfolding range_to
best-cons bytes n len routes m = elim (Bool-cases (leb len n)) [
  | inl e ↦ rw e (
      ap (find_prefix bytes) (reverse-cons (len, routes) (range_to n m))
      ∙ find_prefix-concat bytes (reverse (range_to n m)) len routes)
  | inr e ↦ rw e (unfold find_prefix in refl)
]

best_below :
    (bytes : Bytes) (lo n : ℕ) (m : List (ℕ × Routes))
    → Ascending lo m
    → n ≤ lo
    → best bytes n m ≡ none
best_below bytes lo n [] a h = unfold find_prefix range_to in refl
best_below bytes lo n ((len, routes) ∷ m) a h = best-cons bytes n len routes m ∙ ground arith

-- One length more is one table more to look in.
best-suc :
    (bytes : Bytes) (lo n : ℕ) (m : List (ℕ × Routes))
    → Ascending lo m
    → best bytes (suc n) m
      ≡ or_else (get_in (take (suc n) bytes) (lookup (suc n) m)) (best bytes n m)
unfolding lookup
best-suc bytes lo n [] a = unfold find_prefix range_to in refl
best-suc bytes lo n ((len, routes) ∷ m) a =
    rw (best-cons bytes (suc n) len routes m, best-cons bytes n len routes m)
      (ground (
        arith,
        best-suc bytes len n m a.1,
        best_below bytes len (suc n) m a.1,
        best_below bytes len n m a.1,
        lookup_below len (suc n) m a.1,
        or_else_assoc (get_in (take (suc n) bytes) (lookup (suc n) m)) (best bytes n m)
            (Maps.get (take len bytes) routes),
      ))

length-take_le : (n : ℕ) (bytes : Bytes) → n ≤ length bytes → length (take n bytes) ≡ n
length-take_le n bytes h = omega (arith, length-take n bytes)

best-longest :
    (r : CidRoutes) (bytes : Bytes) (n : ℕ)
    → IsValid r
    → n ≤ length bytes
    → best bytes n r.by_length ≡ longest_owner r bytes n
unfolding longest_owner get
best-longest r bytes zero v h = best_below bytes 0 0 r.by_length v.ascending (omega arith)
best-longest r bytes (suc n) v h =
    best-suc bytes 0 n r.by_length v.ascending
    ∙ rw (length-take_le (suc n) bytes h, best-longest r bytes n v (omega arith))

-- In a valid index the walk finds the owner of the longest registered prefix of the bytes, and none
-- where no prefix is registered.
pub match_prefix-longest_owner :
    (r : CidRoutes) (bytes : Bytes)
    → IsValid r
    → match_prefix r bytes ≡ longest_owner r bytes (length bytes)
unfolding match_prefix
match_prefix-longest_owner r bytes v = best-longest r bytes (length bytes) v (omega arith)
