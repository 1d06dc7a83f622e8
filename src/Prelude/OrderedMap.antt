-- ===== src/Prelude/OrderedMap.antt =====
-- `BTreeMap` with numbers as keys: the list of its entries in the order of their keys.
use Prim.Native.Nat.{ℕ, suc, ◌≤◌, ◌<◌}
use mathlib.Core.List.{List, [], ◌∷◌}
use mathlib.Core.Option.{Option, none, some}
use mathlib.Core.Path.{◌≡◌, refl}
use native.Mathlib.Omega.{arith}
use sni_router.Prelude.Lists.{length}
use sni_router.Prelude.Tests.{ltb, nat_eq, if◌then◌else◌}

module _ {ℓ} {V : Type ℓ} where
  unfoldable pub lookup : ℕ → List (ℕ × V) → Option V
  lookup k [] = none
  lookup k ((j, v) ∷ m) = if nat_eq k j then some v else lookup k m

  unfoldable pub insert_sorted : ℕ → V → List (ℕ × V) → List (ℕ × V)
  insert_sorted k v [] = (k, v) ∷ []
  insert_sorted k v ((j, w) ∷ m) =
      if ltb k j
      then (k, v) ∷ (j, w) ∷ m
      else if nat_eq k j
      then (k, v) ∷ m
      else (j, w) ∷ insert_sorted k v m

  unfoldable pub remove_sorted : ℕ → List (ℕ × V) → List (ℕ × V)
  remove_sorted k [] = []
  remove_sorted k ((j, v) ∷ m) = if nat_eq k j then m else (j, v) ∷ remove_sorted k m

  -- Keys rise, and are above `lo`.
  abbrev pub Ascending : ℕ → List (ℕ × V) → Type 0
  Ascending lo [] = Unit {0}
  Ascending lo ((k, _) ∷ m) = (lo < k) × Ascending k m

module _ {ℓ} {V : Type ℓ} where
  pub Ascending-le : (lo n : ℕ) (m : List (ℕ × V)) → n ≤ lo → Ascending lo m → Ascending n m
  Ascending-le lo n [] h a = tt
  Ascending-le lo n ((k, v) ∷ m) h a = (omega arith, a.1)

  pub insert_sorted-Ascending :
      (lo k : ℕ) (v : V) (m : List (ℕ × V))
      → lo < k
      → Ascending lo m
      → Ascending lo (insert_sorted k v m)
  unfolding insert_sorted
  insert_sorted-Ascending lo k v [] h a = (h, tt)
  insert_sorted-Ascending lo k v ((j, w) ∷ m) h a = ground (arith, insert_sorted-Ascending j k v m)

  pub remove_sorted-Ascending :
      (lo k : ℕ) (m : List (ℕ × V)) → Ascending lo m → Ascending lo (remove_sorted k m)
  unfolding remove_sorted
  remove_sorted-Ascending lo k [] a = tt
  remove_sorted-Ascending lo k ((j, w) ∷ m) a =
      ground (arith, remove_sorted-Ascending j k m a.1, Ascending-le j lo m)

  pub lookup_below : (lo k : ℕ) (m : List (ℕ × V)) → Ascending lo m → k ≤ lo → lookup k m ≡ none
  unfolding lookup
  lookup_below lo k [] a h = refl
  lookup_below lo k ((j, w) ∷ m) a h = ground (arith, lookup_below j k m a.1)

  pub lookup-insert_sorted :
      (k j : ℕ) (v : V) (m : List (ℕ × V))
      → lookup j (insert_sorted k v m) ≡ (if nat_eq k j then some v else lookup j m)
  unfolding lookup insert_sorted
  lookup-insert_sorted k j v [] = ground arith
  lookup-insert_sorted k j v ((i, w) ∷ m) = ground (arith, lookup-insert_sorted k j v m)

  pub lookup-remove_sorted :
      (lo k j : ℕ) (m : List (ℕ × V))
      → Ascending lo m
      → lookup j (remove_sorted k m) ≡ (if nat_eq k j then none else lookup j m)
  unfolding lookup remove_sorted
  lookup-remove_sorted lo k j [] a = ground arith
  lookup-remove_sorted lo k j ((i, w) ∷ m) a =
      ground (arith, lookup-remove_sorted i k j m a.1, lookup_below i k m a.1)

  pub length-insert_sorted :
      (k : ℕ) (v : V) (m : List (ℕ × V)) → length (insert_sorted k v m) ≤ suc (length m)
  unfolding insert_sorted
  length-insert_sorted k v [] = omega arith
  length-insert_sorted k v ((j, w) ∷ m) = ground (arith, length-insert_sorted k v m)

  -- A key that is present is replaced.
  pub length-insert_sorted_present :
      (lo k : ℕ) (v old : V) (m : List (ℕ × V))
      → Ascending lo m
      → lookup k m ≡ some old
      → length (insert_sorted k v m) ≡ length m
  unfolding insert_sorted lookup
  length-insert_sorted_present lo k v old [] a e = cc
  length-insert_sorted_present lo k v old ((j, w) ∷ m) a e =
      ground (arith, lookup_below j k m a.1, length-insert_sorted_present j k v old m a.1)
