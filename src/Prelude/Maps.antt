-- ===== src/Prelude/Maps.antt =====
-- `HashMap` as an association list: an insertion replaces the entry of its key, or adds one at the
-- end. The order of the entries stands for the iteration order, which the program does not rely on.
pub mod Distinct
use Prim.Native.Nat.{suc, ◌≤◌}
use mathlib.Core.Bool.{Bool, true, false}
use mathlib.Core.List.{List, [], ◌∷◌}
use mathlib.Core.Option.{Option, none, some}
use mathlib.Core.Path.{◌≡◌, refl}
use native.Mathlib.Omega.{arith}
use sni_router.Prelude.Equality.{Key, ◌==◌}
use sni_router.Prelude.Lists.{length}
use sni_router.Prelude.Tests.{if◌then◌else◌}

abbrev pub Map {ℓ κ} : Type ℓ → Type κ → Type (ℓ ⊔ κ)
Map K V = List (K × V)

abbrev pub is_some {ℓ} : {A : Type ℓ} → Option A → Bool
is_some none = false
is_some (some _) = true

module _ {ℓ κ} {K : Type ℓ} {V : Type κ} ⦃e : Key K⦄ where
  unfoldable pub get : K → Map K V → Option V
  get k [] = none
  get k ((j, v) ∷ m) = if j == k then some v else get k m

  unfoldable pub put : K → V → Map K V → Map K V
  put k v [] = (k, v) ∷ []
  put k v ((j, w) ∷ m) = if j == k then (k, v) ∷ m else (j, w) ∷ put k v m

  -- All entries of the key go, of which a map has one at most.
  unfoldable pub delete : K → Map K V → Map K V
  delete k [] = []
  delete k ((j, v) ∷ m) = let rest = delete k m in if j == k then rest else (j, v) ∷ rest

  pub get-put :
      (k j : K) (v : V) (m : Map K V) → get j (put k v m) ≡ (if k == j then some v else get j m)
  unfolding get put
  get-put k j v [] = refl
  get-put k j v ((i, w) ∷ m) =
      ground (arith, e.eq_iff k j, e.eq_iff i k, e.eq_iff i j, get-put k j v m)

  pub get-delete : (k j : K) (m : Map K V) → get j (delete k m) ≡ (if k == j then none else get j m)
  unfolding get delete
  get-delete k j [] = ground arith
  get-delete k j ((i, w) ∷ m) =
      ground (arith, e.eq_iff k j, e.eq_iff i k, e.eq_iff i j, get-delete k j m)

  pub length-put_le : (k : K) (v : V) (m : Map K V) → length (put k v m) ≤ suc (length m)
  unfolding put
  length-put_le k v [] = omega arith
  length-put_le k v ((j, w) ∷ m) = ground (arith, length-put_le k v m)

  pub length-put_present :
      (k : K) (v w : V) (m : Map K V) → get k m ≡ some w → length (put k v m) ≡ length m
  unfolding get put
  length-put_present k v w [] h = cc
  length-put_present k v w ((j, u) ∷ m) h = ground (arith, length-put_present k v w m)

  pub length-delete_le : (k : K) (m : Map K V) → length (delete k m) ≤ length m
  unfolding delete
  length-delete_le k [] = omega arith
  length-delete_le k ((j, w) ∷ m) = ground (arith, length-delete_le k m)
