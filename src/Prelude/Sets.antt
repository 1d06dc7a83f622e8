-- ===== src/Prelude/Sets.antt =====
-- `HashSet` as a list of its entries, each of which is inserted once.
use mathlib.Core.Bool.{Bool, true, false, not, ◌||◌}
use mathlib.Core.List.{List, [], ◌∷◌, ◌++◌}
use mathlib.Core.Logic.{inl, inr}
use mathlib.Core.Path.{◌≡◌, refl, subst}
use Prim.Native.Nat.{suc, ◌≤◌}
use native.Mathlib.Omega.{arith}
use sni_router.Prelude.Equality.{Key, ◌==◌}
use sni_router.Prelude.Lists.{length, length-append}
use sni_router.Prelude.Tests.{if◌then◌else◌, Bool-cases}

module _ {ℓ} {A : Type ℓ} where
  unfoldable pub filter : (A → Bool) → List A → List A
  filter p [] = []
  filter p (x ∷ xs) = let rest = filter p xs in if p x then x ∷ rest else rest

  unfoldable pub any : (A → Bool) → List A → Bool
  any p [] = false
  any p (x ∷ xs) = p x || any p xs

  pub length-filter_le : (p : A → Bool) (xs : List A) → length (filter p xs) ≤ length xs
  unfolding filter
  length-filter_le p [] = omega arith
  length-filter_le p (x ∷ xs) = ground (arith, length-filter_le p xs)

module _ {ℓ} {A : Type ℓ} ⦃e : Key A⦄ where
  abbrev pub member : A → List A → Bool
  member a xs = any (λ x. x == a) xs

  abbrev pub insert : A → List A → List A
  insert a xs = if member a xs then xs else xs ++ a ∷ []

  abbrev pub remove : A → List A → List A
  remove a xs = filter (λ x. not (x == a)) xs

  -- `collect` into a set.
  unfoldable pub insert_each : List A → List A → List A
  insert_each [] set = set
  insert_each (x ∷ xs) set = insert_each xs (insert x set)

  pub member-append : (a b : A) (xs : List A) → member a (xs ++ b ∷ []) ≡ (member a xs || (b == a))
  unfolding any
  member-append a b [] = ground arith
  member-append a b (x ∷ xs) = ground (arith, member-append a b xs)

  pub member-remove :
      (a b : A) (xs : List A) → member a (remove b xs) ≡ (if b == a then false else member a xs)
  unfolding any filter
  member-remove a b [] = ground arith
  member-remove a b (x ∷ xs) =
      ground (arith, member-remove a b xs, e.eq_iff b a, e.eq_iff x b, e.eq_iff x a)

  pub length-insert_le : (a : A) (xs : List A) → length (insert a xs) ≤ suc (length xs)
  length-insert_le a xs = ground (arith, length-append xs (a ∷ []))

  pub member-insert_each :
      (a : A) (xs set : List A) → member a (insert_each xs set) ≡ (member a set || member a xs)
  unfolding insert_each any
  member-insert_each a [] set = ground arith
  member-insert_each a (x ∷ xs) set = elim (Bool-cases (member x set)) [
    | inl h ↦ rw h (ground (arith, h, member-insert_each a xs set, e.eq_iff x a))
    | inr h ↦ rw h (ground (arith, member-insert_each a xs (set ++ x ∷ []), member-append a x set))
  ]

  pub member-filter :
      (p : A → Bool) (a : A) (xs : List A)
      → member a (filter p xs) ≡ true
      → (p a ≡ true) × (member a xs ≡ true)
  unfolding any filter
  member-filter p a [] h = absurd (ground arith)
  member-filter p a (x ∷ xs) h = elim (Bool-cases (p x)) [
    | inl g ↦ elim (Bool-cases (x == a)) [
      | inl f ↦ (subst (λ y. p y ≡ true) ((e.eq_iff x a).0 f) g, rw f refl)
      | inr f ↦ let (q, m) = member-filter p a xs (ground (arith, g, f, h)) in (q, rw (f, m) refl)
    ]
    | inr g ↦ let (q, m) = member-filter p a xs (ground (arith, g, h)) in (q, ground (arith, m))
  ]

  pub any-member :
      (p : A → Bool) (a : A) (xs : List A) → any p xs ≡ false → member a xs ≡ true → p a ≡ false
  unfolding any
  any-member p a [] h m = absurd (ground arith)
  any-member p a (x ∷ xs) h m = elim (Bool-cases (x == a)) [
    | inl f ↦ subst (λ y. p y ≡ false) ((e.eq_iff x a).0 f) (ground (arith, h))
    | inr f ↦ any-member p a xs (ground (arith, h)) (ground (arith, f, m))
  ]
