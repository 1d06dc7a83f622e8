-- ===== src/Prelude/Maps/Distinct.antt =====
-- Maps without two entries of one key, and sums and predicates over a map.
use mathlib.Core.List.{[], ◌∷◌}
use mathlib.Core.Logic.{inl, inr}
use mathlib.Core.Option.{Option, none, some}
use mathlib.Core.Path.{◌≡◌, refl, subst}
use Prim.Native.Nat.{ℕ, ◌+◌}
use native.Mathlib.Omega.{arith}
use sni_router.Prelude.Equality.{Key, ◌==◌}
use sni_router.Prelude.Maps.{Map, get, put, delete, get-put, get-delete}
use sni_router.Prelude.Tests.{Bool-cases}

abbrev pub weight : {V : Type 0} → (V → ℕ) → Option V → ℕ
weight f none = 0
weight f (some v) = f v

module _ {K V : Type 0} where
  -- The sum of what the values weigh.
  abbrev pub sum_of : (V → ℕ) → Map K V → ℕ
  sum_of f [] = 0
  sum_of f ((_, v) ∷ m) = f v + sum_of f m

  abbrev pub Each : (V → Type 0) → Map K V → Type 0
  Each P [] = Unit {0}
  Each P ((_, v) ∷ m) = P v × Each P m

module _ {K V : Type 0} ⦃e : Key K⦄ where
  abbrev pub Distinct : Map K V → Type 0
  Distinct [] = Unit {0}
  Distinct ((k, _) ∷ m) = (get k m ≡ none) × Distinct m

  pub sum_of-put :
      (f : V → ℕ) (k : K) (v : V) (m : Map K V)
      → sum_of f (put k v m) + weight f (get k m) ≡ sum_of f m + f v
  unfolding get put
  sum_of-put f k v [] = omega arith
  sum_of-put f k v ((j, w) ∷ m) = elim (Bool-cases (j == k)) [
    | inl h ↦ rw h (omega arith)
    | inr h ↦ rw h (omega (arith, sum_of-put f k v m))
  ]

  delete-missing : (k : K) (m : Map K V) → get k m ≡ none → delete k m ≡ m
  unfolding get delete
  delete-missing k [] h = refl
  delete-missing k ((j, w) ∷ m) h = ground (arith, delete-missing k m)

  pub sum_of-delete :
      (f : V → ℕ) (k : K) (m : Map K V)
      → Distinct m
      → sum_of f (delete k m) + weight f (get k m) ≡ sum_of f m
  unfolding get delete
  sum_of-delete f k [] d = refl
  sum_of-delete f k ((j, w) ∷ m) d = elim (Bool-cases (j == k)) [
    | inl h ↦
        rw (h, delete-missing k m (subst (λ i. get i m ≡ none) ((e.eq_iff j k).0 h) d.0))
          (omega arith)
    | inr h ↦ rw h (omega (arith, sum_of-delete f k m d.1))
  ]

  pub put-Distinct : (k : K) (v : V) (m : Map K V) → Distinct m → Distinct (put k v m)
  unfolding put
  put-Distinct k v [] d = (unfold get in refl, tt)
  put-Distinct k v ((j, w) ∷ m) d = elim (Bool-cases (j == k)) [
    | inl h ↦ rw h (subst (λ i. get i m ≡ none) ((e.eq_iff j k).0 h) d.0, d.1)
    | inr h ↦
        rw h
          (ground (arith, get-put k j v m, e.eq_iff k j, e.eq_iff j k, d.0), put-Distinct k v m d.1)
  ]

  pub delete-Distinct : (k : K) (m : Map K V) → Distinct m → Distinct (delete k m)
  unfolding delete
  delete-Distinct k [] d = tt
  delete-Distinct k ((j, w) ∷ m) d = elim (Bool-cases (j == k)) [
    | inl h ↦ rw h (delete-Distinct k m d.1)
    | inr h ↦ rw h (ground (arith, get-delete k j m, d.0), delete-Distinct k m d.1)
  ]

module _ {K V : Type 0} ⦃e : Key K⦄ (P : V → Type 0) where
  pub Each-put : (k : K) (v : V) (m : Map K V) → P v → Each P m → Each P (put k v m)
  unfolding put
  Each-put k v [] p a = (p, tt)
  Each-put k v ((j, w) ∷ m) p a = elim (Bool-cases (j == k)) [
    | inl h ↦ rw h (p, a.1)
    | inr h ↦ rw h (a.0, Each-put k v m p a.1)
  ]

  pub Each-delete : (k : K) (m : Map K V) → Each P m → Each P (delete k m)
  unfolding delete
  Each-delete k [] a = tt
  Each-delete k ((j, w) ∷ m) a = elim (Bool-cases (j == k)) [
    | inl h ↦ rw h (Each-delete k m a.1)
    | inr h ↦ rw h (a.0, Each-delete k m a.1)
  ]

  pub Each-get : (k : K) (v : V) (m : Map K V) → Each P m → get k m ≡ some v → P v
  unfolding get
  Each-get k v [] a h = absurd (cc)
  Each-get k v ((j, w) ∷ m) a h = elim (Bool-cases (j == k)) [
    | inl g ↦ subst P (ground (arith, g, h)) a.0
    | inr g ↦ Each-get k v m a.1 (ground (arith, g, h))
  ]
