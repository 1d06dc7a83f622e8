-- ===== src/Prelude/Equality.antt =====
-- `==` of the keys of a hash map, as an instance.
use Prim.Native.Nat.{ℕ}
use mathlib.Core.Bool.{Bool, true, false, ◌&&◌}
use mathlib.Core.List.{[], ◌∷◌}
use mathlib.Core.Logic.{◌↔◌}
use mathlib.Core.Path.{◌≡◌}
use native.Mathlib.Omega.{arith}
use sni_router.Prelude.Tests.{nat_eq, nat_eq_iff}
use sni_router.Prelude.Outcomes.{Bytes}

unfoldable pub bytes_eq : Bytes → Bytes → Bool
bytes_eq [] [] = true
bytes_eq (x ∷ xs) (y ∷ ys) = nat_eq x y && bytes_eq xs ys
bytes_eq _ _ = false

pub bytes_eq_iff : (a b : Bytes) → (bytes_eq a b ≡ true) ↔ (a ≡ b)
unfolding bytes_eq
bytes_eq_iff (x ∷ a) (y ∷ b) = ground (arith, bytes_eq_iff a b)
bytes_eq_iff _ _ = ground arith

-- A type of keys: the derived `==` and that it decides equality.
pub record Key {ℓ} (K : Type ℓ) : Type ℓ where
  pub eq : K → K → Bool
  pub eq_iff : (a b : K) → (eq a b ≡ true) ↔ (a ≡ b)

module _ {ℓ} {K : Type ℓ} ⦃key : Key K⦄ where
  infix 50 ◌==◌
  abbrev pub ◌==◌ : K → K → Bool
  a == b = key.eq a b

instance abbrev pub bytes_Key : Key Bytes
bytes_Key = record { eq = bytes_eq; eq_iff = bytes_eq_iff }

module _ {ℓ κ} {A : Type ℓ} {B : Type κ} ⦃e : Key A⦄ ⦃f : Key B⦄ where
  abbrev pub pair_eq : A × B → A × B → Bool
  pair_eq p q = e.eq p.0 q.0 && f.eq p.1 q.1

  pub pair_eq_iff : (p q : A × B) → (pair_eq p q ≡ true) ↔ (p ≡ q)
  pair_eq_iff (a, b) (c, d) = ground (arith, e.eq_iff a c, f.eq_iff b d)

  instance abbrev pub pair_Key : Key (A × B)
  pair_Key = record { eq = pair_eq; eq_iff = pair_eq_iff }

instance abbrev pub nat_Key : Key ℕ
nat_Key = record { eq = nat_eq; eq_iff = nat_eq_iff }
