-- ===== src/Prelude/Outcomes.antt =====
-- What a fallible Rust function does: it returns `Ok`, returns `Err`, or panics on an index out of
-- range. A loop on fuel has a fourth outcome, which the theorems exclude.
use Prim.Native.Nat.{ℕ, zero, suc, ◌-◌, ◌≤◌, ◌<◌}
use mathlib.Core.Bool.{Bool, true, false, ◌&&◌}
use mathlib.Core.List.{List, [], ◌∷◌}
use mathlib.Core.Option.{Option, none, some}
use mathlib.Core.Path.{◌≡◌, refl, subst}
use native.Mathlib.Omega.{arith}
use sni_router.Prelude.Tests.{leb, le→leb, if◌then◌else◌}
use sni_router.Prelude.Lists.{length, get_elem?, take, drop, length-take, length-drop}

abbrev pub Bytes : Type 0
Bytes = List ℕ

pub data Outcome {ℓ} (E : Type 0) (A : Type ℓ) : Type ℓ where
  ok : A → Outcome E A
  err : E → Outcome E A
  panic : Outcome E A
  out_of_fuel : Outcome E A

module _ {E : Type 0} where
  infixl 5 ◌>>=◌ ◌>>◌
  unfoldable pub ◌>>=◌ {ℓ κ} :
      {A : Type ℓ} {B : Type κ} → Outcome E A → (A → Outcome E B) → Outcome E B
  ok a >>= f = f a
  err e >>= f = err e
  panic >>= f = panic
  out_of_fuel >>= f = out_of_fuel

  abbrev pub ◌>>◌ {ℓ} : {B : Type ℓ} → Outcome E (Unit {0}) → Outcome E B → Outcome E B
  m >> k = m >>= λ _. k

  -- `if test { bail!(e) }`
  unfoldable pub bail_if : Bool → E → Outcome E (Unit {0})
  bail_if true e = err e
  bail_if false e = ok tt

  -- `option.ok_or(e)?`
  unfoldable pub ok_or {ℓ} : {A : Type ℓ} → Option A → E → Outcome E A
  ok_or none e = err e
  ok_or (some a) e = ok a

  abbrev pub expect {ℓ} : {A : Type ℓ} → Option A → Outcome E A
  expect none = panic
  expect (some a) = ok a

  -- `bytes[i]`
  unfoldable pub index : Bytes → ℕ → Outcome E ℕ
  index bytes i = expect (get_elem? bytes i)

  -- `&bytes[from..to]`
  unfoldable pub slice {ℓ} : {A : Type ℓ} → List A → ℕ → ℕ → Outcome E (List A)
  slice bytes from to =
      if leb from to && leb to (length bytes)
      then ok (take (to - from) (drop from bytes))
      else panic

-- What a test, and a proof that runs the code, unfolds.
unfoldable pub run_steps : Unit {0}
unfolding ◌>>=◌ bail_if ok_or index slice
run_steps = tt

-- The computation returns a value with `P`, or an error: it neither panics nor runs out of fuel.
pub data Post {ℓ} {E : Type 0} {A : Type ℓ} (P : A → Type 0) : Outcome E A → Type ℓ where
  returns : {a : A} → P a → Post P (ok a)
  fails : {e : E} → Post P (err e)

module _ {E : Type 0} where
  pub Post-bind {ℓ κ} :
      {A : Type ℓ} {B : Type κ} {P : A → Type 0} {Q : B → Type 0} (m : Outcome E A)
      (f : A → Outcome E B)
      → Post P m
      → ((a : A) → P a → Post Q (f a))
      → Post Q (m >>= f)
  unfolding ◌>>=◌
  Post-bind _ f (returns {a} h) k = k a h
  Post-bind _ f fails k = fails

  pub Post-ok_or {ℓ κ} :
      {A : Type ℓ} {B : Type κ} {Q : B → Type 0} (o : Option A) (e : E) (f : A → Outcome E B)
      → ((a : A) → o ≡ some a → Post Q (f a))
      → Post Q (ok_or o e >>= f)
  unfolding run_steps
  Post-ok_or none e f k = fails
  Post-ok_or (some a) e f k = k a refl

  pub Post-bail_if {κ} :
      {B : Type κ} {Q : B → Type 0} (b : Bool) (e : E) (m : Outcome E B)
      → (b ≡ false → Post Q m)
      → Post Q (bail_if b e >> m)
  unfolding run_steps
  Post-bail_if true e m k = fails
  Post-bail_if false e m k = k refl

  pub Post-weaken {ℓ} :
      {A : Type ℓ} {P Q : A → Type 0} {m : Outcome E A}
      → Post P m
      → ((a : A) → P a → Q a)
      → Post Q m
  Post-weaken (returns {a} h) k = returns (k a h)
  Post-weaken fails k = fails

  pub Post-both {ℓ} :
      {A : Type ℓ} {P Q : A → Type 0} {m : Outcome E A}
      → Post P m
      → Post Q m
      → Post (λ a. P a × Q a) m
  Post-both (returns h) (returns k) = returns (h, k)
  Post-both fails fails = fails

  -- With the equation that the computation returns it.
  pub Post-self :
      {A : Type 0} {P : A → Type 0} {m : Outcome E A} → Post P m → Post (λ a. (m ≡ ok a) × P a) m
  Post-self (returns h) = returns (refl, h)
  Post-self fails = fails

  pub Post-eq {ℓ} :
      {A : Type ℓ} {P : A → Type 0} {m : Outcome E A} {a : A} → Post P m → m ≡ ok a → P a
  Post-eq {P} (returns {a} h) e = subst P (cc) h
  Post-eq fails e = absurd (cc)

  index-get : (bytes : Bytes) (i : ℕ) → i < length bytes → (x : ℕ) × (index {E = E} bytes i ≡ ok x)
  unfolding index
  index-get [] i h = absurd (omega arith)
  index-get (x ∷ bytes) zero h = (x, refl)
  index-get (x ∷ bytes) (suc i) h = index-get bytes i (omega arith)

  pub Post-index {κ} :
      {B : Type κ} {Q : B → Type 0} (bytes : Bytes) (i : ℕ) (f : ℕ → Outcome E B)
      → i < length bytes
      → ((x : ℕ) → Post Q (f x))
      → Post Q (index bytes i >>= f)
  unfolding ◌>>=◌
  Post-index bytes i f h k = let (x, e) = index-get bytes i h in rw e (k x)

  pub Post-slice {ℓ κ} :
      {A : Type ℓ} {B : Type κ} {Q : B → Type 0} (bytes : List A) (from to : ℕ)
      (f : List A → Outcome E B)
      → from ≤ to
      → to ≤ length bytes
      → ((part : List A) → length part ≡ to - from → Post Q (f part))
      → Post Q (slice bytes from to >>= f)
  unfolding run_steps
  Post-slice bytes from to f h k body =
      rw (le→leb from to h, le→leb to (length bytes) k)
        (body _ (omega (arith, length-take (to - from) (drop from bytes), length-drop from bytes)))
