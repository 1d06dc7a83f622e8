-- ===== src/Records/Alike.antt =====
-- Computations on two connections of which the same bytes arrive.
use mathlib.Core.Path.{subst}
use sni_router.Prelude.{
  ℕ, zero, suc, ◌≤◌, ◌<◌, ◌≡◌, refl, ap, sym, [], ◌∷◌, ◌++◌, some, length, take, drop, get_elem?,
  drop-take, le→leb, arith,
}
use sni_router.Prelude.Outcomes.{Bytes, Outcome, ok, err, ◌>>=◌, index, slice, Post, returns, fails}
use sni_router.Records.{ReadError, Connection}
use sni_router.Records.Replay.{all_bytes}

-- Two computations that both return, with related results, or both fail.
pub data Alike {E A : Type 0} (R : A → A → Type 0) : Outcome E A → Outcome E A → Type 0 where
  both_return : {a b : A} → R a b → Alike R (ok a) (ok b)
  both_fail : {e : E} → Alike R (err e) (err e)

pub Alike-ok :
    {E A : Type 0} {R : A → A → Type 0} {m n : Outcome E A} {a : A}
    → Alike R m n
    → m ≡ ok a
    → (b : A) × (n ≡ ok b) × R a b
Alike-ok {R} (both_return {b} r) e = (b, refl, subst (λ x. R x b) (cc) r)
Alike-ok both_fail e = absurd (cc)

pub Alike-bind :
    {E A B : Type 0} {R : A → A → Type 0} {S : B → B → Type 0} (m n : Outcome E A)
    (f g : A → Outcome E B)
    → Alike R m n
    → ((a b : A) → R a b → Alike S (f a) (g b))
    → Alike S (m >>= f) (n >>= g)
unfolding ◌>>=◌
Alike-bind _ _ f g (both_return {a} {b} h) k = k a b h
Alike-bind _ _ f g both_fail k = both_fail

get_elem?-append :
    (xs ys : Bytes) (i : ℕ)
    → i < length xs
    → (x : ℕ) × (get_elem? xs i ≡ some x) × (get_elem? (xs ++ ys) i ≡ some x)
get_elem?-append [] ys i h = absurd (omega arith)
get_elem?-append (x ∷ xs) ys zero h = (x, refl, refl)
get_elem?-append (x ∷ xs) ys (suc i) h = get_elem?-append xs ys i (omega arith)

-- Two connections of which the same bytes arrive, and of which at least `len` are there.
abbrev pub SameUpTo : ℕ → Connection → Connection → Type 0
SameUpTo len c d = (all_bytes c ≡ all_bytes d) × (len ≤ length c.bytes) × (len ≤ length d.bytes)

pub Alike-index :
    {B : Type 0} {S : B → B → Type 0} (len : ℕ) (c d : Connection) (i : ℕ)
    (f g : ℕ → Outcome ReadError B)
    → SameUpTo len c d
    → i < len
    → ((x : ℕ) → Alike S (f x) (g x))
    → Alike S (index c.bytes i >>= f) (index d.bytes i >>= g)
unfolding ◌>>=◌ index
Alike-index len c d i f g (same, more, more') h k =
    let (x, e, e') = get_elem?-append c.bytes c.stream i (omega arith) in
    let (y, h, h') = get_elem?-append d.bytes d.stream i (omega arith) in
    let xy : x ≡ y = cc in rw (e, h, xy) (k y)

take-append : (n : ℕ) (xs ys : Bytes) → n ≤ length xs → take n (xs ++ ys) ≡ take n xs
take-append zero xs ys h = refl
take-append (suc n) [] ys h = absurd (omega arith)
take-append (suc n) (x ∷ xs) ys h = ap (λ (l : Bytes). x ∷ l) (take-append n xs ys (omega arith))

slice-all :
    (c : Connection) (from to : ℕ)
    → from ≤ to
    → to ≤ length c.bytes
    → slice {E = ReadError} c.bytes from to ≡ ok (drop from (take to (all_bytes c)))
unfolding slice
slice-all c from to h k =
    rw (le→leb from to h, le→leb to (length c.bytes) k, ← drop-take from to c.bytes)
      (ap (λ (x : Bytes). ok (drop from x)) (sym (take-append to c.bytes c.stream k)))

pub Alike-slice :
    {B : Type 0} {S : B → B → Type 0} (c d : Connection) (from to : ℕ)
    (f g : Bytes → Outcome ReadError B)
    → SameUpTo to c d
    → from ≤ to
    → ((part : Bytes) → Alike S (f part) (g part))
    → Alike S (slice c.bytes from to >>= f) (slice d.bytes from to >>= g)
unfolding ◌>>=◌
Alike-slice c d from to f g (same, more, more') h k =
    rw (slice-all c from to h more, slice-all d from to h more', same) (k _)

pub Alike-refl :
    {A : Type 0} {m : Outcome ReadError A} → Post (λ _. Unit {0}) m → Alike (λ a b. a ≡ b) m m
Alike-refl (returns h) = both_return refl
Alike-refl fails = both_fail

pub Alike-both :
    {A : Type 0} {R : A → A → Type 0} {P : A → Type 0} {m n : Outcome ReadError A}
    → Alike R m n
    → Post P m
    → Alike (λ a b. R a b × P a) m n
Alike-both (both_return r) (returns h) = both_return (r, h)
Alike-both both_fail h = both_fail
