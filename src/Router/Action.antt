-- ===== src/Router/Action.antt =====
-- Actions on the state of the router, and what one keeps on every way that it ends.
use sni_router.Prelude.{[], ◌∷◌, ◌++◌, Option, none, some}
use sni_router.Prelude.Outcomes.{Outcome, ok, err, panic, out_of_fuel, Post, returns, fails}
use sni_router.Router.{Library, Router, RouterError, Output}

pub data Ending (S A : Type 0) : Type 0 where
  done : A → S → Ending S A
  failed : RouterError → S → Ending S A
  panicked : Ending S A

abbrev pub Action : Library → Type 0 → Type 0
Action lib A = Router lib → Ending (Router lib) A

module _ {lib : Library} where
  infixl 5 ◌>>=◌ ◌>>◌
  unfoldable pub resume :
      {A B : Type 0} → Ending (Router lib) A → (A → Action lib B) → Ending (Router lib) B
  resume (done a r) f = f a r
  resume (failed e r) f = failed e r
  resume panicked f = panicked

  abbrev pub ◌>>=◌ : {A B : Type 0} → Action lib A → (A → Action lib B) → Action lib B
  ◌>>=◌ m f r = resume (m r) f

  abbrev pub ◌>>◌ : {B : Type 0} → Action lib (Unit {0}) → Action lib B → Action lib B
  m >> k = m >>= λ _. k

  abbrev pub pure : {A : Type 0} → A → Action lib A
  pure a r = done a r

  abbrev pub fail : {A : Type 0} → RouterError → Action lib A
  fail e r = failed e r

  abbrev pub abort : {A : Type 0} → Action lib A
  abort r = panicked

  abbrev pub reading : {A : Type 0} → (Router lib → Action lib A) → Action lib A
  reading f r = f r r

  abbrev pub modify : (Router lib → Router lib) → Action lib (Unit {0})
  modify f r = done tt (f r)

  abbrev pub emit : Output lib.Text → Action lib (Unit {0})
  emit o r = done tt (record r { log = r.log ++ o ∷ [] })

  -- A `match` on the result of a parser, whose panic is the router's.
  unfoldable pub attempt :
      {E A B : Type 0} → Outcome E A → (A → Action lib B) → (E → Action lib B) → Action lib B
  attempt (ok a) f g = f a
  attempt (err e) f g = g e
  attempt panic f g = abort
  attempt out_of_fuel f g = abort

  abbrev pub from_option :
      {A B : Type 0} → Option A → Action lib B → (A → Action lib B) → Action lib B
  from_option none f g = f
  from_option (some a) f g = g a

-- The action did not panic; the state that it left has `I`, and `P` holds of what it returned, where it did.
pub data Ends {S A : Type 0} (I : S → Type 0) (P : A → S → Type 0) : Ending S A → Type 0 where
  is_done : {a : A} {s : S} → I s → P a s → Ends I P (done a s)
  is_failed : {e : RouterError} {s : S} → I s → Ends I P (failed e s)

abbrev pub Anything : {A S : Type 0} → A → S → Type 0
Anything a s = Unit {0}

module _ {lib : Library} {I : Router lib → Type 0} where
  pub Ends-bind :
      {A B : Type 0} {P : A → Router lib → Type 0} {Q : B → Router lib → Type 0}
      (m : Ending (Router lib) A) (f : A → Action lib B)
      → Ends I P m
      → ((a : A) (s : Router lib) → I s → P a s → Ends I Q (f a s))
      → Ends I Q (resume m f)
  unfolding resume
  Ends-bind _ f (is_done {a} {s} i p) k = k a s i p
  Ends-bind _ f (is_failed i) k = is_failed i

  pub Ends-attempt :
      {E A B : Type 0} {P : A → Type 0} {Q : B → Router lib → Type 0} (m : Outcome E A)
      (f : A → Action lib B) (g : E → Action lib B) (r : Router lib)
      → Post P m
      → ((a : A) → P a → Ends I Q (f a r))
      → ((e : E) → Ends I Q (g e r))
      → Ends I Q (attempt m f g r)
  unfolding attempt
  Ends-attempt _ f g r (returns {a} p) k l = k a p
  Ends-attempt _ f g r (fails {e}) k l = l e

  pub Ends-weaken :
      {A : Type 0} {P Q : A → Router lib → Type 0} {m : Ending (Router lib) A}
      → Ends I P m
      → ((a : A) (s : Router lib) → P a s → Q a s)
      → Ends I Q m
  Ends-weaken (is_done {a} {s} i p) k = is_done i (k a s p)
  Ends-weaken (is_failed i) k = is_failed i
