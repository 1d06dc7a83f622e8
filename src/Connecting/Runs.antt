-- ===== src/Connecting/Runs.antt =====
-- What a computation on events adds to them, and how it ends.
use mathlib.Core.List.{append_assoc, append-nil}
use sni_router.Prelude.{◌≡◌, sym, ◌∙◌, List, [], ◌∷◌, ◌++◌}
use sni_router.Prelude.Outcomes.{Outcome, ok, err, panic, out_of_fuel}
use sni_router.Connecting.{
  Event, ConnectError, Result, Io, pure, fail, and_then, either, ◌>>=◌, catch, emit,
}

-- It returns with `Q` or fails with `F`: it neither panics nor runs out of fuel.
abbrev pub Holds : {A : Type 0} → (A → Type 0) → Type 0 → Outcome ConnectError A → Type 0
Holds Q F (ok a) = Q a
Holds Q F (err e) = F
Holds Q F panic = ⊥
Holds Q F out_of_fuel = ⊥

pub record Reached {A : Type 0} (Q : List Event → A → Type 0) (F : List Event → Type 0)
    (events : List Event) (r : Result A) : Type 0 where
  pub new : List Event
  pub grown : r.events ≡ events ++ new
  pub holds : Holds (Q new) (F new) r.outcome

-- From the events on, it adds to them.
abbrev pub Runs :
    {A : Type 0} → (List Event → A → Type 0) → (List Event → Type 0) → Io A → List Event → Type 0
Runs Q F m events = Reached Q F events (m events)

Holds-weaken :
    {A : Type 0} {Q Q' : A → Type 0} {F F' : Type 0} (o : Outcome ConnectError A)
    → Holds Q F o
    → ((a : A) → Q a → Q' a)
    → (F → F')
    → Holds Q' F' o
Holds-weaken (ok a) h k l = k a h
Holds-weaken (err e) h k l = l h
Holds-weaken panic h k l = h
Holds-weaken out_of_fuel h k l = h

pub Runs-weaken :
    {A : Type 0} {Q Q' : List Event → A → Type 0} {F F' : List Event → Type 0} {events : List Event}
    {r : Result A}
    → Reached Q F events r
    → ((new : List Event) (a : A) → Q new a → Q' new a)
    → ((new : List Event) → F new → F' new)
    → Reached Q' F' events r
Runs-weaken {r} h k l = record {
  new = h.new;
  grown = h.grown;
  holds = Holds-weaken r.outcome h.holds (k h.new) (l h.new);
}

module _ {A : Type 0} {Q : List Event → A → Type 0} {F : List Event → Type 0}
    {events : List Event} where
  pub Runs-pure : (a : A) → Q [] a → Runs Q F (pure a) events
  Runs-pure a h = record { new = []; grown = sym (append-nil events); holds = h }

  pub Runs-fail : (e : ConnectError) → F [] → Runs Q F (fail e) events
  Runs-fail e h = record { new = []; grown = sym (append-nil events); holds = h }

further :
    {B : Type 0} {Q' : List Event → B → Type 0} {F' : List Event → Type 0} (m : Io B)
    (events mid new : List Event)
    → mid ≡ events ++ new
    → Runs (λ more. Q' (new ++ more)) (λ more. F' (new ++ more)) m (events ++ new)
    → Reached Q' F' events (m mid)
further m events mid new e r = rw e (record {
  new = new ++ r.new;
  grown = r.grown ∙ append_assoc events new r.new;
  holds = r.holds;
})

-- What is done after the events `new`.
abbrev Then :
    {B : Type 0}
    → (List Event → B → Type 0)
    → (List Event → Type 0)
    → List Event
    → List Event
    → Io B
    → Type 0
Then Q F events new m = Runs (λ more. Q (new ++ more)) (λ more. F (new ++ more)) m (events ++ new)

module _ {A B : Type 0} {Q' : List Event → B → Type 0} {F' : List Event → Type 0} where
  and_then-Reached :
      {Qn : A → Type 0} {Fn : Type 0} (o : Outcome ConnectError A) (f : A → Io B)
      (events mid new : List Event)
      → mid ≡ events ++ new
      → Holds Qn Fn o
      → ((a : A) → Qn a → Then Q' F' events new (f a))
      → (Fn → F' new)
      → Reached Q' F' events (and_then o f mid)
  and_then-Reached (ok a) f events mid new e h k l = further (f a) events mid new e (k a h)
  and_then-Reached (err x) f events mid new e h k l = record { new = new; grown = e; holds = l h }
  and_then-Reached panic f events mid new e h k l = absurd h
  and_then-Reached out_of_fuel f events mid new e h k l = absurd h

  pub Runs-bind :
      {Q : List Event → A → Type 0} {F : List Event → Type 0} {events : List Event} (m : Io A)
      (f : A → Io B)
      → Runs Q F m events
      → ((new : List Event) (a : A)
          → Q new a
          → Runs (λ more. Q' (new ++ more)) (λ more. F' (new ++ more)) (f a) (events ++ new))
      → ((new : List Event) → F new → F' new)
      → Runs Q' F' (m >>= f) events
  unfolding ◌>>=◌
  Runs-bind {events} m f r k l =
      and_then-Reached (m events).outcome f events (m events).events r.new r.grown r.holds (k r.new)
        (l r.new)

  either-Reached :
      {Qn : A → Type 0} {Fn : Type 0} (o : Outcome ConnectError A) (f : A → Io B)
      (g : ConnectError → Io B) (events mid new : List Event)
      → mid ≡ events ++ new
      → Holds Qn Fn o
      → ((a : A) → Qn a → Then Q' F' events new (f a))
      → ((x : ConnectError) → Fn → Then Q' F' events new (g x))
      → Reached Q' F' events (either o f g mid)
  either-Reached (ok a) f g events mid new e h k l = further (f a) events mid new e (k a h)
  either-Reached (err x) f g events mid new e h k l = further (g x) events mid new e (l x h)
  either-Reached panic f g events mid new e h k l = absurd h
  either-Reached out_of_fuel f g events mid new e h k l = absurd h

  pub Runs-catch :
      {Q : List Event → A → Type 0} {F : List Event → Type 0} {events : List Event} (m : Io A)
      (f : A → Io B) (g : ConnectError → Io B)
      → Runs Q F m events
      → ((new : List Event) (a : A)
          → Q new a
          → Runs (λ more. Q' (new ++ more)) (λ more. F' (new ++ more)) (f a) (events ++ new))
      → ((new : List Event) (x : ConnectError)
          → F new
          → Runs (λ more. Q' (new ++ more)) (λ more. F' (new ++ more)) (g x) (events ++ new))
      → Runs Q' F' (catch m f g) events
  unfolding catch
  Runs-catch {events} m f g r k l =
      either-Reached (m events).outcome f g events (m events).events r.new r.grown r.holds (k r.new)
        (l r.new)

module _ {B : Type 0} {Q : List Event → B → Type 0} {F : List Event → Type 0} where
  -- An event and what follows it.
  pub Runs-emit :
      {events : List Event} (event : Event) (f : Unit {0} → Io B)
      → Runs (λ more. Q (event ∷ more)) (λ more. F (event ∷ more)) (f tt) (events ++ event ∷ [])
      → Runs Q F (emit event >>= f) events
  unfolding emit ◌>>=◌
  Runs-emit {events} event f r = record {
    new = event ∷ r.new;
    grown = r.grown ∙ append_assoc events (event ∷ []) r.new;
    holds = r.holds;
  }
