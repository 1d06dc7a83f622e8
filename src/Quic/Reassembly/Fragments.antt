-- ===== src/Quic/Reassembly/Fragments.antt =====
-- The positions of the stream that the ordered map of fragments covers.
use sni_router.Prelude.{
  ℕ, true, ◌+◌, ◌≤◌, ◌<◌, ◌≡◌, ◌⊎◌, inl, inr, [], ◌∷◌, some, Bool-cases, ltb, nat_eq, tests, arith,
  length,
}
use sni_router.Prelude.Outcomes.{Bytes}
use sni_router.Prelude.OrderedMap.{lookup, insert_sorted, Ascending}
use sni_router.Quic.Reassembly.{Fragments}

abbrev pub InPiece : ℕ → ℕ → Bytes → Type 0
InPiece p o part = (o ≤ p) × (p < o + length part)

abbrev pub Covers : ℕ → Fragments → Type 0
Covers p [] = ⊥
Covers p ((o, part) ∷ fs) = InPiece p o part ⊎ Covers p fs

pub Covers-above : (p lo : ℕ) (fs : Fragments) → Ascending lo fs → p ≤ lo → ¬ Covers p fs
Covers-above p lo [] a h c = c
Covers-above p lo ((o, part) ∷ fs) a h (inl c) = omega arith
Covers-above p lo ((o, part) ∷ fs) a h (inr c) = Covers-above p o fs a.1 (omega arith) c

pub Covers-insert_sorted_self :
    (p k : ℕ) (part : Bytes) (fs : Fragments)
    → InPiece p k part
    → Covers p (insert_sorted k part fs)
unfolding insert_sorted
Covers-insert_sorted_self p k part [] h = inl h
Covers-insert_sorted_self p k part ((o, old) ∷ fs) h = elim (Bool-cases (ltb k o)) [
  | inl e ↦ rw e (inl h)
  | inr e ↦ rw e (elim (Bool-cases (nat_eq k o)) [
    | inl f ↦ rw f (inl h)
    | inr f ↦ rw f (inr (Covers-insert_sorted_self p k part fs h))
  ])
]

-- Replacing a fragment by a longer one loses no position.
pub Covers-insert_sorted :
    (p k : ℕ) (part : Bytes) (fs : Fragments)
    → ((old : Bytes) → lookup k fs ≡ some old → length old ≤ length part)
    → Covers p fs
    → Covers p (insert_sorted k part fs)
unfolding insert_sorted lookup
Covers-insert_sorted p k part [] longer c = absurd c
Covers-insert_sorted p k part ((o, old) ∷ fs) longer c = elim (Bool-cases (ltb k o)) [
  | inl e ↦ rw e (inr c)
  | inr e ↦ rw e (elim (Bool-cases (nat_eq k o)) [
    | inl f ↦ rw f (here f (longer old (rw f)) c)
    | inr f ↦ rw f (there (Covers-insert_sorted p k part fs (λ w g. longer w (rw f g))) c)
  ])
]
  where
    here :
        nat_eq k o ≡ true
        → length old ≤ length part
        → Covers p ((o, old) ∷ fs)
        → Covers p ((k, part) ∷ fs)
    here f l (inl h) = inl (omega tests, omega tests)
    here f l (inr h) = inr h

    there :
        (Covers p fs → Covers p (insert_sorted k part fs))
        → Covers p ((o, old) ∷ fs)
        → Covers p ((o, old) ∷ insert_sorted k part fs)
    there g (inl h) = inl h
    there g (inr h) = inr (g h)

-- A stored fragment covers its own positions.
pub Covers-lookup :
    (p k : ℕ) (part : Bytes) (fs : Fragments)
    → lookup k fs ≡ some part
    → InPiece p k part
    → Covers p fs
unfolding lookup
Covers-lookup p k part [] e h = absurd (cc)
Covers-lookup p k part ((o, old) ∷ fs) e h = elim (Bool-cases (nat_eq k o)) [
  | inl f ↦ inl (ground (arith))
  | inr f ↦ inr (Covers-lookup p k part fs (rw f at e) h)
]
