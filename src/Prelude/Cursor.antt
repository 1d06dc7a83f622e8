-- ===== src/Prelude/Cursor.antt =====
-- A reading position in a list of bytes: what stands from position `i` on.
use sni_router.Prelude.Lists.{
  length, get_elem?, take, drop, length-append, length-drop, drop-drop, drop-length_append,
  take-length_append,
}
use sni_router.Prelude.Tests.{le→leb}
use sni_router.Prelude.Outcomes.{Bytes, ok, index, slice}
use Prim.Native.Nat.{ℕ, zero, suc, ◌+◌, ◌-◌, ◌≤◌}
use mathlib.Core.List.{List, [], ◌∷◌, ◌++◌}
use mathlib.Core.Option.{some}
use mathlib.Core.Path.{◌≡◌, refl, ap, ◌∙◌}
use native.Mathlib.Omega.{arith}

pub record At {ℓ} {A : Type ℓ} (whole : List A) (i : ℕ) (rest : List A) : Type ℓ where
  pub inside : i ≤ length whole
  pub ahead : drop i whole ≡ rest

module _ {ℓ} {A : Type ℓ} where
  pub At-zero : (whole : List A) → At whole 0 whole
  At-zero whole = record { inside = omega arith; ahead = refl }

  pub At-length :
      (whole : List A) (i : ℕ) (rest : List A) → At whole i rest → length whole ≡ i + length rest
  At-length whole i rest a = omega (arith, length-drop i whole, ap length a.ahead, a.inside)

  -- The position behind a part that was read.
  pub At-append :
      {whole : List A} {i : ℕ} (part rest : List A) (j : ℕ)
      → At whole i (part ++ rest)
      → j ≡ i + length part
      → At whole j rest
  At-append {whole} {i} part rest j a e = record {
    inside = omega (arith, At-length whole i (part ++ rest) a, length-append part rest);
    ahead = rw (e, ← drop-drop i (length part) whole, a.ahead) (drop-length_append part rest);
  }

  pub At-suc :
      {whole : List A} {i : ℕ} {x : A} {rest : List A} (j : ℕ)
      → At whole i (x ∷ rest)
      → j ≡ i + 1
      → At whole j rest
  At-suc {x} {rest} j a e = At-append (x ∷ []) rest j a e

  pub get_elem?-At :
      (whole : List A) (i : ℕ) (x : A) (rest : List A)
      → drop i whole ≡ x ∷ rest
      → get_elem? whole i ≡ some x
  get_elem?-At [] zero x rest a = cc
  get_elem?-At [] (suc i) x rest a = cc
  get_elem?-At (y ∷ whole) zero x rest a = cc
  get_elem?-At (y ∷ whole) (suc i) x rest a = get_elem?-At whole i x rest a

  pub slice-At :
      {E : Type 0} {whole : List A} (i to : ℕ) (part rest : List A)
      → At whole i (part ++ rest)
      → to ≡ i + length part
      → slice {E = E} whole i to ≡ ok part
  unfolding slice
  slice-At {whole} i to part rest a e =
      rw
        (
          le→leb i to (omega arith),
          le→leb to (length whole)
              (omega (arith, At-length whole i (part ++ rest) a, length-append part rest)),
        )
        (ap ok
          (rw (a.ahead) (ap (λ n. take n (part ++ rest)) (size) ∙ take-length_append part rest)))
    where
      size : to - i ≡ length part
      size = omega arith

pub index-At :
    {E : Type 0} {whole : Bytes} {i x : ℕ} {rest : Bytes}
    → At whole i (x ∷ rest)
    → index {E = E} whole i ≡ ok x
unfolding index
index-At {whole} {i} {x} {rest} a = rw (get_elem?-At whole i x rest a.ahead)
