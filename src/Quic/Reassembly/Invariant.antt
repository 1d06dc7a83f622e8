-- ===== src/Quic/Reassembly/Invariant.antt =====
-- What `CryptoReassembly` keeps: its fragments are few, ordered, and all start behind the bytes.
use sni_router.Prelude.{
  ℕ, ◌+◌, ◌-◌, ◌≤◌, ◌<◌, ◌≡◌, ◌⊎◌, inl, inr, [], ◌∷◌, some, Bool-cases, Option-cases, ltb, leb,
  le→ltb, tests, arith, length, drop, length-append, length-drop,
}
use sni_router.Prelude.Outcomes.{◌>>=◌, Bytes, ok, Post, returns, Post-bail_if, Post-weaken}
use sni_router.Prelude.OrderedMap.{
  lookup, insert_sorted, Ascending, insert_sorted-Ascending, length-insert_sorted,
  length-insert_sorted_present,
}
use sni_router.Quic.Reassembly.{
  Fragments, CryptoReassembly, extend_from, append, drain, keep_fragment, insert,
  max_crypto_fragments,
}
use sni_router.Quic.Reassembly.Fragments.{
  InPiece, Covers, Covers-insert_sorted_self, Covers-insert_sorted, Covers-lookup,
}

pub record Inv (r : CryptoReassembly) : Type 0 where
  pub ascending : Ascending (length r.bytes) r.fragments
  pub bounded : length r.fragments ≤ max_crypto_fragments

-- Position `p` of the stream is held, in the bytes or in a fragment.
abbrev pub Covered : ℕ → CryptoReassembly → Type 0
Covered p r = (p < length r.bytes) ⊎ Covers p r.fragments

length-extend_from :
    (bytes part : Bytes) (skip : ℕ)
    → (length bytes ≤ length (extend_from bytes skip part))
      × (length bytes + length part ≤ length (extend_from bytes skip part) + skip)
length-extend_from bytes part skip = elim (Bool-cases (leb skip (length part))) [
  | inl e ↦ rw e (omega (arith, length-append bytes (drop skip part), length-drop skip part))
  | inr e ↦ rw e (omega tests)
]

-- A piece that starts within the bytes is appended; only what is new of it is.
abbrev pub appended : CryptoReassembly → ℕ → Bytes → CryptoReassembly
appended r offset part = record r { bytes = extend_from r.bytes (length r.bytes - offset) part }

pub append-appended :
    (r : CryptoReassembly) (offset : ℕ) (part : Bytes)
    → offset ≤ length r.bytes
    → append r offset part ≡ ok (appended r offset part)
unfolding append
append-appended r offset part h = rw (le→ltb (length r.bytes) offset h)

appended-length :
    (r : CryptoReassembly) (offset : ℕ) (part : Bytes)
    → offset ≤ length r.bytes
    → (length r.bytes ≤ length (appended r offset part).bytes)
      × (offset + length part ≤ length (appended r offset part).bytes)
appended-length r offset part h =
    let l = length-extend_from r.bytes part (length r.bytes - offset) in (l.0, omega arith)

-- After draining, everything held before is still held, the popped entries included.
abbrev Drained : ℕ → Fragments → CryptoReassembly → CryptoReassembly → Type 0
Drained n fs r r' =
    Ascending (length r'.bytes) r'.fragments
    × (length r'.fragments ≤ n)
    × ((p : ℕ) → (p < length r.bytes) ⊎ Covers p fs → Covered p r')

drain-Post :
    (lo : ℕ) (fs : Fragments) (r : CryptoReassembly)
    → Ascending lo fs
    → Post (Drained (length fs) fs r) (drain fs r)
unfolding drain ◌>>=◌
drain-Post lo [] r a = returns (tt, omega arith, λ p c. c)
drain-Post lo ((o, part) ∷ fs) r a = elim (Bool-cases (leb o (length r.bytes))) [
  | inr e ↦ rw e (returns ((omega tests, a.1), omega arith, λ p c. c))
  | inl e ↦
      rw (e, append-appended r o part (omega tests))
        (Post-weaken (drain-Post o fs (appended r o part) a.1)
          λ r' d. (d.0, omega arith, λ p c. d.2 p (grown (omega tests) p c)))
]
  where
    grown :
        o ≤ length r.bytes
        → (p : ℕ) → (p < length r.bytes) ⊎ Covers p ((o, part) ∷ fs)
        → (p < length (appended r o part).bytes) ⊎ Covers p fs
    grown le p (inl h) = inl (omega (arith, appended-length r o part le))
    grown le p (inr (inl h)) = inl (omega (arith, appended-length r o part le))
    grown le p (inr (inr h)) = inr h

-- What one CRYPTO frame does to the state: the invariant, and all positions held before or carried by
-- the frame are held afterwards.
abbrev pub Inserted : CryptoReassembly → ℕ → Bytes → CryptoReassembly → Type 0
Inserted r offset part r' = Inv r' × ((p : ℕ) → Covered p r ⊎ InPiece p offset part → Covered p r')

keep_fragment-Post :
    (r : CryptoReassembly) (offset : ℕ) (part : Bytes)
    → Inv r
    → length r.bytes < offset
    → Post (Inserted r offset part) (keep_fragment r offset part)
unfolding keep_fragment
keep_fragment-Post r offset part v h = elim (Option-cases (lookup offset r.fragments)) [
  | inl missing ↦ rw missing (
      Post-bail_if _ _ _ λ room. returns (
        record {
          ascending = insert_sorted-Ascending _ offset part r.fragments h v.ascending;
          bounded = omega (tests, length-insert_sorted offset part r.fragments);
        },
        λ p c. placed (λ old e. cc) p c,
      ))
  | inr (old, present) ↦ rw present (
      Post-bail_if _ _ _ λ room. elim (Bool-cases (ltb (length old) (length part))) [
        | inl longer ↦ rw longer (
            returns (
              record {
                ascending = insert_sorted-Ascending _ offset part r.fragments h v.ascending;
                bounded = omega (
                  arith,
                  v.bounded,
                  length-insert_sorted_present _ offset part old r.fragments v.ascending present,
                );
              },
              λ p c. placed (λ w e. ground (arith)) p c,
            ))
        | inr shorter ↦ rw shorter (returns (v, λ p c. kept old present (omega tests) p c))
      ])
]
  where
    placed :
        ((old : Bytes) → lookup offset r.fragments ≡ some old → length old ≤ length part)
        → (p : ℕ) → Covered p r ⊎ InPiece p offset part
        → Covered p (record r { fragments = insert_sorted offset part r.fragments })
    placed longer p (inl (inl c)) = inl c
    placed longer p (inl (inr c)) = inr (Covers-insert_sorted p offset part r.fragments longer c)
    placed longer p (inr c) = inr (Covers-insert_sorted_self p offset part r.fragments c)

    kept :
        (old : Bytes)
        → lookup offset r.fragments ≡ some old
        → length part ≤ length old
        → (p : ℕ) → Covered p r ⊎ InPiece p offset part
        → Covered p r
    kept old present le p (inl c) = c
    kept old present le p (inr c) =
        inr (Covers-lookup p offset old r.fragments present (omega arith, omega arith))

-- On fragments that are in order, 128 at most and all behind the bytes, an insertion does not panic;
-- where the frame is accepted, the fragments are so again, and no position is lost, of those held
-- before or of the frame.
pub insert-Post :
    (r : CryptoReassembly) (offset : ℕ) (part : Bytes)
    → Inv r
    → Post (Inserted r offset part) (insert r offset part)
unfolding insert ◌>>=◌
insert-Post r offset [] v = returns (v, nothing)
  where
    nothing : (p : ℕ) → Covered p r ⊎ InPiece p offset [] → Covered p r
    nothing p (inl c) = c
    nothing p (inr c) = absurd (omega arith)
insert-Post r offset (b ∷ part) v = elim (Bool-cases (ltb (length r.bytes) offset)) [
  | inl e ↦ rw e (keep_fragment-Post r offset (b ∷ part) v (omega tests))
  | inr e ↦ rw e (
      Post-weaken (drain-Post _ r.fragments (appended r offset (b ∷ part)) v.ascending) λ r' d. (
        record { ascending = d.0; bounded = omega (arith, v.bounded) },
        λ p c. d.2 p (grown (omega tests) p c),
      ))
]
  where
    grown :
        offset ≤ length r.bytes
        → (p : ℕ) → Covered p r ⊎ InPiece p offset (b ∷ part)
        → (p < length (appended r offset (b ∷ part)).bytes) ⊎ Covers p r.fragments
    grown le p (inl (inl h)) = inl (omega (arith, appended-length r offset (b ∷ part) le))
    grown le p (inl (inr h)) = inr h
    grown le p (inr h) = inl (omega (arith, appended-length r offset (b ∷ part) le))
