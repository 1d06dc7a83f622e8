-- ===== src/Quic/Reassembly/Stream.antt =====
-- Reassembly against the stream that the client sent: whatever the order, the overlaps and the
-- retransmissions, the bytes are a prefix of the stream, and reach as far as the pieces do.
use sni_router.Prelude.{
  ℕ, ◌+◌, ◌-◌, ◌≤◌, ◌≡◌, sym, ap, ◌∙◌, ◌⊎◌, inl, inr, [], ◌∷◌, ◌++◌, Bool-cases, ltb, leb, tests,
  arith, length, take, drop, length-append, length-drop, take-append_drop, drop-take, drop-drop,
  ap₂,
}
use sni_router.Prelude.Outcomes.{
  ◌>>=◌, Bytes, Outcome, ok, Post, returns, Post-bind, Post-bail_if, Post-weaken, Post-both,
}
use sni_router.Prelude.OrderedMap.{lookup, insert_sorted}
use sni_router.Quic.Error.{QuicError}
use sni_router.Quic.Reassembly.{
  Fragments, CryptoReassembly, extend_from, drain, keep_fragment, insert, is_longer,
}
use sni_router.Quic.Reassembly.Fragments.{InPiece, Covers}
use sni_router.Quic.Reassembly.Invariant.{Inv, Covered, insert-Post, appended, append-appended}

-- `part` stands at `offset` of the stream.
abbrev pub IsPiece : Bytes → ℕ → Bytes → Type 0
IsPiece s offset part =
    (offset + length part ≤ length s) × (part ≡ take (length part) (drop offset s))

abbrev ArePieces : Bytes → Fragments → Type 0
ArePieces s [] = Unit {0}
ArePieces s ((o, part) ∷ fs) = IsPiece s o part × ArePieces s fs

-- Nothing is held but what the stream has.
pub record Agrees (s : Bytes) (r : CryptoReassembly) : Type 0 where
  pub short : length r.bytes ≤ length s
  pub starts : r.bytes ≡ take (length r.bytes) s
  pub pieces : ArePieces s r.fragments

insert_sorted-ArePieces :
    (s : Bytes) (k : ℕ) (part : Bytes) (fs : Fragments)
    → IsPiece s k part
    → ArePieces s fs
    → ArePieces s (insert_sorted k part fs)
unfolding insert_sorted
insert_sorted-ArePieces s k part [] h a = (h, tt)
insert_sorted-ArePieces s k part ((o, old) ∷ fs) h a =
    ground (arith, insert_sorted-ArePieces s k part fs h a.1)

extend_from-take :
    (s bytes part : Bytes) (offset : ℕ)
    → bytes ≡ take (length bytes) s
    → length bytes ≤ length s
    → offset ≤ length bytes
    → IsPiece s offset part
    → let out = extend_from bytes (length bytes - offset) part in
      (out ≡ take (length out) s) × (length out ≤ length s)
extend_from-take s bytes part offset b short le piece =
    elim (Bool-cases (leb (length bytes - offset) (length part))) [
      | inr e ↦ rw e (b, short)
      | inl e ↦ rw e (joined, omega (tests, size))
    ]
  where
    skip : ℕ
    skip = length bytes - offset

    size : length (bytes ++ drop skip part) ≡ length bytes + (length part - skip)
    size = omega (arith, length-append bytes (drop skip part), length-drop skip part)

    suffix : drop skip part ≡ take (length part - skip) (drop (length bytes) s)
    suffix =
        ap (drop skip) piece.1
        ∙ drop-take skip (length part) (drop offset s)
        ∙ ap (take (length part - skip))
            (drop-drop offset skip s ∙ ap (λ k. drop k s) (omega arith))

    joined : bytes ++ drop skip part ≡ take (length (bytes ++ drop skip part)) s
    joined =
        ap₂ (λ (x y : Bytes). x ++ y) b suffix
        ∙ take-append_drop (length bytes) (length part - skip) s
        ∙ ap (λ k. take k s) (sym size)

appended-Agrees :
    (s : Bytes) (r : CryptoReassembly) (offset : ℕ) (part : Bytes)
    → offset ≤ length r.bytes
    → IsPiece s offset part
    → Agrees s r
    → Agrees s (appended r offset part)
appended-Agrees s r offset part le piece a =
    let e = extend_from-take s r.bytes part offset a.starts a.short le piece in
    record { short = e.1; starts = e.0; pieces = a.pieces }

drain-Agrees :
    (s : Bytes) (fs : Fragments) (r : CryptoReassembly)
    → ArePieces s fs
    → Agrees s r
    → Post (Agrees s) (drain fs r)
unfolding drain ◌>>=◌
drain-Agrees s [] r p a = returns (record { short = a.short; starts = a.starts; pieces = tt })
drain-Agrees s ((o, part) ∷ fs) r p a = elim (Bool-cases (leb o (length r.bytes))) [
  | inr e ↦ rw e (returns (record { short = a.short; starts = a.starts; pieces = p }))
  | inl e ↦
      rw (e, append-appended r o part (omega tests))
        (drain-Agrees s fs (appended r o part) p.1 (appended-Agrees s r o part (omega tests) p.0 a))
]

keep_fragment-Agrees :
    (s : Bytes) (r : CryptoReassembly) (offset : ℕ) (part : Bytes)
    → IsPiece s offset part
    → Agrees s r
    → Post (Agrees s) (keep_fragment r offset part)
unfolding keep_fragment
keep_fragment-Agrees s r offset part p a = Post-bail_if _ _ _ λ _.
    elim (Bool-cases (is_longer (lookup offset r.fragments) part)) [
      | inr e ↦ rw e (returns a)
      | inl e ↦ rw e (
          returns (record {
            short = a.short;
            starts = a.starts;
            pieces = insert_sorted-ArePieces s offset part r.fragments p a.pieces;
          }))
    ]

-- A piece of the stream keeps the state in agreement with the stream.
pub insert-Agrees :
    (s : Bytes) (r : CryptoReassembly) (offset : ℕ) (part : Bytes)
    → IsPiece s offset part
    → Agrees s r
    → Post (Agrees s) (insert r offset part)
unfolding insert ◌>>=◌
insert-Agrees s r offset [] p a = returns a
insert-Agrees s r offset (b ∷ part) p a = elim (Bool-cases (ltb (length r.bytes) offset)) [
  | inl e ↦ rw e (keep_fragment-Agrees s r offset (b ∷ part) p a)
  | inr e ↦ rw e (
      drain-Agrees s r.fragments (appended r offset (b ∷ part)) a.pieces
        (appended-Agrees s r offset (b ∷ part) (omega tests) p a))
]

-- `for (offset, data) in crypto_frames { pending.crypto.insert(offset, data)? }`
unfoldable pub insert_all : CryptoReassembly → Fragments → Outcome QuicError CryptoReassembly
unfolding insert
insert_all r [] = ok r
insert_all r ((offset, part) ∷ frames) = do r' ← insert r offset part; insert_all r' frames

abbrev pub AllPieces : Bytes → Fragments → Type 0
AllPieces s [] = Unit {0}
AllPieces s ((o, part) ∷ fs) = IsPiece s o part × AllPieces s fs

pub insert_all-Post :
    (s : Bytes) (r : CryptoReassembly) (frames : Fragments)
    → AllPieces s frames
    → Inv r
    → Agrees s r
    → Post
        (λ r'. Inv r' × Agrees s r' × ((p : ℕ) → Covered p r ⊎ Covers p frames → Covered p r'))
        (insert_all r frames)
unfolding insert_all
insert_all-Post s r [] ps v a = returns (v, a, nothing)
  where
    nothing : (p : ℕ) → Covered p r ⊎ Covers p [] → Covered p r
    nothing p (inl c) = c
    nothing p (inr c) = absurd c
insert_all-Post s r ((o, part) ∷ frames) ps v a =
    Post-bind _ _ (Post-both (insert-Post r o part v) (insert-Agrees s r o part ps.0 a)) λ r' h.
      Post-weaken (insert_all-Post s r' frames ps.1 h.0.0 h.1)
        λ r'' k. (k.0, k.1, λ p c. k.2 p (step r' p (h.0.1 p) c))
  where
    step :
        (r' : CryptoReassembly) (p : ℕ)
        → (Covered p r ⊎ InPiece p o part → Covered p r')
        → Covered p r ⊎ Covers p ((o, part) ∷ frames)
        → Covered p r' ⊎ Covers p frames
    step r' p f (inl c) = inl (f (inl c))
    step r' p f (inr (inl c)) = inl (f (inr c))
    step r' p f (inr (inr c)) = inr c
