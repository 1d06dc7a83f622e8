-- ===== src/Quic/Reassembly/Complete.antt =====
-- That reassembly succeeds, and hands over the ClientHello once all of it has arrived.
use sni_router.Prelude.{
  ℕ, suc, ◌+◌, ◌/◌, ◌%◌, ◌^◌, take-append_le, ◌*◌, ◌≤◌, ◌<◌, ◌≡◌, refl, ◌∙◌, inl, inr, [], ◌∷◌,
  ◌++◌, some, Bool-cases, ltb, leb, tests, arith, length, take, length-append,
}
use sni_router.Prelude.Outcomes.{◌>>=◌, bail_if, index, Bytes, Outcome, ok, Post-eq}
use sni_router.Prelude.BigEndian.{client_hello}
use sni_router.Prelude.Cursor.{At-zero, slice-At}
use sni_router.Prelude.OrderedMap.{lookup, insert_sorted, length-insert_sorted}
use sni_router.Quic.Error.{QuicError}
use sni_router.Quic.Reassembly.{
  Fragments, CryptoReassembly, drain, keep_fragment, insert, is_longer, clienthello,
  empty_reassembly, max_crypto_fragments,
}
use sni_router.Quic.Reassembly.Fragments.{Covers, Covers-above}
use sni_router.Quic.Reassembly.Invariant.{Inv, Covered, appended, append-appended}
use sni_router.Quic.Reassembly.Stream.{Agrees, AllPieces, insert_all, insert_all-Post}

-- The call succeeds and keeps at most `n` fragments.
record Succeeds (n : ℕ) (m : Outcome QuicError CryptoReassembly) : Type 0 where
  result : CryptoReassembly
  runs : m ≡ ok result
  few : length result.fragments ≤ n

drain-Succeeds :
    (n : ℕ) (fs : Fragments) (r : CryptoReassembly) → length fs ≤ n → Succeeds n (drain fs r)
unfolding drain ◌>>=◌
drain-Succeeds n [] r h = record {
  result = record r { fragments = [] };
  runs = refl;
  few = omega arith;
}
drain-Succeeds n ((o, part) ∷ fs) r h = elim (Bool-cases (leb o (length r.bytes))) [
  | inr e ↦ rw e (record { result = record r { fragments = (o, part) ∷ fs }; runs = refl; few = h })
  | inl e ↦
      rw (e, append-appended r o part (omega tests))
        (drain-Succeeds n fs (appended r o part) (omega arith))
]

keep_fragment-Succeeds :
    (r : CryptoReassembly) (offset : ℕ) (part : Bytes)
    → length r.fragments < max_crypto_fragments
    → Succeeds (suc (length r.fragments)) (keep_fragment r offset part)
unfolding keep_fragment ◌>>=◌ bail_if
keep_fragment-Succeeds r offset part h =
    elim (Bool-cases (is_longer (lookup offset r.fragments) part)) [
      | inl e ↦ record {
        result = record r { fragments = insert_sorted offset part r.fragments };
        runs = ground arith;
        few = length-insert_sorted offset part r.fragments;
      }
      | inr e ↦ record { result = r; runs = ground arith; few = omega arith }
    ]

insert-Succeeds :
    (r : CryptoReassembly) (offset : ℕ) (part : Bytes)
    → length r.fragments < max_crypto_fragments
    → Succeeds (suc (length r.fragments)) (insert r offset part)
unfolding insert ◌>>=◌
insert-Succeeds r offset [] h = record { result = r; runs = refl; few = omega arith }
insert-Succeeds r offset (b ∷ part) h = elim (Bool-cases (ltb (length r.bytes) offset)) [
  | inl e ↦ rw e (keep_fragment-Succeeds r offset (b ∷ part) h)
  | inr e ↦ rw e (drain-Succeeds _ r.fragments (appended r offset (b ∷ part)) (omega arith))
]

insert_all-Succeeds :
    (frames : Fragments) (r : CryptoReassembly)
    → length r.fragments + length frames ≤ max_crypto_fragments
    → (r' : CryptoReassembly) × (insert_all r frames ≡ ok r')
unfolding insert_all ◌>>=◌
insert_all-Succeeds [] r h = (r, refl)
insert_all-Succeeds ((o, part) ∷ frames) r h =
    let s = insert-Succeeds r o part (omega arith) in
    let (r', e) = insert_all-Succeeds frames s.result (omega (arith, s.few)) in (r', rw s.runs e)

-- Pieces of one stream, at most 128 of them, in any order and with any overlap, are all accepted.
-- With `n` positions received from the front of the stream, at least `n` bytes stand in order, and
-- they are the first bytes of the stream.
pub insert_all-prefix :
    (s : Bytes) (frames : Fragments) (n : ℕ)
    → length frames ≤ max_crypto_fragments
    → AllPieces s frames
    → ((p : ℕ) → p < n → Covers p frames)
    → (r : CryptoReassembly) × (insert_all empty_reassembly frames ≡ ok r)
      × (n ≤ length r.bytes)
      × (r.bytes ≡ take (length r.bytes) s)
insert_all-prefix s frames n few ps all =
    let (r, done) = insert_all-Succeeds frames empty_reassembly (omega arith) in
    let (v, a, held) =
      Post-eq (insert_all-Post s empty_reassembly frames ps empty-Inv empty-Agrees) done in
    (
      r,
      done,
      elim (Bool-cases (ltb (length r.bytes) n)) [
        | inl e ↦
            absurd (gap r v (held (length r.bytes) (inr (all (length r.bytes) (omega tests)))))
        | inr e ↦ omega tests
      ],
      a.starts,
    )
  where
    empty-Inv : Inv empty_reassembly
    empty-Inv = record { ascending = tt; bounded = omega arith }

    empty-Agrees : Agrees s empty_reassembly
    empty-Agrees = record { short = omega arith; starts = refl; pieces = tt }

    gap : (r : CryptoReassembly) → Inv r → Covered (length r.bytes) r → ⊥
    gap r v (inl c) = omega arith
    gap r v (inr c) =
        Covers-above (length r.bytes) (length r.bytes) r.fragments v.ascending (omega arith) c

clienthello-At :
    (body tail : Bytes) (r : CryptoReassembly)
    → length body < 2 ^ 24
    → r.bytes ≡ client_hello body ++ tail
    → clienthello r ≡ ok (some (client_hello body))
unfolding clienthello ◌>>=◌ bail_if index
clienthello-At body tail r b e =
    let whole = client_hello body ++ tail in
    rw e (
      ground (
        arith,
        length-append body tail,
        slice-At {E = QuicError} 0
            (4 + (length body / 65536 * 65536 + length body / 256 % 256 * 256 + length body % 256))
            (client_hello body) tail (At-zero whole) (omega arith),
      ))

-- The ClientHello is handed over, alone, once the bytes in order hold all of it.
clienthello-prefix :
    (body more : Bytes) (r : CryptoReassembly)
    → length body < 2 ^ 24
    → length (client_hello body) ≤ length r.bytes
    → r.bytes ≡ take (length r.bytes) (client_hello body ++ more)
    → clienthello r ≡ ok (some (client_hello body))
clienthello-prefix body more r b h e =
    clienthello-At body _ r b (e ∙ take-append_le (client_hello body) more (length r.bytes) h)

-- When CRYPTO frames that are pieces of one stream, 128 at most and in any order, hold every byte of
-- the ClientHello that the stream starts with, whose body is below 2 ^ 24 bytes, then all are accepted
-- and the router finds exactly that ClientHello.
pub clienthello-insert_all :
    (body more : Bytes) (frames : Fragments)
    → length body < 2 ^ 24
    → length frames ≤ max_crypto_fragments
    → AllPieces (client_hello body ++ more) frames
    → ((p : ℕ) → p < length (client_hello body) → Covers p frames)
    → (r : CryptoReassembly) × (insert_all empty_reassembly frames ≡ ok r)
      × (clienthello r ≡ ok (some (client_hello body)))
clienthello-insert_all body more frames b few ps all =
    let (r, done, reach, is) =
      insert_all-prefix (client_hello body ++ more) frames (length (client_hello body)) few ps
        all in
    (r, done, clienthello-prefix body more r b reach is)
