-- ===== src/Records/Split.antt =====
-- The ClientHello that is found does not depend on how much of the connection had been read before.
use mathlib.Core.Path.{subst}
use sni_router.Prelude.{
  ℕ, zero, suc, ◌+◌, ◌-◌, ◌*◌, ◌≤◌, ◌<◌, ◌≡◌, refl, ap, sym, ◌∙◌, ◌⊎◌, inl, inr, false, [], ◌++◌,
  Option, none, some, ltb, leb, nat_eq, Bool-cases, length, take, drop, length-append, tests, arith,
}
use sni_router.Prelude.Outcomes.{Bytes, ok, err, ◌>>=◌, Post-eq}
use sni_router.Records.{
  unexpected_eof, RecordError, Connection, Hello, clienthello, ensure_bytes_available, wants_more,
  truncated, read_record, record_loop, read_tls_clienthello,
}
use sni_router.Records.Replay.{
  all_bytes, ensure_bytes_available-Post, Sum-cases, EndsWithin, read_record-Post, read_needed-Post,
}
use sni_router.Records.Alike.{
  Alike, both_return, both_fail, SameUpTo, Alike-bind, Alike-index, Alike-slice, Alike-refl,
  Alike-both,
}

-- Whether enough can be read is a matter of all bytes.
ensure-long :
    (c : Connection) (len : ℕ)
    → len ≤ length (all_bytes c)
    → (c' : Connection) × (ensure_bytes_available c len ≡ ok c')
      × (len ≤ length c'.bytes)
      × (all_bytes c' ≡ all_bytes c)
unfolding ensure_bytes_available
ensure-long c len h = elim (Bool-cases (leb len (length c.bytes))) [
  | inl e ↦ (c, rw e refl, omega tests, refl)
  | inr e ↦ elim (Bool-cases (ltb (length c.stream) (len - length c.bytes))) [
    | inl short ↦ absurd (omega (tests, length-append c.bytes c.stream))
    | inr long ↦
        let is : ensure_bytes_available c len
            ≡ ok (record {
              bytes = c.bytes ++ take (len - length c.bytes) c.stream;
              stream = drop (len - length c.bytes) c.stream;
            }) =
          rw (e, long) refl in
        let (more, kept) = Post-eq (ensure_bytes_available-Post c len) is in (_, is, more, kept)
  ]
]

ensure-short :
    (c : Connection) (len : ℕ)
    → length (all_bytes c) < len
    → ensure_bytes_available c len ≡ err unexpected_eof
unfolding ensure_bytes_available
ensure-short c len h = ground (arith, h, length-append c.bytes c.stream)

-- The same bytes, at least `len` of them read.
ensure-Alike :
    (c d : Connection) (len : ℕ)
    → all_bytes c ≡ all_bytes d
    → Alike
        (λ c' d'. SameUpTo len c' d' × (all_bytes c' ≡ all_bytes c))
        (ensure_bytes_available c len)
        (ensure_bytes_available d len)
ensure-Alike c d len same =
    let sizes : length (all_bytes c) ≡ length (all_bytes d) = ap (length {A = ℕ}) same in
    elim (Bool-cases (leb len (length (all_bytes c)))) [
      | inl e ↦
          let (c', is, more, same1) = ensure-long c len (omega tests) in
          let (d', is', more', same2) = ensure-long d len (omega (tests, sizes)) in
          rw (is, is') (both_return ((same1 ∙ same ∙ sym same2, more, more'), same1))
      | inr e ↦
          rw (ensure-short c len (omega tests), ensure-short d len (omega (tests, sizes))) both_fail
    ]

abbrev SameRecord :
    Connection → Connection × (Bytes ⊎ RecordError) → Connection × (Bytes ⊎ RecordError) → Type 0
SameRecord c r s = (all_bytes r.0 ≡ all_bytes s.0) × (all_bytes r.0 ≡ all_bytes c) × (r.1 ≡ s.1)

read_record-Alike :
    (c d : Connection) (pos : ℕ)
    → all_bytes c ≡ all_bytes d
    → Alike (SameRecord c) (read_record c pos) (read_record d pos)
unfolding read_record
read_record-Alike c d pos same =
    Alike-bind _ _ _ _ (ensure-Alike c d (pos + 5) same) λ c1 d1 (up, kept).
      Alike-index (pos + 5) c1 d1 pos _ _ up (omega arith) λ content_type.
        Alike-index (pos + 5) c1 d1 (pos + 3) _ _ up (omega arith) λ high.
          Alike-index (pos + 5) c1 d1 (pos + 4) _ _ up (omega arith) λ low.
            elim (Bool-cases (nat_eq content_type 22)) [
              | inr other ↦ rw other (both_return (up.0, kept, refl))
              | inl handshake ↦ elim (Bool-cases (nat_eq (high * 256 + low) 0)) [
                | inl empty ↦ rw (handshake, empty) (both_return (up.0, kept, refl))
                | inr some_bytes ↦
                    rw (handshake, some_bytes)
                      (Alike-bind _ _ _ _ (ensure-Alike c1 d1 (pos + 5 + (high * 256 + low)) up.0)
                        λ c2 d2 (up2, kept2).
                          Alike-slice c2 d2 (pos + 5) (pos + 5 + (high * 256 + low)) _ _ up2
                            (omega arith) λ part. both_return (up2.0, kept2 ∙ kept, refl))
              ]
            ]

-- The same ClientHello, or the same reason why there is none.
abbrev pub SameHello : Connection × Hello → Connection × Hello → Type 0
SameHello r s = (all_bytes r.0 ≡ all_bytes s.0) × (r.1 ≡ s.1)

done-Alike :
    (c d : Connection) (needed : Option ℕ) (hello : Bytes)
    → all_bytes c ≡ all_bytes d
    → wants_more needed hello ≡ false
    → Alike SameHello
        (truncated needed hello >>= λ h. ok (c, clienthello h))
        (truncated needed hello >>= λ h. ok (d, clienthello h))
unfolding ◌>>=◌
done-Alike c d none hello same w = absurd (cc)
done-Alike c d (some n) hello same w = both_return (same, refl)

record_loop-Alike :
    (fuel : ℕ) (c d : Connection) (pos : ℕ) (hello : Bytes) (needed : Option ℕ)
    → all_bytes c ≡ all_bytes d
    → length (all_bytes c) < pos + fuel
    → pos ≤ length (all_bytes c)
    → Alike SameHello (record_loop fuel c pos hello needed) (record_loop fuel d pos hello needed)
unfolding record_loop
record_loop-Alike zero c d pos hello needed same enough here = absurd (omega arith)
record_loop-Alike (suc fuel) c d pos hello needed same enough here =
    elim (Bool-cases (wants_more needed hello)) [
      | inr w ↦ rw w (done-Alike c d needed hello same w)
      | inl w ↦ rw w (
          Alike-bind _ _ _ _ (Alike-both (read_record-Alike c d pos same) (read_record-Post c pos))
            λ (c1, payload) (d1, payload') ((same1, kept, alike), (_, ends)).
              elim (Sum-cases payload) [
                | inr (e, is) ↦ rw (← alike, is) (both_return (same1, refl))
                | inl (part, is) ↦
                    let (size, within) = subst (EndsWithin pos c1) is ends in
                    rw (← alike, is)
                      (Alike-bind _ _ _ _ (Alike-refl (read_needed-Post needed (hello ++ part)))
                        λ parsed parsed' alike'. elim (Sum-cases parsed) [
                          | inr (e, is') ↦ rw (← alike', is') (both_return (same1, refl))
                          | inl (needed', is') ↦
                              rw (← alike', is')
                                (record_loop-Alike fuel c1 d1 (pos + 5 + length part)
                                  (hello ++ part) needed' same1
                                  (omega (arith, ap (length {A = ℕ}) kept))
                                  (omega (arith, length-append c1.bytes c1.stream)))
                        ])
              ])
    ]

-- Where the same bytes stand, some of them read and the others still to arrive, but cut in two at another place,
-- reading the ClientHello fails for both, or finds the same ClientHello in both or the same reason why there is none,
-- and leaves the same bytes.
pub read_tls_clienthello-split :
    (initial_bytes stream initial_bytes' stream' : Bytes)
    → initial_bytes ++ stream ≡ initial_bytes' ++ stream'
    → Alike SameHello
        (read_tls_clienthello initial_bytes stream)
        (read_tls_clienthello initial_bytes' stream')
unfolding read_tls_clienthello
read_tls_clienthello-split initial_bytes stream initial_bytes' stream' same =
    let sizes : length initial_bytes' + length stream' ≡ length initial_bytes + length stream =
      omega (
        arith,
        ap (length {A = ℕ}) same,
        length-append initial_bytes stream,
        length-append initial_bytes' stream',
      ) in
    let fuel = suc (length initial_bytes + length stream) in
    let c : Connection = record { bytes = initial_bytes; stream = stream } in
    let d : Connection = record { bytes = initial_bytes'; stream = stream' } in
    subst (λ n. Alike SameHello (record_loop fuel c 0 [] none) (record_loop (suc n) d 0 [] none))
      (sym sizes)
      (record_loop-Alike fuel c d 0 [] none same (omega (arith, length-append initial_bytes stream))
        (omega arith))
