-- ===== src/Handshake/NextRecord.antt =====
-- What `next_record` takes: one whole record, and no byte of the socket behind it.
use mathlib.Core.List.{append_assoc, append-nil}
use mathlib.Core.Path.{subst}
use sni_router.Prelude.{
  ℕ, suc, ◌+◌, ◌-◌, ◌*◌, ◌≤◌, ◌<◌, ◌≡◌, refl, ap, sym, ◌∙◌, ◌⊎◌, inl, inr, true, [], ◌∷◌, ◌++◌, ltb,
  leb, Bool-cases, length, take, drop, length-append, length-take, length-drop, take-append-drop,
  le→leb, tests, arith,
}
use sni_router.Prelude.Outcomes.{
  Bytes, Outcome, ok, Post, returns, fails, Post-bind, Post-both, ◌>>=◌, slice, run_steps,
}
use sni_router.Records.{ReadError, Connection, ensure_bytes_available}
use sni_router.Records.Replay.{all_bytes, ensure_bytes_available-Post}
use sni_router.Handshake.{reading, tls_record_len, next_record}

-- A whole record, of the length that its header has.
abbrev pub IsRecord : Bytes → Type 0
IsRecord part = (5 ≤ length part) × (tls_record_len part ≡ ok (length part))

reading-Post :
    {A : Type 0} {P : A → Type 0} {m : Outcome ReadError A} → Post P m → Post P (reading m)
reading-Post (returns h) = returns h
reading-Post fails = fails

length-zero : (xs : Bytes) → length xs ≡ 0 → xs ≡ []
length-zero [] e = refl
length-zero (x ∷ xs) e = absurd (omega arith)

-- No more is read than is needed.
abbrev Extends : Connection → ℕ → Connection → Type 0
Extends c len c' =
    (tail : Bytes) × (c'.bytes ≡ c.bytes ++ tail)
    × (((tail ≡ []) × (c'.stream ≡ c.stream)) ⊎ ((length c.bytes < len) × (length c'.bytes ≡ len)))

ensure_bytes_available-exact :
    (c : Connection) (len : ℕ) → Post (Extends c len) (ensure_bytes_available c len)
unfolding ensure_bytes_available
ensure_bytes_available-exact c len = elim (Bool-cases (leb len (length c.bytes))) [
  | inl e ↦ rw e (returns ([], sym (append-nil c.bytes), inl (refl, refl)))
  | inr e ↦ elim (Bool-cases (ltb (length c.stream) (len - length c.bytes))) [
    | inl short ↦ rw (e, short) fails
    | inr long ↦
        rw (e, long)
          (returns (
            take (len - length c.bytes) c.stream,
            refl,
            inr (
              omega tests,
              omega (
                tests,
                length-append c.bytes (take (len - length c.bytes) c.stream),
                length-take (len - length c.bytes) c.stream,
              ),
            ),
          ))
  ]
]

tls_record_len-header :
    (a b c d e : ℕ) (rest : Bytes)
    → tls_record_len (a ∷ b ∷ c ∷ d ∷ e ∷ rest) ≡ ok (5 + (d * 256 + e))
unfolding run_steps tls_record_len
tls_record_len-header a b c d e rest = ground arith

take-header :
    (n a b c d e : ℕ) (rest : Bytes)
    → take (5 + n) (a ∷ b ∷ c ∷ d ∷ e ∷ rest) ≡ a ∷ b ∷ c ∷ d ∷ e ∷ take n rest
take-header n a b c d e rest =
    let e : 5 + n ≡ suc (suc (suc (suc (suc n)))) = omega arith in rw e refl

tls_record_len-short :
    {P : ℕ → Type 0} (bytes : Bytes) → ltb (length bytes) 5 ≡ true → Post P (tls_record_len bytes)
unfolding tls_record_len
tls_record_len-short bytes e = rw e fails

slice-start :
    {E : Type 0} (bytes : Bytes) (len : ℕ)
    → len ≤ length bytes
    → slice {E = E} bytes 0 len ≡ ok (take len bytes)
unfolding slice
slice-start bytes len h =
    let e : len - 0 ≡ len = omega arith in
    rw (le→leb 0 len (omega arith), le→leb len (length bytes) h, e) refl

-- The length in a header is that of the record it begins, whatever more arrives.
pub tls_record_len-Post :
    (bytes : Bytes)
    → Post
        (λ len.
          (5 ≤ len)
          × ((tail : Bytes) → len ≤ length (bytes ++ tail) → IsRecord (take len (bytes ++ tail))))
        (tls_record_len bytes)
tls_record_len-Post [] = tls_record_len-short _ refl
tls_record_len-Post (_ ∷ []) = tls_record_len-short _ refl
tls_record_len-Post (_ ∷ _ ∷ []) = tls_record_len-short _ refl
tls_record_len-Post (_ ∷ _ ∷ _ ∷ []) = tls_record_len-short _ refl
tls_record_len-Post (_ ∷ _ ∷ _ ∷ _ ∷ []) = tls_record_len-short _ refl
tls_record_len-Post (a ∷ b ∷ c ∷ d ∷ e ∷ rest) = rw (tls_record_len-header a b c d e rest) (
    returns (
      omega arith,
      λ tail whole.
          rw
            (
              take-header (d * 256 + e) a b c d e (rest ++ tail),
              tls_record_len-header a b c d e (take (d * 256 + e) (rest ++ tail)),
            )
            (omega arith, ap ok (omega (arith, length-take (d * 256 + e) (rest ++ tail)))),
    ))

Extends-length :
    (c c' : Connection) (len : ℕ)
    → Extends c len c'
    → ((length c'.bytes ≡ length c.bytes) × (c'.stream ≡ c.stream)) ⊎ (length c'.bytes ≡ len)
Extends-length c c' len (tail, ext, inr (_, size)) = inr size
Extends-length c c' len (tail, ext, inl (none_new, same)) = inl (
  omega (arith, ap (length {A = ℕ}) ext, length-append c.bytes tail, ap (length {A = ℕ}) none_new),
  same,
)

-- What is left of the bytes behind the record.
left_behind :
    (c c1 c2 : Connection) (len : ℕ)
    → 5 ≤ len
    → 5 ≤ length c1.bytes
    → len ≤ length c2.bytes
    → Extends c 5 c1
    → Extends c1 len c2
    → drop len c2.bytes ≡ []
      ⊎ ((c2.stream ≡ c.stream) × (length (drop len c2.bytes) < length c.bytes))
left_behind c c1 c2 len header enough1 enough2 e1 e2 =
    let size = length-drop len c2.bytes in
    elim (Extends-length c1 c2 len e2) [
      | inr exact ↦ inl (length-zero _ (omega (arith, size, exact)))
      | inl (unread2, same2) ↦ elim (Extends-length c c1 5 e1) [
        | inr exact ↦ inl (length-zero _ (omega (arith, size, exact, unread2)))
        | inl (unread1, same1) ↦ inr (same2 ∙ same1, omega (arith, size, unread1, unread2))
      ]
    ]

-- A record is taken whole. Either nothing is left behind it, or nothing was read.
pub next_record-Post :
    (c : Connection)
    → Post
        (λ (part, c').
          IsRecord part
          × (part ++ all_bytes c' ≡ all_bytes c)
          × (c'.bytes ≡ [] ⊎ ((c'.stream ≡ c.stream) × (length c'.bytes < length c.bytes))))
        (next_record c)
unfolding next_record ◌>>=◌
next_record-Post c =
    Post-bind _ _
      (reading-Post
        (Post-both (ensure_bytes_available-Post c 5) (ensure_bytes_available-exact c 5)))
      λ c1 ((enough1, same1), e1).
        Post-bind _ _ (tls_record_len-Post c1.bytes) λ len (header, whole).
          Post-bind _ _
            (reading-Post (
              Post-both (ensure_bytes_available-Post c1 len) (ensure_bytes_available-exact c1 len)))
            λ c2 ((enough2, same2), e2). rw (slice-start c2.bytes len enough2) (
              returns (
                subst (λ (x : Bytes). len ≤ length x → IsRecord (take len x)) (sym e2.1)
                    (whole e2.0) enough2,
                sym (append_assoc (take len c2.bytes) (drop len c2.bytes) c2.stream)
                    ∙ ap (λ (x : Bytes). x ++ c2.stream) (take-append-drop len c2.bytes)
                    ∙ same2
                    ∙ same1,
                left_behind c c1 c2 len header enough1 enough2 e1 e2,
              ))
