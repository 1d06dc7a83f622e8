-- ===== src/Records/Replay.antt =====
-- Whatever the client sends, no byte of it is lost before the backend: what was read and what will arrive stay the
-- same bytes.
use mathlib.Core.List.{append_assoc}
use mathlib.Core.Path.{subst}
use sni_router.Prelude.{
  ℕ, zero, suc, ◌+◌, ◌-◌, ◌*◌, ◌≤◌, ◌<◌, ◌≡◌, refl, ap, ◌∙◌, ◌⊎◌, inl, inr, false, [], ◌++◌, Option,
  none, some, ltb, leb, nat_eq, Bool-cases, length, take, drop, length-append, length-take,
  take-append-drop, tests, arith,
}
use sni_router.Prelude.Outcomes.{
  Bytes, ok, Post, returns, fails, Post-bind, Post-index, Post-slice, Post-weaken, ◌>>=◌,
}
use sni_router.Records.{
  RecordError, Connection, Hello, clienthello, ensure_bytes_available, wants_more, read_needed,
  truncated, read_record, record_loop, read_tls_clienthello,
}

-- All bytes of the connection, in order.
abbrev pub all_bytes : Connection → Bytes
all_bytes c = c.bytes ++ c.stream

pub ensure_bytes_available-Post :
    (c : Connection) (len : ℕ)
    → Post
        (λ c'. (len ≤ length c'.bytes) × (all_bytes c' ≡ all_bytes c))
        (ensure_bytes_available c len)
unfolding ensure_bytes_available
ensure_bytes_available-Post c len = elim (Bool-cases (leb len (length c.bytes))) [
  | inl e ↦ rw e (returns (omega tests, refl))
  | inr e ↦ elim (Bool-cases (ltb (length c.stream) (len - length c.bytes))) [
    | inl short ↦ rw (e, short) fails
    | inr long ↦
        rw (e, long)
          (returns (
            omega (
              tests,
              length-append c.bytes (take (len - length c.bytes) c.stream),
              length-take (len - length c.bytes) c.stream,
            ),
            append_assoc c.bytes (take (len - length c.bytes) c.stream)
                  (drop (len - length c.bytes) c.stream)
                ∙ ap (λ (x : Bytes). c.bytes ++ x)
                    (take-append-drop (len - length c.bytes) c.stream),
          ))
  ]
]

pub read_needed-Post :
    (needed : Option ℕ) (hello : Bytes) → Post (λ _. Unit {0}) (read_needed needed hello)
unfolding read_needed
read_needed-Post (some n) hello = returns tt
read_needed-Post none hello = elim (Bool-cases (ltb (length hello) 4)) [
  | inl short ↦ rw short (returns tt)
  | inr long ↦ rw long (
      Post-index _ _ _ (omega tests) λ t.
        Post-index _ _ _ (omega tests) λ b1.
          Post-index _ _ _ (omega tests) λ b2. Post-index _ _ _ (omega tests) λ b3. returns tt)
]

-- A payload has a byte at least, and ends within the bytes.
abbrev pub EndsWithin : ℕ → Connection → Bytes ⊎ RecordError → Type 0
EndsWithin pos c (inl part) = (1 ≤ length part) × (pos + 5 + length part ≤ length c.bytes)
EndsWithin pos c (inr e) = Unit {0}

pub read_record-Post :
    (c : Connection) (pos : ℕ)
    → Post (λ r. (all_bytes r.0 ≡ all_bytes c) × EndsWithin pos r.0 r.1) (read_record c pos)
unfolding read_record
read_record-Post c pos = Post-bind _ _ (ensure_bytes_available-Post c (pos + 5)) λ c1 h1.
    Post-index _ _ _ (omega arith) λ content_type. Post-index _ _ _ (omega arith) λ high.
      Post-index _ _ _ (omega arith) λ low. elim (Bool-cases (nat_eq content_type 22)) [
        | inr other ↦ rw other (returns (h1.1, tt))
        | inl handshake ↦ elim (Bool-cases (nat_eq (high * 256 + low) 0)) [
          | inl empty ↦ rw (handshake, empty) (returns (h1.1, tt))
          | inr some_bytes ↦
              rw (handshake, some_bytes)
                (Post-bind _ _ (ensure_bytes_available-Post c1 (pos + 5 + (high * 256 + low)))
                  λ c2 h2.
                    Post-slice _ _ _ _ (omega arith) (omega arith)
                      λ part size. returns (h2.1 ∙ h1.1, (ground arith, omega arith)))
        ]
      ]

-- The connection still has all of its bytes.
abbrev pub Keeps : Connection → Connection × Hello → Type 0
Keeps c (c', h) = all_bytes c' ≡ all_bytes c

pub Sum-cases : {A B : Type 0} (s : A ⊎ B) → ((a : A) × (s ≡ inl a)) ⊎ ((b : B) × (s ≡ inr b))
Sum-cases (inl a) = inl (a, refl)
Sum-cases (inr b) = inr (b, refl)

done-Post :
    (c : Connection) (needed : Option ℕ) (hello : Bytes)
    → wants_more needed hello ≡ false
    → Post (Keeps c) (truncated needed hello >>= λ h. ok (c, clienthello h))
unfolding ◌>>=◌
done-Post c none hello w = absurd (cc)
done-Post c (some n) hello w = returns refl

record_loop-Post :
    (fuel : ℕ) (c : Connection) (pos : ℕ) (hello : Bytes) (needed : Option ℕ)
    → length (all_bytes c) < pos + fuel
    → pos ≤ length c.bytes
    → Post (Keeps c) (record_loop fuel c pos hello needed)
unfolding record_loop
record_loop-Post zero c pos hello needed enough here =
    absurd (omega (arith, length-append c.bytes c.stream))
record_loop-Post (suc fuel) c pos hello needed enough here =
    elim (Bool-cases (wants_more needed hello)) [
      | inr w ↦ rw w (done-Post c needed hello w)
      | inl w ↦ rw w (
          Post-bind _ _ (read_record-Post c pos) λ (c1, payload) h. elim (Sum-cases payload) [
            | inr (e, is) ↦ rw is (returns h.0)
            | inl (part, is) ↦
                let (size, ends) = subst (EndsWithin pos c1) is h.1 in
                rw is (
                  Post-bind _ _ (read_needed-Post needed (hello ++ part)) λ parsed _.
                    elim (Sum-cases parsed) [
                      | inr (e, is') ↦ rw is' (returns h.0)
                      | inl (needed', is') ↦ rw is' (
                          Post-weaken
                            (record_loop-Post fuel c1 (pos + 5 + length part) (hello ++ part)
                              needed' (omega (arith, ap (length {A = ℕ}) h.0)) ends)
                            λ r kept. kept ∙ h.0)
                    ])
          ])
    ]

-- Reading the ClientHello from any bytes and any stream ends, without a panic; and where it returns, with a ClientHello
-- or without, the bytes that it read, followed by those that have not arrived, are the initial bytes and the stream.
pub read_tls_clienthello-Post :
    (initial_bytes stream : Bytes)
    → Post
        (Keeps (record { bytes = initial_bytes; stream = stream }))
        (read_tls_clienthello initial_bytes stream)
unfolding read_tls_clienthello
read_tls_clienthello-Post initial_bytes stream =
    record_loop-Post (suc (length initial_bytes + length stream))
      (record { bytes = initial_bytes; stream = stream }) 0 [] none
      (omega (arith, length-append initial_bytes stream)) (omega arith)
