-- ===== src/Net/HostPort/Written.antt =====
-- An address is split where a host and a port were joined.
use sni_router.Prelude.{
  ℕ, ◌-◌, ◌≤◌, ◌≡◌, refl, inl, inr, true, false, [], ◌∷◌, ◌++◌, none, some, Bool-cases, length,
  length-append, if◌then◌else◌, nat_eq, ◌&&◌, arith,
}
use sni_router.Prelude.Outcomes.{
  Bytes, ok, Post, returns, fails, Post-ok_or, Post-slice, run_steps, slice,
}
use sni_router.Prelude.Cursor.{At-zero, At-suc, slice-At}
use sni_router.Net.HostPort.{
  HostPortError, colon, split_host_port, rsplit_once, parse_u16, has_colon, starts_with, ends_with,
}

-- Text in brackets has two bytes.
bracketed : (host : Bytes) → (starts_with host 91 && ends_with host 93) ≡ true → 2 ≤ length host
bracketed [] h = absurd (cc)
bracketed (b ∷ []) h = absurd (ground (arith, h))
bracketed (b ∷ b2 ∷ host) h = omega arith

-- No address makes the splitting panic.
pub split_host_port-Runs : (addr : Bytes) → Post (λ _. Unit {0}) (split_host_port addr)
unfolding split_host_port
split_host_port-Runs addr = Post-ok_or _ _ _ λ (host, behind) _. Post-ok_or _ _ _ λ port _.
    elim (Bool-cases (starts_with host 91 && ends_with host 93)) [
      | inl e ↦ rw e (
          let two = bracketed host e in
          Post-slice _ _ _ _ (omega arith) (omega arith) λ raw _. returns tt)
      | inr e ↦ elim (Bool-cases (has_colon host)) [
        | inl f ↦ rw (e, f) fails
        | inr f ↦ rw (e, f) (returns tt)
      ]
    ]

rsplit_once-none : (bytes : Bytes) → has_colon bytes ≡ false → rsplit_once bytes ≡ none
rsplit_once-none [] h = refl
rsplit_once-none (b ∷ bytes) h = elim (Bool-cases (nat_eq b colon)) [
  | inl e ↦ absurd (ground (arith, e, h))
  | inr e ↦
      let later : has_colon bytes ≡ false = ground (arith, e, h) in
      rw (rsplit_once-none bytes later, e) refl
]

-- The last colon parts an address.
rsplit_once-append :
    (host behind : Bytes)
    → has_colon behind ≡ false
    → rsplit_once (host ++ colon ∷ behind) ≡ some (host, behind)
rsplit_once-append [] behind h = rw (rsplit_once-none behind h) refl
rsplit_once-append (b ∷ host) behind h = rw (rsplit_once-append host behind h) refl

ends_with-append : (bytes : Bytes) (c : ℕ) → ends_with (bytes ++ c ∷ []) c ≡ true
ends_with-append [] c = ground arith
ends_with-append (b ∷ []) c = ground arith
ends_with-append (b ∷ b2 ∷ bytes) c = ends_with-append (b2 ∷ bytes) c

-- A name or an IPv4 address, which has no colon, is the host before the last colon.
split_host_port-name :
    (host behind : Bytes) (port : ℕ)
    → has_colon behind ≡ false
    → parse_u16 behind ≡ some port
    → has_colon host ≡ false
    → (starts_with host 91 && ends_with host 93) ≡ false
    → split_host_port (host ++ colon ∷ behind) ≡ ok (host, port)
unfolding run_steps split_host_port
split_host_port-name host behind port h p c b = rw (rsplit_once-append host behind h, p, b, c) refl

-- `slice` without the first and the last byte.
slice-inner :
    {E : Type 0} (b : ℕ) (bytes : Bytes) (c : ℕ)
    → slice {E = E} (b ∷ bytes ++ c ∷ []) 1 (length (b ∷ bytes ++ c ∷ []) - 1) ≡ ok bytes
slice-inner b bytes c =
    slice-At 1 (length (b ∷ bytes ++ c ∷ []) - 1) bytes (c ∷ [])
      (At-suc 1 (At-zero (b ∷ bytes ++ c ∷ [])) refl) (omega (arith, length-append bytes (c ∷ [])))

split_host_port-bracketed :
    (host behind : Bytes) (port : ℕ)
    → has_colon behind ≡ false
    → parse_u16 behind ≡ some port
    → split_host_port ((91 ∷ host ++ 93 ∷ []) ++ colon ∷ behind) ≡ ok (host, port)
unfolding run_steps split_host_port
split_host_port-bracketed host behind port h p =
    rw
      (
        rsplit_once-append (91 ∷ host ++ 93 ∷ []) behind h,
        p,
        ends_with-append (91 ∷ host) 93,
        slice-inner {E = HostPortError} 91 host 93,
      )
      refl

-- A host and a port as an address has them: a host with a colon stands in brackets.
abbrev pub joined : Bytes → Bytes → Bytes
joined host behind = (if has_colon host then 91 ∷ host ++ 93 ∷ [] else host) ++ colon ∷ behind

-- An address is split into the host and the port that it was joined of, where the port is a number of 16 bits in
-- digits, and a host without a colon does not stand in brackets itself.
pub split_host_port-joined :
    (host behind : Bytes) (port : ℕ)
    → has_colon behind ≡ false
    → parse_u16 behind ≡ some port
    → (starts_with host 91 && ends_with host 93) ≡ false
    → split_host_port (joined host behind) ≡ ok (host, port)
split_host_port-joined host behind port h p b = elim (Bool-cases (has_colon host)) [
  | inl c ↦ rw c (split_host_port-bracketed host behind port h p)
  | inr c ↦ rw c (split_host_port-name host behind port h p c b)
]
