-- ===== src/Pending/Limits.antt =====
-- What `push_datagram` keeps.
use sni_router.Prelude.{
  ℕ, ◌+◌, ◌≤◌, ◌<◌, ◌≡◌, refl, List, [], ◌∷◌, ◌++◌, length, length-append, tests, arith,
}
use sni_router.Prelude.Outcomes.{Bytes, ok, Post, returns, Post-bail_if, ◌>>=◌, bail_if}
use sni_router.Pending.{PendingConnection, push_datagram, max_pending_datagrams, max_pending_bytes}

abbrev pub total : List Bytes → ℕ
total [] = 0
total (d ∷ ds) = length d + total ds

total-append : (ds es : List Bytes) → total (ds ++ es) ≡ total ds + total es
total-append [] es = omega arith
total-append (d ∷ ds) es = omega (arith, total-append ds es)

-- The count of bytes is exact, and both limits hold.
pub record Bounded (p : PendingConnection) : Type 0 where
  pub exact : p.buffered_bytes ≡ total p.datagrams
  pub few_bytes : p.buffered_bytes ≤ max_pending_bytes
  pub few_datagrams : length p.datagrams ≤ max_pending_datagrams

-- On a pending connection within its limits, whose count of bytes is exact, a push fails or keeps all that, with
-- the datagram at the end of those buffered.
pub push_datagram-Post :
    (p : PendingConnection) (datagram : Bytes)
    → Bounded p
    → Post
        (λ r. Bounded r × (r.datagrams ≡ p.datagrams ++ datagram ∷ []))
        (push_datagram p datagram)
unfolding push_datagram
push_datagram-Post p datagram v = Post-bail_if _ _ _ λ room. Post-bail_if _ _ _ λ small.
    Post-bail_if _ _ _ λ bytes. returns (
      record {
        exact = omega (arith, v.exact, total-append p.datagrams (datagram ∷ []));
        few_bytes = omega tests;
        few_datagrams = omega (tests, length-append p.datagrams (datagram ∷ []));
      },
      refl,
    )

-- With room for one more datagram and for its bytes, the push succeeds.
pub push_datagram-ok :
    (p : PendingConnection) (datagram : Bytes)
    → length p.datagrams < max_pending_datagrams
    → p.buffered_bytes + length datagram ≤ max_pending_bytes
    → push_datagram p datagram
      ≡ ok (record p {
        buffered_bytes = p.buffered_bytes + length datagram;
        datagrams = p.datagrams ++ datagram ∷ [];
      })
unfolding push_datagram ◌>>=◌ bail_if
push_datagram-ok p datagram room bytes = ground arith
