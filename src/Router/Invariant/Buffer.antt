-- ===== src/Router/Invariant/Buffer.antt =====
-- What the router does to its pending connections keeps them in order.
use mathlib.Core.Path.{subst}
use sni_router.Prelude.{
  ℕ, ◌+◌, ◌-◌, ◌≤◌, ◌≡◌, ◌&&◌, not, inl, inr, false, [], ◌∷◌, some, Bool-cases, Option-cases, ltb,
  leb, length, tests, arith,
}
use sni_router.Prelude.Equality.{nat_Key, bytes_Key, pair_Key}
use sni_router.Prelude.Maps
use sni_router.Prelude.Maps.{Map, is_some, length-put_le, length-put_present, length-delete_le}
use sni_router.Prelude.Maps.Distinct.{
  sum_of, weight, sum_of-put, sum_of-delete, put-Distinct, delete-Distinct, Each-put, Each-delete,
}
use sni_router.Prelude.Outcomes.{Post, returns, Post-bind}
use sni_router.Net.Laws.{addr_Key}
use sni_router.Pending.{PendingConnection}
use sni_router.Quic.Reassembly.{CryptoReassembly, Fragments}
use sni_router.Quic.Reassembly.Invariant
use sni_router.Quic.Reassembly.Invariant.{insert-Post}
use sni_router.Quic.Reassembly.Stream.{insert_all}
use sni_router.Router.{Library, Limits, Router, PendingKey}
use sni_router.Router.Action.{Ends, is_done, Anything}
use sni_router.Router.Invariant.{IsSound, Waiting, Inv}
use sni_router.Router.Lookup.{remove_pending}

-- The bytes that a connection has buffered, which `pending_bytes` adds up.
abbrev buffered : PendingConnection → ℕ
buffered p = p.buffered_bytes

pub put-Waiting :
    {limits : Limits} {pending : Map PendingKey PendingConnection} {bytes : ℕ} (bytes' : ℕ)
    (key : PendingKey) (p : PendingConnection)
    → Waiting limits pending bytes
    → IsSound p
    → (not (is_some (Maps.get key pending)) && leb limits.max_pending_handshakes (length pending))
      ≡ false
    → bytes' + weight (λ q. q.buffered_bytes) (Maps.get key pending) ≡ bytes + p.buffered_bytes
    → bytes' ≤ limits.max_pending_bytes
    → Waiting limits (Maps.put key p pending) bytes'
put-Waiting {limits} {pending} bytes' key p w s room sum small = record {
  distinct = put-Distinct key p pending w.distinct;
  exact = omega (arith, w.exact, sum_of-put buffered key p pending);
  each = Each-put IsSound key p pending s w.each;
  few = elim (Option-cases (Maps.get key pending)) [
    | inl e ↦ elim (Bool-cases (leb limits.max_pending_handshakes (length pending))) [
      | inl f ↦ absurd (ground (arith, e, f, room))
      | inr f ↦ omega (tests, length-put_le key p pending)
    ]
    | inr (q, e) ↦ rw (length-put_present key p q pending e) w.few
  ];
  few_bytes = small;
}

pub delete-Waiting :
    {limits : Limits} {pending : Map PendingKey PendingConnection} {bytes : ℕ} (key : PendingKey)
    (p : PendingConnection)
    → Waiting limits pending bytes
    → Maps.get key pending ≡ some p
    → (p.buffered_bytes ≤ bytes)
      × Waiting limits (Maps.delete key pending) (bytes - p.buffered_bytes)
delete-Waiting {limits} {pending} {bytes} key p w e =
    let sum : sum_of buffered (Maps.delete key pending) + p.buffered_bytes
        ≡ sum_of buffered pending =
      subst
        (λ o.
          sum_of buffered (Maps.delete key pending) + weight buffered o ≡ sum_of buffered pending)
        e (sum_of-delete buffered key pending w.distinct) in
    (
      omega (arith, w.exact),
      record {
        distinct = delete-Distinct key pending w.distinct;
        exact = omega (arith, w.exact);
        each = Each-delete IsSound key pending w.each;
        few = omega (arith, w.few, length-delete_le key pending);
        few_bytes = omega (arith, w.few_bytes);
      },
    )

pub insert_all-Inv :
    (r : CryptoReassembly) (frames : Fragments)
    → Invariant.Inv r
    → Post Invariant.Inv (insert_all r frames)
unfolding insert_all
insert_all-Inv r [] v = returns v
insert_all-Inv r ((o, part) ∷ frames) v =
    Post-bind _ _ (insert-Post r o part v) λ r' h. insert_all-Inv r' frames h.0

module _ {lib : Library} where
  -- `remove_pending` does not panic, whatever the key.
  pub remove_pending-Ends :
      (key : PendingKey) (r : Router lib) → Inv r → Ends Inv Anything (remove_pending key r)
  unfolding remove_pending
  remove_pending-Ends key r i = elim (Option-cases (Maps.get key r.pending)) [
    | inl e ↦ rw e (is_done i tt)
    | inr (p, e) ↦
        let (few, w) = delete-Waiting key p i.0 e in
        rw e (elim (Bool-cases (ltb r.pending_bytes p.buffered_bytes)) [
          | inl f ↦ absurd (omega tests)
          | inr f ↦ rw f (is_done (w, i.1) tt)
        ])
  ]
