-- ===== src/Router/Invariant/Timeout.antt =====
-- What `cleanup` does to the pending connections: those past their time go, and the count of bytes stays exact.
use mathlib.Core.Path.{subst, sym}
use sni_router.Prelude.{
  if◌then◌else◌, Option, none, some, true, false, ℕ, ◌+◌, ◌-◌, ◌≤◌, ◌≡◌, refl, inl, inr, [], ◌∷◌,
  ◌++◌, none, Bool-cases, ltb, length, tests, arith,
}
use sni_router.Prelude.Equality.{Key, ◌==◌, nat_Key, bytes_Key, pair_Key}
use sni_router.Prelude.Maps
use sni_router.Prelude.Maps.{Map}
use sni_router.Prelude.Maps.Distinct.{Distinct, sum_of, Each}
use sni_router.Net.Laws.{addr_Key}
use sni_router.Pending.{PendingConnection}
use sni_router.Router.{Library, Router, PendingKey, dropped, pending_timeout}
use sni_router.Router.Action.{done, resume, Ends, is_done}
use sni_router.Router.Cleanup.{minimum, retain_pending, cleanup_pending, keeps_pending}
use sni_router.Router.Invariant.{IsSound, Waiting, Paths, Inv}

abbrev buffered : PendingConnection → ℕ
buffered p = p.buffered_bytes

abbrev key_Key : Key PendingKey
key_Key = pair_Key ⦃e = addr_Key⦄ ⦃f = bytes_Key⦄

abbrev Pendings : Type 0
Pendings = Map PendingKey PendingConnection

-- What `retain` leaves of a pending connection.
abbrev pub waiting_on : ℕ → ℕ → Option PendingConnection → Option PendingConnection
waiting_on now timeout none = none
waiting_on now timeout (some p) = if keeps_pending now timeout p then some p else none

-- Of the connections `m`, those `kept` are left; what the others had buffered is no longer counted.
record Retained (now timeout : ℕ) (m kept : Pendings) (bytes bytes' : ℕ) : Type 0 where
  less : sum_of buffered kept ≤ sum_of buffered m
  counted : bytes' + sum_of buffered m ≡ bytes + sum_of buffered kept
  sound : Each IsSound kept
  distinct : Distinct kept
  fewer : length kept ≤ length m
  exactly : (key : PendingKey) → Maps.get key kept ≡ waiting_on now timeout (Maps.get key m)

keep_one :
    {now timeout : ℕ} {m kept : Pendings} {bytes bytes' : ℕ} (key : PendingKey)
    (p : PendingConnection)
    → IsSound p
    → Maps.get key m ≡ none
    → keeps_pending now timeout p ≡ true
    → Retained now timeout m kept bytes bytes'
    → Retained now timeout ((key, p) ∷ m) ((key, p) ∷ kept) bytes bytes'
unfolding Maps.get
keep_one {now} {timeout} {m} key p s d e h = record {
  less = omega (arith, h.less);
  counted = omega (arith, h.counted);
  sound = (s, h.sound);
  distinct = (rw (h.exactly key, d) refl, h.distinct);
  fewer = omega (arith, h.fewer);
  exactly =
      λ k. elim (Bool-cases (key == k)) [ inl f ↦ rw (f, e) refl | inr f ↦ rw f (h.exactly k) ];
}

drop_one :
    {now timeout : ℕ} {m kept : Pendings} {bytes bytes' : ℕ} (key : PendingKey)
    (p : PendingConnection)
    → p.buffered_bytes ≤ bytes
    → Maps.get key m ≡ none
    → keeps_pending now timeout p ≡ false
    → Retained now timeout m kept (bytes - p.buffered_bytes) bytes'
    → Retained now timeout ((key, p) ∷ m) kept bytes bytes'
unfolding Maps.get
drop_one {now} {timeout} {m} {kept} key p few d e h = record {
  less = omega (arith, h.less);
  counted = omega (arith, h.counted);
  sound = h.sound;
  distinct = h.distinct;
  fewer = omega (arith, h.fewer);
  exactly = λ k. elim (Bool-cases (key == k)) [
    | inl f ↦
        rw (f, e)
          (subst (λ j. Maps.get j kept ≡ none) ((key_Key.eq_iff key k).0 f)
            (rw (h.exactly key, d) refl))
    | inr f ↦ rw f (h.exactly k)
  ];
}

module _ {lib : Library} where
  -- What stays beside the pending connections.
  abbrev Rest : Router lib → Router lib → Type 0
  Rest r s =
      (s.limits ≡ r.limits)
      × (s.connections ≡ r.connections)
      × Paths s.limits s.next_connection_id s.connections s.cid_routes s.lb_paths

  abbrev count_out : PendingConnection → Router lib → Router lib
  count_out p r = record r {
    pending_bytes = r.pending_bytes - p.buffered_bytes;
    log = r.log ++ dropped pending_timeout (length p.datagrams) ∷ [];
  }

  -- The loop ends with the connections that it kept.
  retain_pending-done :
      (now timeout : ℕ) (m : Pendings) (r : Router lib)
      → Each IsSound m
      → Distinct m
      → sum_of buffered m ≤ r.pending_bytes
      → Paths r.limits r.next_connection_id r.connections r.cid_routes r.lb_paths
      → (kept : Pendings) × (s : Router lib) × (retain_pending now timeout m r ≡ done kept s)
        × Rest r s
        × Retained now timeout m kept r.pending_bytes s.pending_bytes
  unfolding retain_pending resume Maps.get
  retain_pending-done now timeout [] r a d few i = (
    [],
    r,
    refl,
    (refl, refl, i),
    record {
      less = omega arith;
      counted = refl;
      sound = tt;
      distinct = tt;
      fewer = omega arith;
      exactly = λ _. refl;
    },
  )
  retain_pending-done now timeout ((key, p) ∷ m) r a d few i =
      elim (Bool-cases (keeps_pending now timeout p)) [
        | inl e ↦
            let (kept, s, f, rest, h) =
              retain_pending-done now timeout m r a.1 d.1 (omega arith) i in
            ((key, p) ∷ kept, s, rw (e, f, retain_pending) refl, rest, keep_one key p a.0 d.0 e h)
        | inr e ↦ elim (Bool-cases (ltb r.pending_bytes p.buffered_bytes)) [
          | inl f ↦ absurd (omega tests)
          | inr f ↦
              let (kept, s, g, rest, h) =
                retain_pending-done now timeout m (count_out p r) a.1 d.1 (omega tests) i in
              (kept, s, rw (e, f, retain_pending) g, rest, drop_one key p (omega tests) d.0 e h)
        ]
      ]

  -- The time out of pending connections neither panics nor breaks the invariant, leaves the paths, and
  -- forgets the pending connections that are past their time and no other.
  pub cleanup_pending-Ends :
      (now : ℕ) (r : Router lib)
      → Inv r
      → Ends Inv
          (λ _ s.
            (s.connections ≡ r.connections)
            × ((key : PendingKey)
                → Maps.get key s.pending
                  ≡ waiting_on now
                      (minimum r.config.routing.handshake_timeout r.idle_timeout)
                      (Maps.get key r.pending)))
          (cleanup_pending now r)
  unfolding cleanup_pending resume
  cleanup_pending-Ends now r (w, i) =
      let (kept, s, e, (limits, same, i'), h) =
        retain_pending-done now (minimum r.config.routing.handshake_timeout r.idle_timeout)
          r.pending r w.each w.distinct (omega (arith, w.exact)) i in
      rw e (
        is_done
          (
            subst (λ l. Waiting l kept s.pending_bytes) (sym limits)
                (record {
                  distinct = h.distinct;
                  exact = omega (arith, h.counted, w.exact);
                  each = h.sound;
                  few = omega (arith, h.fewer, w.few);
                  few_bytes = omega (arith, w.few_bytes, h.counted, h.less, w.exact);
                }),
            i',
          )
          (same, h.exactly))
