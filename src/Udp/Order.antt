-- ===== src/Udp/Order.antt =====
-- What the queue promises: its account of bytes is exact, and datagrams leave in the order of the calls.
use mathlib.Core.List.{append_assoc, append-nil}
use mathlib.Core.Path.{subst}
use sni_router.Prelude.{
  ℕ, ◌+◌, ◌≤◌, ◌<◌, ◌≡◌, refl, ap, ap₂, ◌∙◌, Bool, true, false, List, [], ◌∷◌, ◌++◌, none, some,
  ltb, nat_eq, inl, inr, Bool-cases, length, length-append, if◌then◌else◌, tests, arith,
}
use sni_router.Udp.Sublist.{IsSublist, empty, keep_last, skip_last, leave_out}
use sni_router.Udp.Account.{
  weight, weight-append, one, held, held_charge, on_the_way, HasRoom, HasRoom-le, held_charge_le,
  nothing_pending, nothing_received,
}
use sni_router.Udp.{
  QueuedDatagram, charge, idle, reserved, charged, SendQueue, max_queued_datagrams,
  max_queued_bytes, FitsBuffer, send_now, try_reserve, add_charge, send_or_undo, finish, Step,
  sends_now, reserves, adds_charge, decides, receives, finishes, Reachable, at_start, one_more,
}

abbrev pub queued_bytes : SendQueue → ℕ
queued_bytes q = weight (one q.received) + weight q.channel

pub record Inv (q : SendQueue) : Type 0 where
  -- the account is exact
  pub exact : q.pending_bytes ≡ queued_bytes q + held_charge q.router
  pub bounded : queued_bytes q ≤ max_queued_bytes
  pub few : length q.channel ≤ max_queued_datagrams
  pub room : HasRoom q.router (length q.channel) (queued_bytes q)
  pub ordered : IsSublist (q.sent ++ on_the_way q) q.submitted

send_now-Inv :
    (q : SendQueue) (d : QueuedDatagram) (taken : Bool)
    → q.router ≡ idle
    → nat_eq q.pending_bytes 0 ≡ true
    → Inv q
    → Inv (send_now taken d q)
unfolding send_now
send_now-Inv q d taken r none_pending v = record {
  exact = v.exact;
  bounded = v.bounded;
  few = v.few;
  room = v.room;
  ordered = at_once taken;
}
  where
    drained : on_the_way q ≡ []
    drained =
        rw
          (
            r,
            nothing_received q.received (omega (tests, v.exact)),
            nothing_pending q.channel (omega (tests, v.exact)),
          )
          refl

    before : IsSublist q.sent q.submitted
    before =
        subst (λ ds. IsSublist ds q.submitted)
          (ap (λ (ds : List QueuedDatagram). q.sent ++ ds) drained ∙ append-nil q.sent) v.ordered

    at_once :
        (b : Bool)
        → IsSublist
            ((if b then q.sent ++ d ∷ [] else q.sent) ++ on_the_way q)
            (q.submitted ++ d ∷ [])
    at_once true = rw (drained, append-nil) (keep_last d before)
    at_once false = rw (drained, append-nil) (skip_last d before)

try_reserve-Inv :
    (q : SendQueue) (d : QueuedDatagram)
    → FitsBuffer d
    → q.router ≡ idle
    → Inv q
    → Inv (try_reserve d q)
unfolding try_reserve
try_reserve-Inv q d fits r v = elim (Bool-cases (ltb (length q.channel) max_queued_datagrams)) [
  | inl e ↦ rw e (record {
    exact = omega (arith, v.exact, ap held_charge r);
    bounded = v.bounded;
    few = v.few;
    room = (fits, omega tests);
    ordered = rw held_back (keep_last d waiting);
  })
  | inr e ↦ rw e (record {
    exact = omega (arith, v.exact, ap held_charge r);
    bounded = v.bounded;
    few = v.few;
    room = tt;
    ordered = skip_last d (
        subst (λ ds. IsSublist ds q.submitted)
          (ap (λ x. q.sent ++ (one q.received ++ (q.channel ++ held x))) r) v.ordered);
  })
]
  where
    waiting : IsSublist (q.sent ++ (one q.received ++ (q.channel ++ []))) q.submitted
    waiting =
        subst (λ ds. IsSublist ds q.submitted)
          (ap (λ x. q.sent ++ (one q.received ++ (q.channel ++ held x))) r) v.ordered

    held_back :
        q.sent ++ (one q.received ++ (q.channel ++ d ∷ []))
        ≡ (q.sent ++ (one q.received ++ (q.channel ++ []))) ++ d ∷ []
    held_back = simp (append_assoc, append-nil)

add_charge-Inv :
    (q : SendQueue) (d : QueuedDatagram) → q.router ≡ reserved d → Inv q → Inv (add_charge d q)
unfolding add_charge
add_charge-Inv q d r v =
    let (fits, place) = subst (λ x. HasRoom x (length q.channel) (queued_bytes q)) r v.room in
    record {
      exact = omega (arith, v.exact, v.bounded, ap held_charge r);
      bounded = v.bounded;
      few = v.few;
      room = (fits, place, omega (arith, v.exact, ap held_charge r));
      ordered =
          subst (λ ds. IsSublist ds q.submitted)
            (ap (λ x. q.sent ++ (one q.received ++ (q.channel ++ held x))) r) v.ordered;
    }

send_or_undo-Inv :
    (q : SendQueue) (d : QueuedDatagram) (previous : ℕ)
    → q.router ≡ charged d previous
    → Inv q
    → Inv (send_or_undo d previous q)
unfolding send_or_undo
send_or_undo-Inv q d previous r v = elim (Bool-cases (ltb max_queued_bytes (previous + charge d))) [
  | inl e ↦ rw e (record {
    exact = omega (arith, v.exact, v.bounded, ap held_charge r, space.0);
    bounded = v.bounded;
    few = v.few;
    room = tt;
    ordered = given_up;
  })
  | inr e ↦ rw e (record {
    exact = omega (arith, v.exact, ap held_charge r, weight-append q.channel (d ∷ []));
    bounded = omega (tests, space.2, weight-append q.channel (d ∷ []));
    few = omega (arith, space.1, length-append q.channel (d ∷ []));
    room = tt;
    ordered = rw (append-nil (q.channel ++ d ∷ [])) waiting;
  })
]
  where
    space : FitsBuffer d × (length q.channel < max_queued_datagrams) × (queued_bytes q ≤ previous)
    space = subst (λ x. HasRoom x (length q.channel) (queued_bytes q)) r v.room

    waiting : IsSublist (q.sent ++ (one q.received ++ (q.channel ++ d ∷ []))) q.submitted
    waiting =
        subst (λ ds. IsSublist ds q.submitted)
          (ap (λ x. q.sent ++ (one q.received ++ (q.channel ++ held x))) r) v.ordered

    at_end :
        q.sent ++ (one q.received ++ (q.channel ++ d ∷ []))
        ≡ (q.sent ++ (one q.received ++ q.channel)) ++ d ∷ []
    at_end = simp append_assoc

    given_up : IsSublist (q.sent ++ (one q.received ++ (q.channel ++ []))) q.submitted
    given_up =
        subst (λ ds. IsSublist ds q.submitted) (simp (append_assoc, append-nil))
          (leave_out (q.sent ++ (one q.received ++ q.channel)) d [] q.submitted
            (subst (λ ds. IsSublist ds q.submitted) at_end waiting))

receive-Inv :
    (q : SendQueue) (d : QueuedDatagram) (rest : List QueuedDatagram)
    → q.received ≡ none
    → q.channel ≡ d ∷ rest
    → Inv q
    → Inv (record q { channel = rest; received = some d })
receive-Inv q d rest r c v = record {
  exact = omega (arith, v.exact, same);
  bounded = omega (arith, v.bounded, same);
  few = omega (arith, v.few, ap (length {A = QueuedDatagram}) c);
  room =
      HasRoom-le q.router _ _ _ _ (omega (arith, ap (length {A = QueuedDatagram}) c))
        (omega (arith, same)) v.room;
  ordered =
      subst (λ ds. IsSublist ds q.submitted)
        (ap₂ (λ o ch. q.sent ++ (one o ++ (ch ++ held q.router))) r c) v.ordered;
}
  where
    same : queued_bytes q ≡ charge d + weight rest
    same = ap₂ (λ o ch. weight (one o) + weight ch) r c ∙ omega arith

finish-Inv :
    (q : SendQueue) (d : QueuedDatagram) (taken : Bool)
    → q.received ≡ some d
    → Inv q
    → Inv (finish taken d q)
unfolding finish
finish-Inv q d taken r v = record {
  exact = omega (arith, v.exact, v.bounded, same, held_charge_le q.router _ _ v.room);
  bounded = omega (arith, v.bounded, same);
  few = v.few;
  room = HasRoom-le q.router _ _ _ _ (omega arith) (omega (arith, same)) v.room;
  ordered = gone taken;
}
  where
    same : queued_bytes q ≡ charge d + weight q.channel
    same = ap (λ o. weight (one o) + weight q.channel) r ∙ omega arith

    waiting : IsSublist (q.sent ++ (d ∷ (q.channel ++ held q.router))) q.submitted
    waiting =
        subst (λ ds. IsSublist ds q.submitted)
          (ap (λ o. q.sent ++ (one o ++ (q.channel ++ held q.router))) r) v.ordered

    gone :
        (b : Bool)
        → IsSublist
            ((if b then q.sent ++ d ∷ [] else q.sent) ++ (q.channel ++ held q.router))
            q.submitted
    gone true = rw append_assoc waiting
    gone false = leave_out q.sent d (q.channel ++ held q.router) q.submitted waiting

Step-Inv : {q r : SendQueue} → Step q r → Inv q → Inv r
Step-Inv (sends_now q d taken fits r e) v = send_now-Inv q d taken r e v
Step-Inv (reserves q d fits r) v = try_reserve-Inv q d fits r v
Step-Inv (adds_charge q d r) v = add_charge-Inv q d r v
Step-Inv (decides q d previous r) v = send_or_undo-Inv q d previous r v
Step-Inv (receives q d rest r c) v = receive-Inv q d rest r c v
Step-Inv (finishes q d taken r) v = finish-Inv q d taken r v

-- However the router and the writer task interleave: the count of pending bytes is that of what is
-- queued, being sent, or being charged; at most 128 KiB and 32 datagrams are queued; and the datagrams
-- sent, followed by those on their way, are those submitted, in the order of the calls, with some left
-- out. So a datagram that is sent at once overtakes none.
pub Reachable-Inv : (q : SendQueue) → Reachable q → Inv q
Reachable-Inv _ at_start = record {
  exact = omega arith;
  bounded = omega arith;
  few = omega arith;
  room = tt;
  ordered = empty;
}
Reachable-Inv _ (one_more before step) = Step-Inv step (Reachable-Inv _ before)
