-- ===== src/Udp/Account.antt =====
-- The bytes that are charged for the datagrams of the queue.
use sni_router.Prelude.{ℕ, ◌+◌, ◌≤◌, ◌<◌, ◌≡◌, refl, List, [], ◌∷◌, ◌++◌, Option, none, some, arith}
use sni_router.Udp.{
  QueuedDatagram, charge, Router, idle, reserved, charged, SendQueue, max_queued_datagrams,
  max_datagram_size, FitsBuffer,
}

abbrev pub weight : List QueuedDatagram → ℕ
weight [] = 0
weight (d ∷ ds) = charge d + weight ds

pub weight-append : (ds es : List QueuedDatagram) → weight (ds ++ es) ≡ weight ds + weight es
weight-append [] es = omega arith
weight-append (d ∷ ds) es = omega (arith, weight-append ds es)

abbrev pub one : Option QueuedDatagram → List QueuedDatagram
one none = []
one (some d) = d ∷ []

-- What the router holds, and what of it is charged.
abbrev pub held : Router → List QueuedDatagram
held idle = []
held (reserved d) = d ∷ []
held (charged d previous) = d ∷ []

abbrev pub held_charge : Router → ℕ
held_charge idle = 0
held_charge (reserved d) = 0
held_charge (charged d previous) = charge d

-- The datagrams on their way, the oldest first.
abbrev pub on_the_way : SendQueue → List QueuedDatagram
on_the_way q = one q.received ++ (q.channel ++ held q.router)

-- The room that the router found: a place in the channel, and the bytes before its own.
abbrev pub HasRoom : Router → ℕ → ℕ → Type 0
HasRoom idle count bytes = Unit {0}
HasRoom (reserved d) count bytes = FitsBuffer d × (count < max_queued_datagrams)
HasRoom (charged d previous) count bytes =
    FitsBuffer d × (count < max_queued_datagrams) × (bytes ≤ previous)

pub HasRoom-le :
    (router : Router) (count fewer bytes less : ℕ)
    → fewer ≤ count
    → less ≤ bytes
    → HasRoom router count bytes
    → HasRoom router fewer less
HasRoom-le idle count fewer bytes less f l h = tt
HasRoom-le (reserved d) count fewer bytes less f l h = (h.0, omega arith)
HasRoom-le (charged d previous) count fewer bytes less f l h = (h.0, omega arith, omega arith)

pub held_charge_le :
    (router : Router) (count bytes : ℕ)
    → HasRoom router count bytes
    → held_charge router ≤ max_datagram_size + 1
held_charge_le idle count bytes h = omega arith
held_charge_le (reserved d) count bytes h = omega arith
held_charge_le (charged d previous) count bytes h = omega arith

pub nothing_pending : (ds : List QueuedDatagram) → weight ds ≡ 0 → ds ≡ []
nothing_pending [] h = refl
nothing_pending (d ∷ ds) h = absurd (omega arith)

pub nothing_received : (o : Option QueuedDatagram) → weight (one o) ≡ 0 → one o ≡ []
nothing_received o h = nothing_pending (one o) h
