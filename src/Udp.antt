-- ===== src/Udp.antt =====
-- `SendQueue` and `send_or_queue` of src/h3_udp.rs: the router sends on a socket, and where the socket would block, a
-- bounded queue and a writer task send later. The router and the task interleave; the state has what they share, and
-- where the router stands in `enqueue`.
pub mod Pool
pub mod Sublist
pub mod Account
pub mod Order
use sni_router.Prelude.{
  ℕ, ◌+◌, ◌-◌, ◌*◌, ◌%◌, ◌^◌, ◌≤◌, ◌≡◌, Bool, true, List, [], ◌∷◌, ◌++◌, Option, none, some, ltb,
  nat_eq, length, if◌then◌else◌,
}
use sni_router.Prelude.Outcomes.{Bytes}
use sni_router.Net.{SocketAddr}

abbrev pub max_datagram_size : ℕ
max_datagram_size = 65_535

abbrev pub max_queued_datagrams : ℕ
max_queued_datagrams = 32

abbrev pub max_queued_bytes : ℕ
max_queued_bytes = 128 * 1024

pub record QueuedDatagram : Type 0 where
  pub packet : Bytes
  pub destination : Option SocketAddr

-- `packet.len() + 1`
abbrev pub charge : QueuedDatagram → ℕ
charge d = length d.packet + 1

-- Where the router stands: outside `enqueue`, behind `try_reserve`, or behind `fetch_add`, which returned a number.
pub data Router : Type 0 where
  idle : Router
  reserved : QueuedDatagram → Router
  charged : QueuedDatagram → ℕ → Router

pub record SendQueue : Type 0 where
  -- the channel, and what the task has received from it and not sent
  pub channel : List QueuedDatagram
  pub received : Option QueuedDatagram
  pub pending_bytes : ℕ
  pub router : Router
  -- the calls of `send_or_queue` so far, and what the socket has taken, both in order
  pub submitted : List QueuedDatagram
  pub sent : List QueuedDatagram

abbrev pub empty_queue : SendQueue
empty_queue = record {
  channel = [];
  received = none;
  pending_bytes = 0;
  router = idle;
  submitted = [];
  sent = [];
}

-- On a `usize` of 64 bits.
abbrev pub fetch_add : ℕ → ℕ → ℕ
fetch_add n by = (n + by) % 2 ^ 64

abbrev pub fetch_sub : ℕ → ℕ → ℕ
fetch_sub n by = (n + 2 ^ 64 - by) % 2 ^ 64

-- The send that needs no queue, which the socket takes or refuses with an error.
unfoldable pub send_now : Bool → QueuedDatagram → SendQueue → SendQueue
send_now taken d q = record q {
  submitted = q.submitted ++ d ∷ [];
  sent = (if taken then q.sent ++ d ∷ [] else q.sent);
}

-- `try_reserve`: a full channel drops the datagram.
unfoldable pub try_reserve : QueuedDatagram → SendQueue → SendQueue
try_reserve d q = record q {
  submitted = q.submitted ++ d ∷ [];
  router = (if ltb (length q.channel) max_queued_datagrams then reserved d else idle);
}

-- `pending_bytes.fetch_add(charge)`
unfoldable pub add_charge : QueuedDatagram → SendQueue → SendQueue
add_charge d q = record q {
  pending_bytes = fetch_add q.pending_bytes (charge d);
  router = charged d q.pending_bytes;
}

-- `if previous + charge > MAX_QUEUED_BYTES`, and `permit.send` behind it.
unfoldable pub send_or_undo : QueuedDatagram → ℕ → SendQueue → SendQueue
send_or_undo d previous q =
    if ltb max_queued_bytes (previous + charge d)
    then record q { pending_bytes = fetch_sub q.pending_bytes (charge d); router = idle }
    else record q { channel = q.channel ++ d ∷ []; router = idle }

-- The task's `send`, which may fail, and its `fetch_sub`.
unfoldable pub finish : Bool → QueuedDatagram → SendQueue → SendQueue
finish taken d q = record q {
  received = none;
  pending_bytes = fetch_sub q.pending_bytes (charge d);
  sent = (if taken then q.sent ++ d ∷ [] else q.sent);
}

-- A datagram comes from a buffer of `max_datagram_size` bytes.
abbrev pub FitsBuffer : QueuedDatagram → Type 0
FitsBuffer d = length d.packet ≤ max_datagram_size

-- The steps of the router and of the writer task. A queue that would block, or that holds bytes, goes by `try_reserve`.
pub data Step : SendQueue → SendQueue → Type 0 where
  sends_now :
      (q : SendQueue) (d : QueuedDatagram) (taken : Bool)
      → FitsBuffer d
      → q.router ≡ idle
      → nat_eq q.pending_bytes 0 ≡ true
      → Step q (send_now taken d q)
  reserves :
      (q : SendQueue) (d : QueuedDatagram)
      → FitsBuffer d
      → q.router ≡ idle
      → Step q (try_reserve d q)
  adds_charge :
      (q : SendQueue) (d : QueuedDatagram) → q.router ≡ reserved d → Step q (add_charge d q)
  decides :
      (q : SendQueue) (d : QueuedDatagram) (previous : ℕ)
      → q.router ≡ charged d previous
      → Step q (send_or_undo d previous q)
  receives :
      (q : SendQueue) (d : QueuedDatagram) (rest : List QueuedDatagram)
      → q.received ≡ none
      → q.channel ≡ d ∷ rest
      → Step q (record q { channel = rest; received = some d })
  finishes :
      (q : SendQueue) (d : QueuedDatagram) (taken : Bool)
      → q.received ≡ some d
      → Step q (finish taken d q)

pub data Reachable : SendQueue → Type 0 where
  at_start : Reachable empty_queue
  one_more : {q r : SendQueue} → Reachable q → Step q r → Reachable r
