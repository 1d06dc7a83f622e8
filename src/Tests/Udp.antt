-- ===== src/Tests/Udp.antt =====
-- Two datagrams go through the queue, and the writer task has received the first one.
use sni_router.Prelude.{◌≡◌, refl, true, List, [], ◌∷◌, none, arith}
use sni_router.Prelude.Outcomes.{ok}
use sni_router.Udp.{max_datagram_size}
use sni_router.Udp.Pool.{PacketPool, zeroed, length-zeroed, IsPool, reads, reads-IsPool}
use sni_router.Udp.{
  QueuedDatagram, SendQueue, empty_queue, send_now, try_reserve, add_charge, send_or_undo, Step,
  sends_now, reserves, adds_charge, decides, receives, finishes, Reachable, at_start, one_more,
  finish,
}
use sni_router.Udp.Order.{Inv, Reachable-Inv}

abbrev first : QueuedDatagram
first = record { packet = 1 ∷ 2 ∷ []; destination = none }

abbrev second : QueuedDatagram
second = record { packet = []; destination = none }

abbrev waiting : SendQueue
waiting = record {
  channel = first ∷ [];
  received = none;
  pending_bytes = 3;
  router = sni_router.Udp.Router.idle;
  submitted = first ∷ [];
  sent = [];
}

waiting-runs : send_or_undo first 0 (add_charge first (try_reserve first empty_queue)) ≡ waiting
unfolding send_or_undo add_charge try_reserve
waiting-runs = refl

abbrev busy : SendQueue
busy = record {
  channel = [];
  received = sni_router.Prelude.some first;
  pending_bytes = 3;
  router = sni_router.Udp.Router.idle;
  submitted = first ∷ [];
  sent = [];
}

busy-Reachable : Reachable busy
unfolding send_or_undo add_charge try_reserve
busy-Reachable =
    one_more
      (one_more
        (one_more (one_more at_start (reserves empty_queue first (omega arith) refl))
          (adds_charge (try_reserve first empty_queue) first refl))
        (decides (add_charge first (try_reserve first empty_queue)) first 0 refl))
      (receives waiting first [] refl refl)

Reachable-Inv_example : Inv (try_reserve second busy)
Reachable-Inv_example =
    Reachable-Inv (try_reserve second busy)
      (one_more busy-Reachable (reserves busy second (omega arith) refl))

-- A pool with one buffer.
abbrev one_buffer : PacketPool
one_buffer = record { buffers = zeroed max_datagram_size ∷ [] }

one_buffer-IsPool : IsPool one_buffer
one_buffer-IsPool = record { full = (length-zeroed max_datagram_size, tt); few = omega arith }

reads-IsPool_example :
    (pool' : PacketPool) × (reads one_buffer (7 ∷ 8 ∷ []) ≡ ok (7 ∷ 8 ∷ [], pool')) × IsPool pool'
reads-IsPool_example = reads-IsPool one_buffer (7 ∷ 8 ∷ []) one_buffer-IsPool (omega arith)
