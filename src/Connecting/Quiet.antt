-- ===== src/Connecting/Quiet.antt =====
-- Events of a connection in which its client has no part.
use mathlib.Core.List.{append_assoc}
use sni_router.Prelude.{◌≡◌, sym, ◌⊎◌, inl, inr, Bool, true, false, List, [], ◌∷◌, ◌++◌}
use sni_router.Prelude.Outcomes.{Bytes}
use sni_router.Connecting.{
  Event, connected, refused, backend_handshake, unix_connected, unix_refused, client_handshake,
  passed,
}

-- The client has no part in the event: it gets nothing, and nothing that it sent goes to a backend.
abbrev pub is_quiet : Event → Bool
is_quiet (connected addr) = true
is_quiet (refused addr) = true
is_quiet (backend_handshake host) = true
is_quiet (unix_connected path) = true
is_quiet (unix_refused path) = true
is_quiet (client_handshake sent) = false
is_quiet (passed path bytes) = false

abbrev pub Quiet : List Event → Type 0
Quiet [] = Unit {0}
Quiet (event ∷ events) = (is_quiet event ≡ true) × Quiet events

pub Quiet-append : (xs ys : List Event) → Quiet xs → Quiet ys → Quiet (xs ++ ys)
Quiet-append [] ys q r = r
Quiet-append (x ∷ xs) ys (h, q) r = (h, Quiet-append xs ys q r)

-- What a failed hand-over leaves: a handshake, or its datagram.
abbrev pub Attempted : Bytes → List Event → Type 0
Attempted path [] = Unit {0}
Attempted path (client_handshake sent ∷ events) = Attempted path events
Attempted path (passed to bytes ∷ events) = (to ≡ path) × Attempted path events
Attempted path (_ ∷ events) = ⊥

-- A failure: the client has had no part, or nothing was tried behind the hand-over that failed.
abbrev pub IsOver : List Event → Type 0
IsOver new =
    Quiet new
    ⊎ ((before : List Event) × (path : Bytes) × (last : List Event) × Quiet before
        × (new ≡ before ++ unix_connected path ∷ last)
        × Attempted path last)

pub IsOver-append : (before new : List Event) → Quiet before → IsOver new → IsOver (before ++ new)
IsOver-append before new q (inl r) = inl (Quiet-append before new q r)
IsOver-append before new q (inr (first, path, last, r, is, a)) = inr (
  before ++ first,
  path,
  last,
  Quiet-append before first q r,
  rw is (sym (append_assoc before first (unix_connected path ∷ last))),
  a,
)
