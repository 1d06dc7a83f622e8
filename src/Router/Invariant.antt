-- ===== src/Router/Invariant.antt =====
-- What the QUIC router keeps between two events, in two parts that no field links: its pending connections, and its
-- paths with what refers to them.
pub mod Buffer
pub mod Timeout
pub mod Index
pub mod Routed
pub mod Forward
pub mod Reply
use sni_router.Prelude.{ℕ, ◌≤◌, ◌≡◌, Bool, true, false, Option, none, some, length}
use sni_router.Prelude.Equality.{nat_Key, bytes_Key, pair_Key}
use sni_router.Prelude.Maps
use sni_router.Prelude.Maps.{Map, is_some}
use sni_router.Prelude.Maps.Distinct.{Distinct, sum_of, Each}
use sni_router.Prelude.Sets
use sni_router.Prelude.Outcomes.{Bytes}
use sni_router.CidRoutes
use sni_router.CidRoutes.{CidRoutes}
use sni_router.CidRoutes.Shape
use sni_router.Net.{SocketAddr}
use sni_router.Net.Laws.{addr_Key}
use sni_router.Pending.{PendingConnection}
use sni_router.Pending.Limits.{Bounded}
use sni_router.Quic.Reassembly.Invariant
use sni_router.Router.{Library, Limits, Connection, Router, PendingKey}

-- A pending connection is within its own limits, and its reassembly is in order.
abbrev pub IsSound : PendingConnection → Type 0
IsSound p = Bounded p × Invariant.Inv p.crypto

-- Every pending connection is sound, and `pending_bytes` is what they have buffered, within the limits.
pub record Waiting (limits : Limits) (pending : Map PendingKey PendingConnection) (bytes : ℕ)
    : Type 0 where
  pub distinct : Distinct pending
  pub exact : bytes ≡ sum_of (λ p. p.buffered_bytes) pending
  pub each : Each IsSound pending
  pub few : length pending ≤ limits.max_pending_handshakes
  pub few_bytes : bytes ≤ limits.max_pending_bytes

-- `get(id).is_some_and(|conn| conn.cids.contains(cid))`
abbrev pub holds : {Text : Type 0} → Bytes → Option (Connection Text) → Bool
holds cid none = false
holds cid (some conn) = Sets.member cid conn.cids

-- The index maps a connection ID to a path exactly where the path holds it. The ids of paths are below the next
-- one, `lb_paths` leads to paths only, and the limits hold.
pub record Paths {Text : Type 0} (limits : Limits) (next : ℕ) (conns : Map ℕ (Connection Text))
    (routes : CidRoutes) (lb_paths : Map (SocketAddr × SocketAddr) ℕ) : Type 0 where
  pub few : length conns ≤ limits.max_paths
  pub distinct : Distinct conns
  pub fresh : (id : ℕ) → next ≤ id → Maps.get id conns ≡ none
  pub valid : Shape.IsValid routes
  pub owned :
      (cid : Bytes) (id : ℕ)
      → CidRoutes.get routes cid ≡ some id
      → holds cid (Maps.get id conns) ≡ true
  pub found :
      (cid : Bytes) (id : ℕ)
      → holds cid (Maps.get id conns) ≡ true
      → CidRoutes.get routes cid ≡ some id
  pub few_cids :
      (id : ℕ) (conn : Connection Text)
      → Maps.get id conns ≡ some conn
      → length conn.cids ≤ limits.max_cids_per_path
  pub leads :
      (path : SocketAddr × SocketAddr) (id : ℕ)
      → Maps.get path lb_paths ≡ some id
      → is_some (Maps.get id conns) ≡ true

abbrev pub Inv : {lib : Library} → Router lib → Type 0
Inv r =
    Waiting r.limits r.pending r.pending_bytes
    × Paths r.limits r.next_connection_id r.connections r.cid_routes r.lb_paths
