-- ===== src/Router/Cleanup.antt =====
-- `cleanup` of src/bin/sni-router-h3.rs, which forgets what expired.
pub mod Forget
pub mod Safety
use sni_router.Prelude.{
  ℕ, ◌+◌, ◌-◌, ◌&&◌, not, min, Bool, true, false, List, [], ◌∷◌, ◌++◌, Option, none, some, ltb,
  nat_eq, length, if◌then◌else◌,
}
use sni_router.Prelude.Equality.{nat_Key, bytes_Key, pair_Key}
use sni_router.Prelude.Maps
use sni_router.Prelude.Maps.{Map, is_some}
use sni_router.Prelude.Sets
use sni_router.Prelude.Sets.{filter}
use sni_router.Prelude.Outcomes.{Bytes}
use sni_router.CidRoutes
use sni_router.CidRoutes.{CidRoutes}
use sni_router.Net.{SocketAddr, normalize_socket_addr}
use sni_router.Net.Laws.{addr_Key}
use sni_router.Pending.{PendingConnection}
use sni_router.Router.{
  Library, World, Connection, Router, PendingKey, Output, expired, dropped, pending_timeout,
}
use sni_router.Router.Action.{Action, Ending, done, failed, panicked, ◌>>=◌, ◌>>◌, modify}
use sni_router.Router.Establish.{ids_of, owned_by_other}

-- `cid_routes.get(&cid) == Some(&conn_id)`
abbrev pub owned_by : ℕ → Option ℕ → Bool
owned_by conn_id none = false
owned_by conn_id (some owner) = nat_eq owner conn_id

unfoldable pub unroute_all : List Bytes → ℕ → CidRoutes → CidRoutes
unroute_all [] conn_id routes = routes
unroute_all (cid ∷ cids) conn_id routes =
    let routes' =
      if owned_by conn_id (CidRoutes.get routes cid)
      then (CidRoutes.remove routes cid).0
      else routes in
    unroute_all cids conn_id routes'

-- The ids of a client without one, which go when none is left.
abbrev pub leave_client : SocketAddr → List ℕ → Map SocketAddr (List ℕ) → Map SocketAddr (List ℕ)
leave_client client [] routes = Maps.delete client routes
leave_client client (id ∷ ids) routes = Maps.put client (id ∷ ids) routes

abbrev pub forget_client :
    ℕ → SocketAddr → Option (List ℕ) → Map SocketAddr (List ℕ) → Map SocketAddr (List ℕ)
forget_client id client none routes = routes
forget_client id client (some ids) routes = leave_client client (Sets.remove id ids) routes

unfoldable pub minimum : Option ℕ → ℕ → ℕ
minimum none idle_timeout = idle_timeout
minimum (some timeout) idle_timeout = min timeout idle_timeout

-- `filter_map(|(conn_id, conn)| conn.expired(..).then_some(*conn_id))`
unfoldable pub expired_ids : {Text : Type 0} → ℕ → ℕ → Map ℕ (Connection Text) → List ℕ
expired_ids now idle_timeout [] = []
expired_ids now idle_timeout ((id, conn) ∷ conns) =
    let rest = expired_ids now idle_timeout conns in
    if expired conn now idle_timeout then id ∷ rest else rest

abbrev pub keeps_pending : ℕ → ℕ → PendingConnection → Bool
keeps_pending now timeout p = ltb (now - p.last_seen) timeout && ltb (now - p.created) timeout

module _ {lib : Library} where
  abbrev pub forget_conn : ℕ → Option (Connection lib.Text) → Router lib → Router lib
  forget_conn id none r = r
  forget_conn id (some conn) r =
      let client = normalize_socket_addr conn.client_addr in
      record r {
        connections = Maps.delete id r.connections;
        cid_routes = unroute_all conn.cids id r.cid_routes;
        client_routes = forget_client id client (Maps.get client r.client_routes) r.client_routes;
      }

  unfoldable pub forget : ℕ → Router lib → Router lib
  unfolding unroute_all
  forget id r = forget_conn id (Maps.get id r.connections) r

  unfoldable pub forget_all : List ℕ → Router lib → Router lib
  forget_all [] r = r
  forget_all (id ∷ ids) r = forget_all ids (forget id r)

  -- `pending.retain(..)`, which counts the bytes down as it goes.
  unfoldable pub retain_pending :
      ℕ
      → ℕ
      → Map PendingKey PendingConnection
      → Router lib
      → Ending (Router lib) (Map PendingKey PendingConnection)
  retain_pending now timeout [] r = done [] r
  retain_pending now timeout ((key, p) ∷ pending) r = elim (keeps_pending now timeout p) [
    | true ↦ (do kept ← retain_pending now timeout pending; (λ s. done ((key, p) ∷ kept) s)) r
    | false ↦ elim (ltb r.pending_bytes p.buffered_bytes) [
      | true ↦ panicked
      | false ↦ retain_pending now timeout pending (record r {
        pending_bytes = r.pending_bytes - p.buffered_bytes;
        log = r.log ++ dropped pending_timeout (length p.datagrams) ∷ [];
      })
    ]
  ]

  unfoldable pub cleanup_pending : ℕ → Action lib (Unit {0})
  cleanup_pending now r =
      (do
        kept ←
            retain_pending now (minimum r.config.routing.handshake_timeout r.idle_timeout) r.pending
        modify (λ s. record s { pending = kept }))
        r

  unfoldable pub forget_lb_paths : Router lib → Router lib
  forget_lb_paths r = record r {
    lb_paths = filter (λ path. is_some (Maps.get path.1 r.connections)) r.lb_paths;
  }

  unfoldable pub cleanup : World → Action lib (Unit {0})
  cleanup w r =
      (do
        modify
            (λ s. forget_lb_paths (forget_all (expired_ids w.now s.idle_timeout s.connections) s))
        cleanup_pending w.now)
        r
