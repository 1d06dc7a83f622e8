-- ===== src/Router/Establish.antt =====
-- `establish_and_flush` of src/bin/sni-router-h3.rs: a pending connection becomes a path to a backend, or joins the path of
-- its client to a QUIC-LB server.
pub mod Safety
use sni_router.Prelude.{
  ℕ, ◌+◌, ◌&&◌, ◌||◌, not, min, Bool, true, false, List, [], ◌∷◌, ◌++◌, Option, none, some, ltb,
  leb, nat_eq, length, if◌then◌else◌,
}
use sni_router.Prelude.Equality.{nat_Key, bytes_Key, pair_Key}
use sni_router.Prelude.Maps
use sni_router.Prelude.Maps.{Map}
use sni_router.Prelude.Sets
use sni_router.Prelude.Sets.{filter, any}
use sni_router.Prelude.Outcomes.{Bytes}
use sni_router.CidRoutes
use sni_router.CidRoutes.{CidRoutes}
use sni_router.Net.{SocketAddr, normalize_socket_addr, addr_eq}
use sni_router.Net.Laws.{addr_Key}
use sni_router.Pending.{PendingConnection}
use sni_router.Routing.Http3.{Route, Backend, null, udp}
use sni_router.Router.{
  Library, World, Connection, Router, LbConfig, Reason, expired, dropped, cid_limit_hit,
  null_backend, cid_collision, cid_limit, path_limit, expired_path, connect_failed,
}
use sni_router.Router.Action.{Action, ◌>>=◌, ◌>>◌, panicked, pure, fail, modify, emit, from_option}
use sni_router.Router.Forward.{with_conn, add_cid_route, send}

-- `config.servers.values().any(|backend| *backend == addr)`
abbrev pub serves : {Cipher : Type 0} → SocketAddr → LbConfig Cipher → Bool
serves addr lb = any (λ server. addr_eq server.1 addr) lb.servers

-- `get(cid)` finds an owner that is another connection.
abbrev pub owned_by_other : ℕ → Option ℕ → Bool
owned_by_other conn_id none = false
owned_by_other conn_id (some owner) = not (nat_eq owner conn_id)

abbrev pub is_empty : Bytes → Bool
is_empty [] = true
is_empty (_ ∷ _) = false

-- The connection IDs that a pending connection claims: its first one, and those of its client.
unfoldable pub claimed_cids : PendingConnection → List Bytes
claimed_cids p = p.initial_dcid ∷ p.client_cids

-- `filter(|cid| !cid.is_empty()).cloned().collect()`
unfoldable pub requested_cids : PendingConnection → List Bytes
unfolding claimed_cids
requested_cids p = Sets.insert_each (filter (λ cid. not (is_empty cid)) (claimed_cids p)) []

-- `route.timeout.map(|timeout| now + timeout)`
abbrev pub deadline_of : ℕ → Option ℕ → Option ℕ
deadline_of now none = none
deadline_of now (some timeout) = some (now + timeout)

-- `conn.deadline.map_or(deadline, |old| old.min(deadline))`
abbrev pub sooner : Option ℕ → Option ℕ → Option ℕ
sooner old none = old
sooner none (some deadline) = some deadline
sooner (some old) (some deadline) = some (min old deadline)

abbrev pub ids_of : Option (List ℕ) → List ℕ
ids_of none = []
ids_of (some ids) = ids

-- Each connection ID goes to the index, whatever it answers.
unfoldable pub route_all : List Bytes → ℕ → CidRoutes → CidRoutes
route_all [] conn_id routes = routes
route_all (cid ∷ cids) conn_id routes =
    route_all cids conn_id (CidRoutes.insert routes cid conn_id).0

module _ {lib : Library} where
  unfoldable pub add_cids : ℕ → List Bytes → Router lib → Router lib
  add_cids id [] r = r
  add_cids id (cid ∷ cids) r = add_cids id cids (add_cid_route id cid r)

  -- The new connection in all of the router's maps.
  unfoldable pub register :
      ℕ → Connection lib.Text → Bool → SocketAddr × SocketAddr → Router lib → Router lib
  unfolding route_all
  register id conn lb_path path_key r = record r {
    connections = Maps.put id conn r.connections;
    cid_routes = route_all conn.cids id r.cid_routes;
    lb_paths = (if lb_path then Maps.put path_key id r.lb_paths else r.lb_paths);
    client_routes =
        Maps.put path_key.0 (Sets.insert id (ids_of (Maps.get path_key.0 r.client_routes)))
          r.client_routes;
  }

  module _ (w : World) where
    unfoldable pub flush : ℕ → List Bytes → Action lib (Unit {0})
    flush id [] = pure tt
    flush id (datagram ∷ datagrams) = do send w id datagram; flush id datagrams

    drop_all : Reason → PendingConnection → Action lib (Unit {0})
    drop_all reason p = emit (dropped reason (length p.datagrams))

    -- The existing path of the client to the server.
    reuse_path :
        ℕ → PendingConnection → Route lib.Text → Connection lib.Text → Action lib (Unit {0})
    reuse_path id p route conn r =
        (if expired conn w.now r.idle_timeout then drop_all expired_path p else do
          let conn1 = record conn {
            deadline = sooner conn.deadline (deadline_of w.now route.timeout);
          }
          modify (with_conn id conn1)
          flush id p.datagrams
          modify (with_conn id (record conn1 { last_seen = w.now }))
          modify (add_cids id (claimed_cids p)))
          r

    -- A new path, with a socket of its own.
    open_path :
        PendingConnection
        → Route lib.Text
        → Bool
        → SocketAddr × SocketAddr
        → SocketAddr
        → Action lib (Unit {0})
    open_path p route lb_path path_key addr r =
        let id = r.next_connection_id in
        (do
          modify (λ s. record s { next_connection_id = id + 1 })
          (if w.connects addr then pure tt else fail connect_failed)
          modify (
              register id
                (record {
                  backend_addr = addr;
                  client_addr = p.client_addr;
                  initial_key_dcid = p.initial_dcid;
                  cids = requested_cids p;
                  created = w.now;
                  last_seen = w.now;
                  deadline = deadline_of w.now route.timeout;
                  sni = route.sni;
                })
                lb_path path_key)
          flush id p.datagrams)
          r

    over_limit : PendingConnection → Action lib (Unit {0})
    over_limit p = do emit cid_limit_hit; drop_all cid_limit p

    -- `self.connections[&id]` panics where the index is stale.
    join_path :
        ℕ
        → PendingConnection
        → Route lib.Text
        → Option (Connection lib.Text)
        → Action lib (Unit {0})
    join_path id p route none r = panicked
    join_path id p route (some conn) r =
        let additional =
          length (filter (λ cid. not (Sets.member cid conn.cids)) (requested_cids p)) in
        (if ltb r.limits.max_cids_per_path (length conn.cids + additional)
            then over_limit p
            else reuse_path id p route conn)
          r

    new_path :
        PendingConnection
        → Route lib.Text
        → Bool
        → SocketAddr × SocketAddr
        → SocketAddr
        → Action lib (Unit {0})
    new_path p route lb_path path_key addr r =
        (if ltb r.limits.max_cids_per_path (length (requested_cids p))
            then over_limit p
            else if leb r.limits.max_paths (length r.connections)
            then drop_all path_limit p
            else open_path p route lb_path path_key addr)
          r

    join_or_open :
        PendingConnection
        → Route lib.Text
        → Bool
        → SocketAddr × SocketAddr
        → SocketAddr
        → Option ℕ
        → Action lib (Unit {0})
    join_or_open p route lb_path path_key addr none r =
        (if any (λ cid. owned_by_other r.next_connection_id (CidRoutes.get r.cid_routes cid))
              (claimed_cids p)
            then drop_all cid_collision p
            else new_path p route lb_path path_key addr)
          r
    join_or_open p route lb_path path_key addr (some id) r =
        (if any (λ cid. owned_by_other id (CidRoutes.get r.cid_routes cid)) (claimed_cids p)
            then drop_all cid_collision p
            else join_path id p route (Maps.get id r.connections))
          r

    establish_to : PendingConnection → Route lib.Text → SocketAddr → Action lib (Unit {0})
    establish_to p route addr r =
        let path_key : SocketAddr × SocketAddr =
          (normalize_socket_addr p.client_addr, normalize_socket_addr addr) in
        let lb_path = any (serves path_key.1) r.config.quic_lb in
        join_or_open p route lb_path path_key (if lb_path then path_key.1 else addr)
          (if lb_path then Maps.get path_key r.lb_paths else none) r

    abbrev to_backend_of : PendingConnection → Route lib.Text → Backend → Action lib (Unit {0})
    to_backend_of p route null = drop_all null_backend p
    to_backend_of p route (udp addr) = establish_to p route addr

    unfoldable pub establish_and_flush : PendingConnection → Route lib.Text → Action lib (Unit {0})
    unfolding drop_all reuse_path open_path over_limit join_path new_path join_or_open establish_to
    establish_and_flush p route = to_backend_of p route route.backend
