-- ===== src/Router/Establish/Safety.antt =====
-- The opening of a path, and the joining of one, keep the router's invariant.
use sni_router.Prelude.{
  ℕ, ◌+◌, ◌≡◌, refl, not, inl, inr, Bool, true, false, List, [], ◌∷◌, Option, none, some,
  Bool-cases, Option-cases, ltb, leb, nat_eq_iff, length, tests, arith,
}
use sni_router.Prelude.Equality.{nat_Key, bytes_Key, pair_Key}
use sni_router.Prelude.Maps
use sni_router.Prelude.Maps.{is_some, get-put, length-put_le}
use sni_router.Prelude.Sets
use sni_router.Prelude.Sets.{filter, any}
use sni_router.Prelude.Outcomes.{Bytes}
use sni_router.CidRoutes
use sni_router.Net.{SocketAddr, normalize_socket_addr}
use sni_router.Net.Laws.{addr_Key}
use sni_router.Pending.{PendingConnection}
use sni_router.Routing.Http3.{Route, Backend, null, udp}
use sni_router.Router.{Library, World, Connection, Router, expired}
use sni_router.Router.Action.{resume, Ends, is_done, is_failed, Anything, Ends-bind, Ends-weaken}
use sni_router.Router.Establish.{
  serves, owned_by_other, claimed_cids, requested_cids, route_all, add_cids, register, sooner,
  deadline_of, flush, drop_all, reuse_path, open_path, over_limit, join_path, new_path,
  join_or_open, establish_to, to_backend_of, establish_and_flush,
}
use sni_router.Router.Forward.{send}
use sni_router.Router.Invariant.{Inv}
use sni_router.Router.Invariant.Forward.{add_cid_route-Inv, with_conn-Inv}
use sni_router.Router.Invariant.Index.{put-Paths, lead-Paths, next-Paths}
use sni_router.Router.Invariant.Routed.{route_all-get, requested_cids-free}

module _ {lib : Library} where
  add_cids-Inv : (id : ℕ) (cids : List Bytes) (r : Router lib) → Inv r → Inv (add_cids id cids r)
  unfolding add_cids
  add_cids-Inv id [] r i = i
  add_cids-Inv id (cid ∷ cids) r i = add_cids-Inv id cids _ (add_cid_route-Inv id cid r i)

  module _ (w : World) where
    -- A flush leaves the connections as they are.
    flush-Ends :
        (id : ℕ) (datagrams : List Bytes) (r : Router lib)
        → Inv r
        → Ends Inv (λ _ s. s.connections ≡ r.connections) (flush w id datagrams r)
    unfolding flush send resume
    flush-Ends id [] r i = is_done i refl
    flush-Ends id (d ∷ ds) r i = elim (Bool-cases (w.takes id d)) [
      | inl e ↦ rw e (flush-Ends id ds _ i)
      | inr e ↦ rw e (is_failed i)
    ]

    reuse_path-Ends :
        (id : ℕ) (p : PendingConnection) (route : Route lib.Text) (conn : Connection lib.Text)
        (r : Router lib)
        → Maps.get id r.connections ≡ some conn
        → Inv r
        → Ends Inv Anything (reuse_path w id p route conn r)
    unfolding reuse_path drop_all resume
    reuse_path-Ends id p route conn r e i = elim (Bool-cases (expired conn w.now r.idle_timeout)) [
      | inl f ↦ rw f (is_done i tt)
      | inr f ↦
          let conn1 : Connection lib.Text = record conn {
            deadline = sooner conn.deadline (deadline_of w.now route.timeout);
          } in
          rw f (
            Ends-bind _ _ (flush-Ends id p.datagrams _ (with_conn-Inv id conn conn1 r e refl i))
              λ _ s j same.
                is_done
                  (add_cids-Inv id (claimed_cids p) _ (
                    with_conn-Inv id conn1 _ s
                      (rw (same, get-put id id conn1 r.connections, (nat_eq_iff id id).1 refl) refl)
                      refl j))
                  tt)
    ]

    join_path-Ends :
        (id : ℕ) (p : PendingConnection) (route : Route lib.Text) (conn : Connection lib.Text)
        (r : Router lib)
        → Maps.get id r.connections ≡ some conn
        → Inv r
        → Ends Inv Anything (join_path w id p route (some conn) r)
    unfolding join_path over_limit drop_all resume
    join_path-Ends id p route conn r e i =
        elim (Bool-cases (
          ltb r.limits.max_cids_per_path (
            length conn.cids
            + length (filter (λ cid. not (Sets.member cid conn.cids)) (requested_cids p))))) [
              | inl f ↦ rw f (is_done i tt)
              | inr f ↦ rw f (reuse_path-Ends id p route conn r e i)
            ]

    registered :
        (p : PendingConnection) (conn : Connection lib.Text) (lb_path : Bool)
        (path_key : SocketAddr × SocketAddr) (r : Router lib)
        → any
            (λ cid. owned_by_other r.next_connection_id (CidRoutes.get r.cid_routes cid))
            (claimed_cids p)
          ≡ false
        → ltb r.limits.max_cids_per_path (length (requested_cids p)) ≡ false
        → leb r.limits.max_paths (length r.connections) ≡ false
        → conn.cids ≡ requested_cids p
        → Inv r
        → Inv (
            register r.next_connection_id conn lb_path path_key
              (record r { next_connection_id = r.next_connection_id + 1 }))
    unfolding register
    registered p conn lb_path path_key r free few room same (b, i) =
        let id = r.next_connection_id in
        let (v, routed) =
          route_all-get conn.cids id r.cid_routes
            (rw same (requested_cids-free p id r.cid_routes free)) i.valid in
        let paths =
          put-Paths i (id + 1) id conn (route_all conn.cids id r.cid_routes) (omega arith)
            (omega arith) (omega (tests, length-put_le id conn r.connections))
            (record {
              valid = v;
              few = rw same (omega tests);
              routed = routed;
              free = λ c. rw same (λ m. (requested_cids-free p id r.cid_routes free c m).1);
              grows = λ c. rw (i.fresh id (omega arith)) (λ m. absurd (ground (arith, m)));
            }) in
        (
          b,
          elim (Bool-cases lb_path) [
            | inl e ↦ rw e (
                lead-Paths paths path_key id
                  (rw (get-put id id conn r.connections, (nat_eq_iff id id).1 refl) refl))
            | inr e ↦ rw e paths
          ],
        )

    open_path-Ends :
        (p : PendingConnection) (route : Route lib.Text) (lb_path : Bool)
        (path_key : SocketAddr × SocketAddr) (addr : SocketAddr) (r : Router lib)
        → any
            (λ cid. owned_by_other r.next_connection_id (CidRoutes.get r.cid_routes cid))
            (claimed_cids p)
          ≡ false
        → ltb r.limits.max_cids_per_path (length (requested_cids p)) ≡ false
        → leb r.limits.max_paths (length r.connections) ≡ false
        → Inv r
        → Ends Inv Anything (open_path w p route lb_path path_key addr r)
    unfolding open_path resume
    open_path-Ends p route lb_path path_key addr r free few room (b, i) =
        elim (Bool-cases (w.connects addr)) [
          | inl e ↦ rw e (
              Ends-weaken
                (flush-Ends r.next_connection_id p.datagrams _
                  (registered p _ lb_path path_key r free few room refl (b, i)))
                λ _ _ _. tt)
          | inr e ↦ rw e (is_failed (b, next-Paths i))
        ]

    new_path-Ends :
        (p : PendingConnection) (route : Route lib.Text) (lb_path : Bool)
        (path_key : SocketAddr × SocketAddr) (addr : SocketAddr) (r : Router lib)
        → any
            (λ cid. owned_by_other r.next_connection_id (CidRoutes.get r.cid_routes cid))
            (claimed_cids p)
          ≡ false
        → Inv r
        → Ends Inv Anything (new_path w p route lb_path path_key addr r)
    unfolding new_path over_limit drop_all resume
    new_path-Ends p route lb_path path_key addr r free i =
        elim (Bool-cases (ltb r.limits.max_cids_per_path (length (requested_cids p)))) [
          | inl e ↦ rw e (is_done i tt)
          | inr e ↦ rw e (elim (Bool-cases (leb r.limits.max_paths (length r.connections))) [
            | inl f ↦ rw f (is_done i tt)
            | inr f ↦ rw f (open_path-Ends p route lb_path path_key addr r free e f i)
          ])
        ]

    -- `found` is what `lb_paths` has for the path, if it was asked.
    join_or_open-Ends :
        (p : PendingConnection) (route : Route lib.Text) (lb_path : Bool)
        (path_key : SocketAddr × SocketAddr) (addr : SocketAddr) (found : Option ℕ) (r : Router lib)
        → ((id : ℕ) → found ≡ some id → Maps.get path_key r.lb_paths ≡ some id)
        → Inv r
        → Ends Inv Anything (join_or_open w p route lb_path path_key addr found r)
    unfolding join_or_open drop_all
    join_or_open-Ends p route lb_path path_key addr none r known i =
        elim (Bool-cases (
          any (λ cid. owned_by_other r.next_connection_id (CidRoutes.get r.cid_routes cid))
            (claimed_cids p))) [
              | inl e ↦ rw e (is_done i tt)
              | inr e ↦ rw e (new_path-Ends p route lb_path path_key addr r e i)
            ]
    join_or_open-Ends p route lb_path path_key addr (some id) r known i =
        elim (Bool-cases
          (any (λ cid. owned_by_other id (CidRoutes.get r.cid_routes cid)) (claimed_cids p))) [
            | inl e ↦ rw e (is_done i tt)
            | inr e ↦ rw e (elim (Option-cases (Maps.get id r.connections)) [
              | inl f ↦ absurd (ground (arith, f, i.1.leads path_key id (known id refl)))
              | inr (conn, f) ↦ rw f (join_path-Ends id p route conn r f i)
            ])
          ]

    to_backend_of-Ends :
        (p : PendingConnection) (route : Route lib.Text) (backend : Backend) (r : Router lib)
        → Inv r
        → Ends Inv Anything (to_backend_of w p route backend r)
    unfolding establish_to drop_all
    to_backend_of-Ends p route null r i = is_done i tt
    to_backend_of-Ends p route (udp addr) r i =
        let path_key : SocketAddr × SocketAddr =
          (normalize_socket_addr p.client_addr, normalize_socket_addr addr) in
        elim (Bool-cases (any (serves path_key.1) r.config.quic_lb)) [
          | inl e ↦ rw e (
              join_or_open-Ends p route true path_key path_key.1 (Maps.get path_key r.lb_paths) r
                (λ id g. g) i)
          | inr e ↦ rw e (
              join_or_open-Ends p route false path_key addr none r
                (λ id g. absurd (ground (arith, g))) i)
        ]

    -- The establishment of a path for any pending connection and route leaves the invariant, and does not panic: a path
    -- of `lb_paths` leads to a connection.
    pub establish_and_flush-Ends :
        (p : PendingConnection) (route : Route lib.Text) (r : Router lib)
        → Inv r
        → Ends Inv Anything (establish_and_flush w p route r)
    unfolding establish_and_flush
    establish_and_flush-Ends p route r i = to_backend_of-Ends p route route.backend r i
