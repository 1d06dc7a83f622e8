-- ===== src/Router/Forward.antt =====
-- The forwarding of a client's datagram on a path: `forward_established_client_datagram`, `forward_by_peer_affinity` and
-- `add_cid_route` of src/bin/sni-router-h3.rs.
use sni_router.Prelude.{ℕ, Bool, [], ◌∷◌, ◌++◌, Option, none, some, leb, length, if◌then◌else◌}
use sni_router.Prelude.Equality.{nat_Key, bytes_Key}
use sni_router.Prelude.Maps
use sni_router.Prelude.Maps.{is_some}
use sni_router.Prelude.Sets
use sni_router.Prelude.Outcomes.{Bytes}
use sni_router.CidRoutes
use sni_router.Net.{SocketAddr}
use sni_router.Quic.LongHeader.{LongPacketCids}
use sni_router.Quic.Decrypt.{decrypt_initial_packet_with_dcid}
use sni_router.Router.{
  Library, World, Connection, Router, expired, to_backend, dropped, cid_limit_hit, expired_path,
  no_unique_peer, invalid_initial, send_failed,
}
use sni_router.Router.Action.{Action, ◌>>◌, pure, fail, abort, modify, emit, attempt, from_option}
use sni_router.Router.Lookup.{lb_backend, peer_connection_id}

module _ {lib : Library} where
  -- The router with another connection under `id`.
  abbrev pub with_conn : ℕ → Connection lib.Text → Router lib → Router lib
  with_conn id conn r = record r { connections = Maps.put id conn r.connections }

  -- `cid_routes.insert` first, which may refuse, and then the set of the connection.
  abbrev pub claim_cid : ℕ → Bytes → Connection lib.Text → Router lib → Router lib
  claim_cid id cid conn r =
      let (routes, owned) = CidRoutes.insert r.cid_routes cid id in
      if owned
      then with_conn id (record conn { cids = conn.cids ++ cid ∷ [] })
          (record r { cid_routes = routes })
      else record r { cid_routes = routes }

  abbrev pub add_cid : ℕ → Bytes → Option (Connection lib.Text) → Router lib → Router lib
  add_cid id cid none r = r
  add_cid id cid (some conn) r =
      if Sets.member cid conn.cids
      then r
      else if leb r.limits.max_cids_per_path (length conn.cids)
      then record r { log = r.log ++ cid_limit_hit ∷ [] }
      else claim_cid id cid conn r

  unfoldable pub add_cid_route : ℕ → Bytes → Router lib → Router lib
  add_cid_route id [] r = r
  add_cid_route id (b ∷ cid) r =
      if is_some (lb_backend r (b ∷ cid))
      then r
      else add_cid id (b ∷ cid) (Maps.get id r.connections) r

  -- `long.and_then(|long| (!long.scid.is_empty()).then_some(long.scid))`, added.
  abbrev pub add_scid : ℕ → Option LongPacketCids → Router lib → Router lib
  add_scid id none r = r
  add_scid id (some long) r = add_cid_route id long.scid r

  module _ (w : World) where
    -- `send_or_queue` of the path's socket.
    unfoldable pub send : ℕ → Bytes → Action lib (Unit {0})
    send id packet = if w.takes id packet then emit (to_backend id packet) else fail send_failed

    abbrev pub forward_on :
        ℕ → SocketAddr → Bytes → Option LongPacketCids → Connection lib.Text → Action lib (Unit {0})
    forward_on id peer packet long conn = do
      modify (with_conn id (record conn { client_addr = peer; last_seen = w.now }))
      send id packet
      modify (add_scid id long)

    abbrev pub forward_if_live :
        ℕ → SocketAddr → Bytes → Option LongPacketCids → Connection lib.Text → Action lib (Unit {0})
    forward_if_live id peer packet long conn r =
        (if expired conn w.now r.idle_timeout
            then emit (dropped expired_path 1)
            else forward_on id peer packet long conn)
          r

    unfoldable pub forward_established_client_datagram :
        ℕ → SocketAddr → Bytes → Option LongPacketCids → Action lib (Unit {0})
    unfolding send
    forward_established_client_datagram id peer packet long r =
        from_option (Maps.get id r.connections) (pure tt) (forward_if_live id peer packet long) r

    -- `self.connections.get(&id).expect("live peer connection")`
    abbrev pub validated :
        ℕ → Bytes → Action lib (Unit {0}) → Option (Connection lib.Text) → Action lib (Unit {0})
    validated id packet forward none = abort
    validated id packet forward (some conn) =
        attempt (decrypt_initial_packet_with_dcid lib.ring packet (some conn.initial_key_dcid))
          (λ decrypted. forward) (λ e. emit (dropped invalid_initial 1))

    unfoldable pub forward_by_peer_affinity :
        SocketAddr → Bytes → Option LongPacketCids → Bool → Action lib (Unit {0})
    forward_by_peer_affinity peer packet long validate_initial r =
        from_option (peer_connection_id r peer w.now) (emit (dropped no_unique_peer 1))
          (λ id.
            let forward = forward_established_client_datagram id peer packet long in
            if validate_initial
            then validated id packet forward (Maps.get id r.connections)
            else forward)
          r
