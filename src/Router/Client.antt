-- ===== src/Router/Client.antt =====
-- A datagram of a client: `handle_datagram` and `handle_unrouted_client_datagram` of src/bin/sni-router-h3.rs.
pub mod Handshake
pub mod Admission
pub mod Entering
pub mod Routed
pub mod Safety
use sni_router.Prelude.{
  ℕ, ◌+◌, ◌*◌, ◌^◌, ◌&&◌, ◌||◌, not, Bool, true, false, List, [], ◌∷◌, ◌++◌, Option, none, some,
  ltb, leb, nat_eq, length, take, drop, if◌then◌else◌,
}
use sni_router.Prelude.Equality.{nat_Key, bytes_Key, pair_Key}
use sni_router.Prelude.Maps
use sni_router.Prelude.Maps.{is_some}
use sni_router.Prelude.Sets
use sni_router.Prelude.Outcomes.{Bytes, Outcome, ok, err, panic, out_of_fuel}
use sni_router.Net.{SocketAddr, normalize_socket_addr, peer_ip_v6, socket_addrs_equal}
use sni_router.Net.Laws.{addr_Key}
use sni_router.Pending
use sni_router.Pending.{PendingConnection, PendingError, push_datagram}
use sni_router.Quic.Decrypt.{DecryptedInitial, decrypt_initial_packet_with_dcid}
use sni_router.Quic.Error.{QuicError}
use sni_router.Quic.Frames.{CryptoFrames, read_crypto_frames}
use sni_router.Quic.InitialHeader.{quic_version_1, quic_packet_type_initial}
use sni_router.Quic.LongHeader.{LongPacketCids}
use sni_router.Quic.Reassembly.{CryptoReassembly, clienthello}
use sni_router.Quic.Reassembly.Stream.{insert_all}
use sni_router.QuicLb.{cid_len}
use sni_router.Routing.{RouteError}
use sni_router.Routing.Http3.{Route, Backend, udp, route_for_sni}
use sni_router.Sni.{HelloError}
use sni_router.Sni.Http3.{extract_tls_sni}
use sni_router.Router.{
  Library, World, Connection, Router, PendingKey, Reason, RouterError, expired, dropped, malformed,
  expired_path, unexpected_peer, unsupported_packet, invalid_frames, pending_handshake_limit,
  pending_bytes_limit, crypto_fragment_limit, invalid_initial, not_routed, not_pending,
}
use sni_router.Router.Action.{
  Action, Ending, done, failed, panicked, ◌>>=◌, ◌>>◌, pure, fail, modify, emit, attempt,
  from_option,
}
use sni_router.Router.Establish.{is_empty, establish_and_flush}
use sni_router.Router.Forward.{forward_established_client_datagram, forward_by_peer_affinity}
use sni_router.Router.Lookup.{lb_backend, packet_connection_id, remove_pending, record_sni}

abbrev pub quic_packet_type_zero_rtt : ℕ
quic_packet_type_zero_rtt = 1

abbrev pub quic_packet_type_handshake : ℕ
quic_packet_type_handshake = 2

-- `packet.get(1..1 + quic_lb::CID_LEN)`
abbrev pub short_cid : Bytes → Option Bytes
short_cid packet =
    if ltb (length packet) (1 + cid_len) then none else some (take cid_len (drop 1 packet))

-- Where the connection ID stands that a QUIC-LB codec may read.
abbrev pub lb_cid : Bytes → Option LongPacketCids → Option Bytes
lb_cid packet none = short_cid packet
lb_cid packet (some long) = some long.dcid

-- `if !decrypted.scid.is_empty() { pending.client_cids.insert(decrypted.scid); }`
abbrev pub add_client_cid : Bytes → PendingConnection → PendingConnection
add_client_cid scid p =
    if is_empty scid then p else record p { client_cids = Sets.insert scid p.client_cids }

abbrev pub pending_or_new : SocketAddr → Bytes → ℕ → Option PendingConnection → PendingConnection
pending_or_new peer dcid now none = Pending.new peer dcid now
pending_or_new peer dcid now (some p) = p

abbrev pub buffered_count : Option PendingConnection → ℕ
buffered_count none = 0
buffered_count (some p) = length p.datagrams

module _ {lib : Library} where
  abbrev pub lb_backend_of : Router lib → Option Bytes → Option SocketAddr
  lb_backend_of r none = none
  lb_backend_of r (some cid) = lb_backend r cid

  module _ (w : World) where
    -- The pending connection goes, and its datagrams with it.
    pub reject : PendingKey → Reason → ℕ → Action lib (Unit {0})
    reject key reason count = do removed ← remove_pending key; emit (dropped reason count)

    -- What follows once the host name is known, or known to be missing.
    route_pending : SocketAddr → PendingKey → Option lib.Text → Action lib (Unit {0})
    route_pending peer key sni = do
      modify (record_sni sni)
      removed ← remove_pending key
      from_option removed (pure tt) (λ p. λ r.
          attempt (route_for_sni lib.is_match lib.contains r.config.routing peer sni)
            (λ route. establish_and_flush w p route) (λ e. fail (not_routed e)) r)

    -- An SNI that cannot be read is none.
    name_and_route : SocketAddr → PendingKey → Bytes → Action lib (Unit {0})
    name_and_route peer key hello =
        attempt (extract_tls_sni lib.from_utf8_lossy hello) (λ sni. route_pending peer key sni)
          (λ e. route_pending peer key none)

    -- The frames go into the reassembly, which may then hold the ClientHello. A reassembly that failed half-way is
    -- dropped with its pending connection.
    pub reassemble :
        SocketAddr → PendingKey → PendingConnection → CryptoFrames → ℕ → Action lib (Unit {0})
    reassemble peer key p frames count =
        attempt (insert_all p.crypto frames)
          (λ crypto. do
            modify
                (λ r. record r { pending = Maps.put key (record p { crypto = crypto }) r.pending })
            attempt (clienthello crypto)
                (λ hello. from_option hello (pure tt) (name_and_route peer key))
                (λ e. reject key invalid_initial count))
          (λ e. reject key crypto_fragment_limit count)

    -- The datagram is buffered first.
    buffer_initial :
        SocketAddr → Bytes → PendingKey → DecryptedInitial → CryptoFrames → Action lib (Unit {0})
    buffer_initial peer packet key initial frames r =
        let count = buffered_count (Maps.get key r.pending) + 1 in
        let p = pending_or_new peer initial.dcid w.now (Maps.get key r.pending) in
        (do
          modify (λ s. record s { pending = Maps.put key p s.pending })
          attempt (push_datagram p packet)
              (λ pushed. do
                let seen = add_client_cid initial.scid (record pushed { last_seen = w.now })
                modify (λ s. record s {
                  pending = Maps.put key seen s.pending;
                  pending_bytes = s.pending_bytes + length packet;
                })
                reassemble peer key seen frames count)
              (λ e. reject key pending_handshake_limit count))
          r

    -- The limits on all pending connections.
    admit_initial : SocketAddr → Bytes → DecryptedInitial → CryptoFrames → Action lib (Unit {0})
    admit_initial peer packet initial frames r =
        let key : PendingKey = (normalize_socket_addr peer, initial.dcid) in
        (if not (is_some (Maps.get key r.pending))
              && leb r.limits.max_pending_handshakes (length r.pending)
            then emit (dropped pending_handshake_limit 1)
            else if leb (2 ^ 64) (r.pending_bytes + length packet)
                || ltb r.limits.max_pending_bytes (r.pending_bytes + length packet)
            then emit (dropped pending_bytes_limit 1)
            else buffer_initial peer packet key initial frames)
          r

    handle_initial : SocketAddr → Bytes → LongPacketCids → Action lib (Unit {0})
    handle_initial peer packet long =
        attempt (decrypt_initial_packet_with_dcid lib.ring packet none)
          (λ initial.
            attempt (read_crypto_frames initial.payload)
              (λ frames. admit_initial peer packet initial frames)
              (λ e. emit (dropped invalid_frames 1)))
          (λ e. forward_by_peer_affinity w peer packet (some long) true)

    unfoldable pub handle_unrouted_client_datagram :
        SocketAddr → Bytes → Option LongPacketCids → Action lib (Unit {0})
    unfolding reject route_pending name_and_route reassemble buffer_initial admit_initial
        handle_initial
    handle_unrouted_client_datagram peer packet none =
        forward_by_peer_affinity w peer packet none false
    handle_unrouted_client_datagram peer packet (some long) =
        if nat_eq long.version quic_version_1
          && (nat_eq long.packet_type quic_packet_type_handshake
              || nat_eq long.packet_type quic_packet_type_zero_rtt)
        then forward_by_peer_affinity w peer packet (some long) false
        else if not (nat_eq long.version quic_version_1)
            || not (nat_eq long.packet_type quic_packet_type_initial)
        then emit (dropped unsupported_packet 1)
        else handle_initial peer packet long

    -- The datagram opens a path to a QUIC-LB server by itself.
    open_lb_path : SocketAddr → Bytes → SocketAddr → Action lib (Unit {0})
    open_lb_path peer packet addr r =
        attempt (push_datagram (Pending.new peer [] w.now) packet)
          (λ p.
            establish_and_flush w p
              (record { backend = udp addr; timeout = r.config.routing.max_lifetime; sni = none }))
          (λ e. fail (not_pending e)) r

    -- `&self.connections[&id]` panics where the index is stale.
    on_lb_path : SocketAddr → Bytes → ℕ → Option (Connection lib.Text) → Action lib (Unit {0})
    on_lb_path peer packet id none r = panicked
    on_lb_path peer packet id (some conn) r =
        (if expired conn w.now r.idle_timeout
            then emit (dropped expired_path 1)
            else forward_established_client_datagram w id peer packet none)
          r

    to_lb_server : SocketAddr → Bytes → SocketAddr → Action lib (Unit {0})
    to_lb_server peer packet addr r =
        let path_key : SocketAddr × SocketAddr = (normalize_socket_addr peer, addr) in
        from_option (Maps.get path_key r.lb_paths) (open_lb_path peer packet addr)
          (λ id. λ s. on_lb_path peer packet id (Maps.get id s.connections) s) r

    -- The connection ID belongs to a path: only the path's own client may use it.
    on_routed :
        SocketAddr → Bytes → Option LongPacketCids → ℕ → Connection lib.Text → Action lib (Unit {0})
    on_routed peer packet long id conn =
        if socket_addrs_equal peer conn.client_addr
        then forward_established_client_datagram w id peer packet long
        else emit (dropped unexpected_peer 1)

    by_connection_id : SocketAddr → Bytes → Option LongPacketCids × Option ℕ → Action lib (Unit {0})
    by_connection_id peer packet (long, none) = handle_unrouted_client_datagram peer packet long
    by_connection_id peer packet (long, some id) =
        λ r. from_option (Maps.get id r.connections) (pure tt) (on_routed peer packet long id) r

    dispatch : SocketAddr → Bytes → Option LongPacketCids × Option ℕ → Action lib (Unit {0})
    dispatch peer packet found r =
        from_option (lb_backend_of r (lb_cid packet found.0)) (by_connection_id peer packet found)
          (to_lb_server peer packet) r

    unfoldable pub handle_datagram : SocketAddr → Bytes → Action lib (Unit {0})
    unfolding open_lb_path on_lb_path to_lb_server on_routed by_connection_id dispatch
    handle_datagram peer [] r = emit (dropped malformed 1) r
    handle_datagram peer (first ∷ packet) r =
        attempt (packet_connection_id r (first ∷ packet)) (dispatch peer (first ∷ packet))
          (λ e. emit (dropped malformed 1)) r
