-- ===== src/Router/Reply.antt =====
-- A datagram of a backend: `handle_backend_datagram` and `forward_established_backend_datagram` of src/bin/sni-router-h3.rs.
use sni_router.Prelude.{ℕ, ◌&&◌, not, Option, none, some, nat_eq, if◌then◌else◌}
use sni_router.Prelude.Equality.{nat_Key}
use sni_router.Prelude.Maps
use sni_router.Prelude.Outcomes.{Bytes}
use sni_router.Net.{SocketAddr, send_addr_for_socket}
use sni_router.Quic.InitialHeader.{quic_version_1}
use sni_router.Quic.LongHeader.{LongPacketCids, parse_long_packet_cids}
use sni_router.Router.{
  Library, World, Connection, expired, to_client, dropped, expired_path, stale_backend,
  malformed_backend, send_failed, address_mismatch,
}
use sni_router.Router.Action.{Action, ◌>>◌, fail, modify, emit, attempt, from_option}
use sni_router.Router.Establish.{is_empty}
use sni_router.Router.Forward.{with_conn, add_scid}

abbrev pub quic_packet_type_retry : ℕ
quic_packet_type_retry = 3

-- A Retry packet's source connection ID gives the keys of the next Initial packet.
abbrev pub retry_key_dcid : Option LongPacketCids → Bytes → Bytes
retry_key_dcid none old = old
retry_key_dcid (some long) old =
    if nat_eq long.version quic_version_1
      && (nat_eq long.packet_type quic_packet_type_retry && not (is_empty long.scid))
    then long.scid
    else old

module _ {lib : Library} (w : World) where
  -- `sockets.send_to_client`
  unfoldable pub send_to_client : Bytes → SocketAddr → Action lib (Unit {0})
  send_to_client packet addr =
      attempt (send_addr_for_socket w.listener addr)
        (λ to. if w.listener_takes packet then emit (to_client to packet) else fail send_failed)
        (λ e. fail address_mismatch)

  abbrev pub reply_if_live :
      ℕ → Bytes → Option LongPacketCids → Connection lib.Text → Action lib (Unit {0})
  reply_if_live id packet long conn r =
      (if expired conn w.now r.idle_timeout then emit (dropped expired_path 1) else do
        modify (
            with_conn id (record conn {
              last_seen = w.now;
              initial_key_dcid = retry_key_dcid long conn.initial_key_dcid;
            }))
        modify (add_scid id long)
        send_to_client packet conn.client_addr)
        r

  unfoldable pub forward_established_backend_datagram :
      ℕ → Bytes → Option LongPacketCids → Action lib (Unit {0})
  unfolding send_to_client
  forward_established_backend_datagram id packet long r =
      from_option (Maps.get id r.connections) (emit (dropped stale_backend 1))
        (reply_if_live id packet long) r

  unfoldable pub handle_backend_datagram : ℕ → Bytes → Action lib (Unit {0})
  handle_backend_datagram id packet =
      attempt (parse_long_packet_cids packet)
        (λ long. forward_established_backend_datagram id packet long)
        (λ e. emit (dropped malformed_backend 1))
