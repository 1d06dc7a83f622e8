-- ===== src/Router/Client/Safety.antt =====
-- A datagram of a client keeps the router's invariant, whatever its bytes.
use sni_router.Prelude.{ℕ, inl, inr, [], ◌∷◌, Option, none, some, Bool-cases, Option-cases, arith}
use sni_router.Prelude.Equality.{nat_Key, bytes_Key, pair_Key}
use sni_router.Prelude.Maps
use sni_router.Prelude.Maps.{is_some, get-put, length-put_present}
use sni_router.Prelude.Outcomes.{Bytes, Post, Post-bind, returns}
use sni_router.Net.{SocketAddr, normalize_socket_addr, socket_addrs_equal}
use sni_router.Net.Laws.{addr_Key}
use sni_router.Pending.Limits.{push_datagram-Post}
use sni_router.Quic.Decrypt.Safety.{IsRing}
use sni_router.Quic.LongHeader.{LongPacketCids}
use sni_router.Quic.LongHeader.Safety.{parse_long_packet_cids-Post}
use sni_router.Router.{Library, World, Router, expired}
use sni_router.Router.Action.{Ends, is_done, is_failed, Anything, Ends-attempt}
use sni_router.Router.Client.Admission.{handle_unrouted_client_datagram-Ends}
use sni_router.Router.Client.Handshake.{empty-IsSound}
use sni_router.Router.Client.{
  lb_cid, lb_backend_of, open_lb_path, on_lb_path, to_lb_server, on_routed, by_connection_id,
  dispatch, handle_datagram,
}
use sni_router.Router.Establish.Safety.{establish_and_flush-Ends}
use sni_router.Router.Invariant.{Inv}
use sni_router.Router.Invariant.Forward.{forward_established_client_datagram-Ends}
use sni_router.Router.Lookup.{packet_connection_id}

module _ {lib : Library} where
  -- The short of `packet_connection_id`: it returns, or the packet is malformed.
  packet_connection_id-Post :
      (r : Router lib) (packet : Bytes) → Post (λ _. Unit {0}) (packet_connection_id r packet)
  unfolding packet_connection_id
  packet_connection_id-Post r packet =
      Post-bind _ _ (parse_long_packet_cids-Post packet) λ long _. returns tt

  module _ (w : World) where
    open_lb_path-Ends :
        (peer : SocketAddr) (packet : Bytes) (addr : SocketAddr) (r : Router lib)
        → Inv r
        → Ends Inv Anything (open_lb_path w peer packet addr r)
    unfolding open_lb_path
    open_lb_path-Ends peer packet addr r i =
        Ends-attempt _ _ _ r (push_datagram-Post _ packet (empty-IsSound peer [] w.now).0)
          (λ p _. establish_and_flush-Ends w p _ r i) λ _. is_failed i

    to_lb_server-Ends :
        (peer : SocketAddr) (packet : Bytes) (addr : SocketAddr) (r : Router lib)
        → Inv r
        → Ends Inv Anything (to_lb_server w peer packet addr r)
    unfolding to_lb_server on_lb_path
    to_lb_server-Ends peer packet addr r i =
        let path_key : SocketAddr × SocketAddr = (normalize_socket_addr peer, addr) in
        elim (Option-cases (Maps.get path_key r.lb_paths)) [
          | inl e ↦ rw e (open_lb_path-Ends peer packet addr r i)
          | inr (id, e) ↦ rw e (elim (Option-cases (Maps.get id r.connections)) [
            | inl f ↦ absurd (ground (arith, f, i.1.leads path_key id e))
            | inr (conn, f) ↦ rw f (elim (Bool-cases (expired conn w.now r.idle_timeout)) [
              | inl g ↦ rw g (is_done i tt)
              | inr g ↦ rw g (forward_established_client_datagram-Ends w id peer packet none r i)
            ])
          ])
        ]

    by_connection_id-Ends :
        IsRing lib.ring
        → (peer : SocketAddr) (packet : Bytes) (long : Option LongPacketCids) (found : Option ℕ)
          (r : Router lib)
        → Inv r
        → Ends Inv Anything (by_connection_id w peer packet (long, found) r)
    unfolding by_connection_id on_routed
    by_connection_id-Ends good peer packet long none r i =
        handle_unrouted_client_datagram-Ends w good peer packet long r i
    by_connection_id-Ends good peer packet long (some id) r i =
        elim (Option-cases (Maps.get id r.connections)) [
          | inl e ↦ rw e (is_done i tt)
          | inr (conn, e) ↦ rw e (elim (Bool-cases (socket_addrs_equal peer conn.client_addr)) [
            | inl f ↦ rw f (forward_established_client_datagram-Ends w id peer packet long r i)
            | inr f ↦ rw f (is_done i tt)
          ])
        ]

    dispatch-Ends :
        IsRing lib.ring
        → (peer : SocketAddr) (packet : Bytes) (long : Option LongPacketCids) (found : Option ℕ)
          (r : Router lib)
        → Inv r
        → Ends Inv Anything (dispatch w peer packet (long, found) r)
    unfolding dispatch
    dispatch-Ends good peer packet long found r i =
        elim (Option-cases (lb_backend_of r (lb_cid packet long))) [
          | inl e ↦ rw e (by_connection_id-Ends good peer packet long found r i)
          | inr (addr, e) ↦ rw e (to_lb_server-Ends peer packet addr r i)
        ]

    -- Any datagram from any client leaves the invariant, and does not panic.
    pub handle_datagram-Ends :
        IsRing lib.ring
        → (peer : SocketAddr) (packet : Bytes) (r : Router lib) → Inv r
        → Ends Inv Anything (handle_datagram w peer packet r)
    unfolding handle_datagram
    handle_datagram-Ends good peer [] r i = is_done i tt
    handle_datagram-Ends good peer (first ∷ packet) r i =
        Ends-attempt _ _ _ r (packet_connection_id-Post r (first ∷ packet))
          (λ (long, found) _. dispatch-Ends good peer (first ∷ packet) long found r i)
          λ _. is_done i tt
