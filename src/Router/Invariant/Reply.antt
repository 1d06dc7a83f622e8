-- ===== src/Router/Invariant/Reply.antt =====
-- A datagram of a backend keeps the router's invariant.
use sni_router.Prelude.{ℕ, refl, inl, inr, Option, Bool-cases, Option-cases}
use sni_router.Prelude.Equality.{nat_Key}
use sni_router.Prelude.Maps
use sni_router.Prelude.Outcomes.{Bytes, Post, returns, fails}
use sni_router.Net.{SocketAddr, send_addr_for_socket}
use sni_router.Net.{v4, v6, to_ipv4_mapped}
use sni_router.Quic.LongHeader.{LongPacketCids}
use sni_router.Quic.LongHeader.Safety.{parse_long_packet_cids-Post}
use sni_router.Router.{Library, World, Router, expired}
use sni_router.Router.Action.{resume, Ends, is_done, is_failed, Anything, Ends-attempt}
use sni_router.Router.Reply.{
  send_to_client, forward_established_backend_datagram, handle_backend_datagram,
}
use sni_router.Router.Invariant.{Inv}
use sni_router.Router.Invariant.Forward.{with_conn-Inv, add_scid-Inv}

send_addr_for_socket-Post :
    (local addr : SocketAddr) → Post (λ _. Unit {0}) (send_addr_for_socket local addr)
unfolding send_addr_for_socket
send_addr_for_socket-Post (v6 _ _ _ _) (v4 ip port) = returns tt
send_addr_for_socket-Post (v4 _ _) (v6 ip port flow scope) =
    elim (Option-cases (to_ipv4_mapped ip)) [ inl e ↦ rw e fails | inr (m, e) ↦ rw e (returns tt) ]
send_addr_for_socket-Post (v4 _ _) (v4 ip port) = returns tt
send_addr_for_socket-Post (v6 _ _ _ _) (v6 ip port flow scope) = returns tt

module _ {lib : Library} (w : World) where
  send_to_client-Ends :
      (packet : Bytes) (addr : SocketAddr) (r : Router lib)
      → Inv r
      → Ends Inv Anything (send_to_client w packet addr r)
  unfolding send_to_client
  send_to_client-Ends packet addr r i =
      Ends-attempt _ _ _ r (send_addr_for_socket-Post w.listener addr)
        (λ to _. elim (Bool-cases (w.listener_takes packet)) [
          | inl e ↦ rw e (is_done i tt)
          | inr e ↦ rw e (is_failed i)
        ])
        λ e. is_failed i

  forward_established_backend_datagram-Ends :
      (id : ℕ) (packet : Bytes) (long : Option LongPacketCids) (r : Router lib)
      → Inv r
      → Ends Inv Anything (forward_established_backend_datagram w id packet long r)
  unfolding forward_established_backend_datagram resume
  forward_established_backend_datagram-Ends id packet long r i =
      elim (Option-cases (Maps.get id r.connections)) [
        | inl e ↦ rw e (is_done i tt)
        | inr (conn, e) ↦ rw e (elim (Bool-cases (expired conn w.now r.idle_timeout)) [
          | inl f ↦ rw f (is_done i tt)
          | inr f ↦ rw f (
              send_to_client-Ends packet conn.client_addr _
                (add_scid-Inv id long _ (with_conn-Inv id conn _ r e refl i)))
        ])
      ]

  -- Any datagram from a backend leaves the invariant, and does not panic.
  pub handle_backend_datagram-Ends :
      (id : ℕ) (packet : Bytes) (r : Router lib)
      → Inv r
      → Ends Inv Anything (handle_backend_datagram w id packet r)
  unfolding handle_backend_datagram
  handle_backend_datagram-Ends id packet r i =
      Ends-attempt _ _ _ r (parse_long_packet_cids-Post packet)
        (λ long _. forward_established_backend_datagram-Ends id packet long r i) λ e. is_done i tt
