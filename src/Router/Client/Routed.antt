-- ===== src/Router/Client/Routed.antt =====
-- A datagram with a connection ID that a path holds: what becomes of it, and what it changes.
use mathlib.Core.List.{append-nil}
use sni_router.Prelude.{
  ℕ, ◌≡◌, refl, sym, ◌∙◌, inl, inr, true, false, [], ◌∷◌, ◌++◌, Option, none, some, Bool-cases,
}
use sni_router.Prelude.Equality.{nat_Key}
use sni_router.Prelude.Maps
use sni_router.Prelude.Outcomes.{Bytes, ok}
use sni_router.Net.{SocketAddr, socket_addrs_equal}
use sni_router.Quic.LongHeader.{LongPacketCids}
use sni_router.Router.{
  Library, World, Connection, Router, dropped, to_backend, unexpected_peer, expired_path, expired,
  send_failed,
}
use sni_router.Router.Action.{Ending, done, failed, resume, attempt}
use sni_router.Router.Client.{
  lb_cid, lb_backend_of, dispatch, by_connection_id, on_routed, handle_datagram,
}
use sni_router.Router.Client.Entering.{
  scid_of, enters, hits_limit, Entered, path_put, others_put, add_scid-Entered,
}
use sni_router.Router.Forward.{with_conn, add_scid, send, forward_established_client_datagram}
use sni_router.Router.Lookup.{lb_backend, packet_connection_id}

module _ {lib : Library} (w : World) (peer : SocketAddr) (packet : Bytes)
    (long : Option LongPacketCids) (id : ℕ) (conn : Connection lib.Text) (r : Router lib) where
  -- The path with the time and the address of its client's last datagram.
  abbrev pub seen : Connection lib.Text
  seen = record conn { client_addr = peer; last_seen = w.now }

  -- What becomes of the datagram, and of the router.
  pub data Treated : Ending (Router lib) (Unit {0}) → Type 0 where
    of_another :
        {r' : Router lib}
        → socket_addrs_equal peer conn.client_addr ≡ false
        → r' ≡ record r { log = r.log ++ dropped unexpected_peer 1 ∷ [] }
        → Treated (done tt r')
    too_late :
        {r' : Router lib}
        → socket_addrs_equal peer conn.client_addr ≡ true
        → expired conn w.now r.idle_timeout ≡ true
        → r' ≡ record r { log = r.log ++ dropped expired_path 1 ∷ [] }
        → Treated (done tt r')
    unsent :
        {r' : Router lib}
        → socket_addrs_equal peer conn.client_addr ≡ true
        → expired conn w.now r.idle_timeout ≡ false
        → w.takes id packet ≡ false
        → Entered r r.log id seen [] false false r'
        → Treated (failed send_failed r')
    sent :
        {r' : Router lib}
        → socket_addrs_equal peer conn.client_addr ≡ true
        → expired conn w.now r.idle_timeout ≡ false
        → w.takes id packet ≡ true
        → Entered r
            (r.log ++ to_backend id packet ∷ [])
            id
            seen
            (scid_of long)
            (enters r id seen (scid_of long))
            (hits_limit r seen (scid_of long))
            r'
        → Treated (done tt r')

  touched-Entered : Entered r r.log id seen [] false false (with_conn id seen r)
  touched-Entered = record {
    path = path_put r id conn seen;
    others = others_put r id conn seen;
    index = λ c. refl;
    is_logged = sym (append-nil r.log);
    waiting = (refl, refl);
    routes = (refl, refl);
  }

  -- The path, touched and with the datagram sent.
  abbrev forwarded : Router lib
  forwarded = record (with_conn id seen r) { log = r.log ++ to_backend id packet ∷ [] }

  sent-Entered :
      Entered r
        (r.log ++ to_backend id packet ∷ [])
        id
        seen
        (scid_of long)
        (enters r id seen (scid_of long))
        (hits_limit r seen (scid_of long))
        (add_scid id long forwarded)
  unfolding lb_backend
  sent-Entered =
      let e = add_scid-Entered forwarded id seen long (path_put r id conn seen) in
      record {
        path = e.path;
        others = λ j other. e.others j other ∙ others_put r id conn seen j other;
        index = e.index;
        is_logged = e.is_logged;
        waiting = e.waiting;
        routes = e.routes;
      }

module _ {lib : Library} where
  -- A datagram whose connection ID belongs to a path, and to no QUIC-LB server, is dropped, with no other change, where
  -- it comes from another address than the path's client or where the path expired. Otherwise it goes to that path, and
  -- to no other, or, where the socket does not take it, the error is returned. The path has then the address and the
  -- time of the datagram; no other path, nothing that is pending, no route by address and no other connection ID than
  -- that of the sender changes. That one is entered for the path just where the datagram was sent, it is not empty, is
  -- not one of QUIC-LB, is neither this path's already nor another's, and the path has fewer than its limit; where only
  -- the limit is in the way, this is logged.
  pub handle_datagram-routed :
      (w : World) (peer : SocketAddr) (first : ℕ) (rest : Bytes) (long : Option LongPacketCids)
      (id : ℕ) (conn : Connection lib.Text) (r : Router lib)
      → packet_connection_id r (first ∷ rest) ≡ ok (long, some id)
      → lb_backend_of r (lb_cid (first ∷ rest) long) ≡ none
      → Maps.get id r.connections ≡ some conn
      → Treated w peer (first ∷ rest) long id conn r (handle_datagram w peer (first ∷ rest) r)
  unfolding handle_datagram dispatch by_connection_id on_routed forward_established_client_datagram
      send resume attempt
  handle_datagram-routed w peer first rest long id conn r found plain e =
      rw (found, plain, e)
        (elim (Bool-cases (socket_addrs_equal peer conn.client_addr)) [
          | inr f ↦ rw f (of_another f refl)
          | inl f ↦
              rw (f, e)
                (elim (Bool-cases (expired conn w.now r.idle_timeout)) [
                  | inl g ↦ rw g (too_late f g refl)
                  | inr g ↦ rw g (elim (Bool-cases (w.takes id (first ∷ rest))) [
                    | inl h ↦ rw h (sent f g h (sent-Entered w peer (first ∷ rest) long id conn r))
                    | inr h ↦
                        rw h (unsent f g h (touched-Entered w peer (first ∷ rest) long id conn r))
                  ])
                ])
        ])
