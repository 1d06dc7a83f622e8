-- ===== src/Router/Lookup.antt =====
-- What the QUIC router looks up for a datagram: `lb_backend`, `match_short_header_route`, `packet_connection_id` and
-- `peer_connection_id` of src/bin/sni-router-h3.rs, with `remove_pending` and `record_sni`.
use sni_router.Prelude.{
  ℕ, ◌-◌, ◌/◌, ◌%◌, ◌&&◌, ◌||◌, not, Bool, false, List, [], ◌∷◌, ◌++◌, Option, none, some, ltb, leb,
  nat_eq, length, take, if◌then◌else◌,
}
use sni_router.Prelude.Equality.{nat_Key, bytes_Key, pair_Key}
use sni_router.Prelude.Maps
use sni_router.Prelude.Maps.{Map}
use sni_router.Prelude.Sets
use sni_router.Prelude.Sets.{filter, any}
use sni_router.Prelude.BigEndian.{big_endian}
use sni_router.Prelude.Outcomes.{Bytes, Outcome, ok, ◌>>=◌}
use sni_router.CidRoutes
use sni_router.CidRoutes.{match_prefix}
use sni_router.Net.{SocketAddr, normalize_socket_addr}
use sni_router.Net.Laws.{addr_Key}
use sni_router.Pending.{PendingConnection}
use sni_router.Quic.Error.{QuicError}
use sni_router.Quic.LongHeader.{LongPacketCids, parse_long_packet_cids}
use sni_router.QuicLb
use sni_router.Router.{
  Library, Connection, LbConfig, Router, PendingKey, SniLabel, named, other, unknown, missing,
  sni_seen, expired, max_sni_metric_labels, max_sni_metric_label_bytes,
}
use sni_router.Router.Action

-- `find_map` over the codecs; the server ID is the first four bytes of the block.
unfoldable pub lb_server : (lib : Library) → List (LbConfig lib.Cipher) → Bytes → Option SocketAddr
lb_server lib [] cid = none
lb_server lib (lb ∷ lbs) cid =
    elim (QuicLb.decrypt lib.encrypt_block lib.decrypt_block lb.codec cid) [
      | none ↦ lb_server lib lbs cid
      | some plaintext ↦ elim (Maps.get (big_endian 0 (take 4 plaintext)) lb.servers) [
        | none ↦ lb_server lib lbs cid
        | some addr ↦ some addr
      ]
    ]

abbrev pub is_live : {Text : Type 0} → ℕ → ℕ → Option (Connection Text) → Bool
is_live now idle_timeout none = false
is_live now idle_timeout (some conn) = not (expired conn now idle_timeout)

-- The only one of the paths that is live.
abbrev pub only : List ℕ → Option ℕ
only [] = none
only (id ∷ []) = some id
only (id ∷ _ ∷ _) = none

module _ {lib : Library} where
  unfoldable pub lb_backend : Router lib → Bytes → Option SocketAddr
  unfolding lb_server
  lb_backend r cid = lb_server lib r.config.quic_lb cid

  -- `first & 0x80 != 0`
  unfoldable pub match_short_header_route : Router lib → Bytes → Option ℕ
  match_short_header_route r [] = none
  match_short_header_route r (first ∷ rest) =
      if not (nat_eq (first / 128 % 2) 0) then none else match_prefix r.cid_routes rest

  abbrev pub route_of : Router lib → Bytes → Option LongPacketCids → Option ℕ
  route_of r packet none = match_short_header_route r packet
  route_of r packet (some long) = CidRoutes.get r.cid_routes long.dcid

  unfoldable pub packet_connection_id :
      Router lib → Bytes → Outcome QuicError (Option LongPacketCids × Option ℕ)
  packet_connection_id r packet = do
    long ← parse_long_packet_cids packet
    ok (long, route_of r packet long)

  unfoldable pub peer_connection_id : Router lib → SocketAddr → ℕ → Option ℕ
  peer_connection_id r peer now = elim (Maps.get (normalize_socket_addr peer) r.client_routes) [
    | none ↦ none
    | some ids ↦ only (filter (λ id. is_live now r.idle_timeout (Maps.get id r.connections)) ids)
  ]

  -- `-=` panics where it would go below 0.
  abbrev pub take_out :
      PendingKey → Option PendingConnection → Action.Action lib (Option PendingConnection)
  take_out key none r = Action.done none r
  take_out key (some p) r =
      if ltb r.pending_bytes p.buffered_bytes
      then Action.panicked
      else Action.done (some p) (record r {
        pending = Maps.delete key r.pending;
        pending_bytes = r.pending_bytes - p.buffered_bytes;
      })

  unfoldable pub remove_pending : PendingKey → Action.Action lib (Option PendingConnection)
  remove_pending key r = take_out key (Maps.get key r.pending) r

  abbrev pub record_label : SniLabel lib.Text → Router lib → Router lib
  record_label label r = record r { log = r.log ++ sni_seen label ∷ [] }

  -- A name that a rule knows has a label of its own, as long as there are few and it is short.
  abbrev pub record_known : lib.Text → Router lib → Router lib
  record_known name r =
      let seen = Sets.member ⦃e = lib.text_key⦄ name r.sni_metric_labels in
      if ltb max_sni_metric_label_bytes (lib.text_len name)
        || (not seen && leb max_sni_metric_labels (length r.sni_metric_labels))
      then record_label other r
      else record_label (named name)
          (record r { sni_metric_labels = Sets.insert ⦃e = lib.text_key⦄ name r.sni_metric_labels })

  unfoldable pub record_sni : Option lib.Text → Router lib → Router lib
  record_sni none r = record_label missing r
  record_sni (some name) r =
      if any (λ rule. lib.is_match rule.re name) r.config.routing.rules
      then record_known name r
      else record_label unknown r
