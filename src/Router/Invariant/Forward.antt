-- ===== src/Router/Invariant/Forward.antt =====
-- The forwarding of a datagram keeps the router's invariant: a connection ID goes to the path only where it is free.
use mathlib.Core.Path.{subst, sym}
use sni_router.Prelude.{
  ℕ, ◌≡◌, refl, inl, inr, Bool, true, false, List, [], ◌∷◌, ◌++◌, Option, none, some, Bool-cases,
  Option-cases, leb, nat_eq, nat_eq_iff, length, length-append, tests, arith, if◌then◌else◌,
}
use sni_router.Prelude.Equality.{bytes_eq, bytes_eq_iff, nat_Key, bytes_Key}
use sni_router.Prelude.Maps
use sni_router.Prelude.Maps.{Map, is_some, length-put_present}
use sni_router.Prelude.Sets
use sni_router.Prelude.Sets.{filter, any, member-append, member-filter}
use sni_router.Prelude.Outcomes.{Bytes}
use sni_router.CidRoutes
use sni_router.CidRoutes.{CidRoutes}
use sni_router.CidRoutes.Laws.{owner_or, get-insert}
use sni_router.CidRoutes.Shape.{IsValid, insert-IsValid}
use sni_router.Net.{SocketAddr, normalize_socket_addr}
use sni_router.Net.Laws.{addr_Key}
use sni_router.Quic.Decrypt.Safety.{IsRing, decrypt_initial_packet_with_dcid-Post}
use sni_router.Quic.LongHeader.{LongPacketCids}
use sni_router.Router.{Limits, Library, World, Connection, Router, expired}
use sni_router.Router.Action.{resume, Ends-attempt, Ends, is_done, is_failed, Anything, Ends-bind}
use sni_router.Router.Establish.{owned_by_other}
use sni_router.Router.Forward.{
  with_conn, claim_cid, add_cid_route, add_scid, send, forward_established_client_datagram,
  forward_by_peer_affinity,
}
use sni_router.Router.Invariant.{Paths, Inv}
use sni_router.Router.Invariant.Index.{
  Claims, put-Paths, same-Paths, update-Paths, free_of_found, below,
}
use sni_router.Router.Invariant.Routed.{get-insert_free}
use sni_router.Router.Lookup.{lb_backend, is_live, only, peer_connection_id}

pub free_of_owned :
    (id : ℕ) (owner : Option ℕ)
    → nat_eq (owner_or id owner) id ≡ true
    → owned_by_other id owner ≡ false
free_of_owned id none h = refl
free_of_owned id (some w) h = rw h refl

pub kept_owner :
    (id : ℕ) (owner : Option ℕ)
    → nat_eq (owner_or id owner) id ≡ false
    → owner ≡ some (owner_or id owner)
kept_owner id none h = absurd (ground (arith, h, nat_eq_iff id id))
kept_owner id (some w) h = refl

claimed-Claims :
    {Text : Type 0} {limits : Limits} {next : ℕ} {conns : Map ℕ (Connection Text)}
    {routes : CidRoutes} {lb_paths : Map (SocketAddr × SocketAddr) ℕ}
    (i : Paths limits next conns routes lb_paths) (id : ℕ) (key : Bytes) (conn : Connection Text)
    (routes' : CidRoutes)
    → Maps.get id conns ≡ some conn
    → leb limits.max_cids_per_path (length conn.cids) ≡ false
    → owned_by_other id (CidRoutes.get routes key) ≡ false
    → IsValid routes'
    → ((c : Bytes)
        → CidRoutes.get routes' c ≡ (if bytes_eq key c then some id else CidRoutes.get routes c))
    → Claims i id (conn.cids ++ key ∷ []) routes'
claimed-Claims {routes} i id key conn routes' e room free v found = record {
  valid = v;
  few = omega (tests, length-append conn.cids (key ∷ []));
  routed = λ c.
      rw (found c, member-append c key conn.cids)
        (elim (Bool-cases (Sets.member c conn.cids)) [
          | inl g ↦ rw (g, i.found c id (rw e g)) (ground arith)
          | inr g ↦ rw g refl
        ]);
  free = λ c. rw (member-append c key conn.cids) (elim (Bool-cases (Sets.member c conn.cids)) [
    | inl g ↦ λ _. free_of_found i id c (rw e g)
    | inr g ↦ rw g (λ f.
        subst (λ x. owned_by_other id (CidRoutes.get routes x) ≡ false) ((bytes_eq_iff key c).0 f)
          free)
  ]);
  grows = λ c. rw (e, member-append c key conn.cids) (λ g. rw g refl);
}

only_one : (id : ℕ) (ids : List ℕ) → only ids ≡ some id → ids ≡ id ∷ []
only_one id [] h = ground arith
only_one id (x ∷ []) h = cc
only_one id (x ∷ y ∷ ids) h = ground arith

module _ {lib : Library} where
  claim_cid-Inv :
      (id b : ℕ) (cid : Bytes) (conn : Connection lib.Text) (r : Router lib)
      → Maps.get id r.connections ≡ some conn
      → leb r.limits.max_cids_per_path (length conn.cids) ≡ false
      → Inv r
      → Inv (claim_cid id (b ∷ cid) conn r)
  claim_cid-Inv id b cid conn r e room (w, i) =
      let key : Bytes = b ∷ cid in
      let owner = CidRoutes.get r.cid_routes key in
      let v = insert-IsValid r.cid_routes key id i.valid in
      elim (Bool-cases (nat_eq (owner_or id owner) id)) [
        | inl g ↦
            let free = free_of_owned id owner g in
            rw ((get-insert r.cid_routes b cid id key).1, g)
              (
                w,
                put-Paths i _ id (record conn { cids = conn.cids ++ key ∷ [] }) _ (omega arith)
                    (below i id conn e) (rw (length-put_present id _ conn r.connections e) i.few)
                    (claimed-Claims i id key conn _ e room free v
                      λ c. get-insert_free r.cid_routes b cid id c free),
              )
        | inr g ↦
            rw ((get-insert r.cid_routes b cid id key).1, g)
              (
                w,
                same-Paths i _ v λ c.
                    rw (get-insert r.cid_routes b cid id c).0 (elim (Bool-cases (bytes_eq key c)) [
                      | inl f ↦ rw f (
                          subst (λ x. some (owner_or id owner) ≡ CidRoutes.get r.cid_routes x)
                            ((bytes_eq_iff key c).0 f) (sym (kept_owner id owner g)))
                      | inr f ↦ rw f refl
                    ]),
              )
      ]

  pub add_cid_route-Inv :
      (id : ℕ) (cid : Bytes) (r : Router lib) → Inv r → Inv (add_cid_route id cid r)
  unfolding add_cid_route
  add_cid_route-Inv id [] r i = i
  add_cid_route-Inv id (b ∷ cid) r i = elim (Bool-cases (is_some (lb_backend r (b ∷ cid)))) [
    | inl e ↦ rw e i
    | inr e ↦ rw e (elim (Option-cases (Maps.get id r.connections)) [
      | inl f ↦ rw f i
      | inr (conn, f) ↦ rw f (elim (Bool-cases (Sets.member (b ∷ cid) conn.cids)) [
        | inl m ↦ rw m i
        | inr m ↦ rw m (elim (Bool-cases (leb r.limits.max_cids_per_path (length conn.cids))) [
          | inl l ↦ rw l i
          | inr l ↦ rw l (claim_cid-Inv id b cid conn r f l i)
        ])
      ])
    ])
  ]

  pub peer_connection_id-live :
      (id : ℕ) (peer : SocketAddr) (now : ℕ) (r : Router lib)
      → peer_connection_id r peer now ≡ some id
      → is_live now r.idle_timeout (Maps.get id r.connections) ≡ true
  unfolding peer_connection_id any
  peer_connection_id-live id peer now r h =
      elim (Option-cases (Maps.get (normalize_socket_addr peer) r.client_routes)) [
        | inl e ↦ absurd (ground (arith, e, h))
        | inr (ids, e) ↦
            let live : ℕ → Bool = λ j. is_live now r.idle_timeout (Maps.get j r.connections) in
            let one = only_one id (filter live ids) (ground (arith, e, h)) in
            (member-filter live id ids (rw one (rw ((nat_eq_iff id id).1 refl) refl))).0
      ]

  -- A connection that changes but for its connection IDs.
  pub with_conn-Inv :
      (id : ℕ) (old conn : Connection lib.Text) (r : Router lib)
      → Maps.get id r.connections ≡ some old
      → conn.cids ≡ old.cids
      → Inv r
      → Inv (with_conn id conn r)
  with_conn-Inv id old conn r e same (w, i) = (w, update-Paths i id old conn e same)

  pub add_scid-Inv :
      (id : ℕ) (long : Option LongPacketCids) (r : Router lib) → Inv r → Inv (add_scid id long r)
  add_scid-Inv id none r i = i
  add_scid-Inv id (some long) r i = add_cid_route-Inv id long.scid r i

  module _ (w : World) where
    pub send-Ends :
        (id : ℕ) (packet : Bytes) (r : Router lib) → Inv r → Ends Inv Anything (send w id packet r)
    unfolding send
    send-Ends id packet r i = elim (Bool-cases (w.takes id packet)) [
      | inl e ↦ rw e (is_done i tt)
      | inr e ↦ rw e (is_failed i)
    ]

    pub forward_established_client_datagram-Ends :
        (id : ℕ) (peer : SocketAddr) (packet : Bytes) (long : Option LongPacketCids)
        (r : Router lib)
        → Inv r
        → Ends Inv Anything (forward_established_client_datagram w id peer packet long r)
    unfolding forward_established_client_datagram resume
    forward_established_client_datagram-Ends id peer packet long r i =
        elim (Option-cases (Maps.get id r.connections)) [
          | inl e ↦ rw e (is_done i tt)
          | inr (conn, e) ↦ rw e (elim (Bool-cases (expired conn w.now r.idle_timeout)) [
            | inl f ↦ rw f (is_done i tt)
            | inr f ↦ rw f (
                Ends-bind _ _ (send-Ends id packet _ (with_conn-Inv id conn _ r e refl i))
                  λ _ t k _. is_done (add_scid-Inv id long t k) tt)
          ])
        ]

    pub forward_by_peer_affinity-Ends :
        IsRing lib.ring
        → (peer : SocketAddr) (packet : Bytes) (long : Option LongPacketCids) (validate : Bool)
          (r : Router lib)
        → Inv r
        → Ends Inv Anything (forward_by_peer_affinity w peer packet long validate r)
    unfolding forward_by_peer_affinity
    forward_by_peer_affinity-Ends good peer packet long validate r i =
        elim (Option-cases (peer_connection_id r peer w.now)) [
          | inl e ↦ rw e (is_done i tt)
          | inr (id, e) ↦
              let forwards = forward_established_client_datagram-Ends id peer packet long r i in
              rw e (elim (Bool-cases validate) [
                | inl f ↦ rw f (elim (Option-cases (Maps.get id r.connections)) [
                  | inl g ↦ absurd (ground (arith, g, peer_connection_id-live id peer w.now r e))
                  | inr (conn, g) ↦ rw g (
                      Ends-attempt _ _ _ r
                        (decrypt_initial_packet_with_dcid-Post lib.ring good packet
                          (some conn.initial_key_dcid))
                        (λ _ _. forwards) λ _. is_done i tt)
                ])
                | inr f ↦ rw f forwards
              ])
        ]
