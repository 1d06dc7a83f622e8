-- ===== src/Router/Client/Admission.antt =====
-- The admission of an Initial packet keeps the router's invariant, the limits on all pending connections with it.
use sni_router.Prelude.{
  ℕ, ◌+◌, ◌^◌, ◌≤◌, ◌≡◌, refl, ◌||◌, ◌&&◌, not, inl, inr, true, false, Option, none, some,
  Bool-cases, Option-cases, ltb, leb, nat_eq, length, tests, arith,
}
use sni_router.Prelude.Equality.{nat_Key, bytes_Key, pair_Key, pair_eq_iff}
use sni_router.Prelude.Maps
use sni_router.Prelude.Maps.{Map, is_some, get-put, length-put_present}
use sni_router.Prelude.Maps.Distinct.{weight, Each-get}
use sni_router.Prelude.Outcomes.{Bytes, Post, Post-both, Post-weaken}
use sni_router.Net.{SocketAddr, normalize_socket_addr}
use sni_router.Net.Laws.{addr_Key}
use sni_router.Pending
use sni_router.Pending.{PendingConnection, push_datagram}
use sni_router.Pending.Limits.{push_datagram-Post}
use sni_router.Quic.Decrypt.{DecryptedInitial}
use sni_router.Quic.Decrypt.Safety.{IsRing, decrypt_initial_packet_with_dcid-Post}
use sni_router.Quic.Frames.{CryptoFrames}
use sni_router.Quic.Frames.Safety.{read_crypto_frames-Post}
use sni_router.Quic.InitialHeader.{quic_version_1, quic_packet_type_initial}
use sni_router.Quic.LongHeader.{LongPacketCids}
use sni_router.Router.{Library, World, Router, PendingKey}
use sni_router.Router.Action.{resume, Ends, is_done, Anything, Ends-attempt}
use sni_router.Router.Client.{
  quic_packet_type_zero_rtt, quic_packet_type_handshake, pending_or_new, add_client_cid,
  buffered_count, buffer_initial, admit_initial, handle_initial, handle_unrouted_client_datagram,
}
use sni_router.Router.Invariant.{IsSound, Inv}
use sni_router.Router.Invariant.Buffer.{put-Waiting}
use sni_router.Router.Invariant.Forward.{forward_by_peer_affinity-Ends}
use sni_router.Router.Client.Handshake.{
  empty-IsSound, pushed-Post, reject-Ends, put_over, reassemble-Ends,
}
use sni_router.Router.Establish.{is_empty}

-- A client's connection ID, and the time, do not change what is buffered.
add_client_cid-IsSound :
    (scid : Bytes) (p : PendingConnection)
    → IsSound p
    → IsSound (add_client_cid scid p) × ((add_client_cid scid p).buffered_bytes ≡ p.buffered_bytes)
add_client_cid-IsSound scid p (b, v) = elim (Bool-cases (is_empty scid)) [
  | inl e ↦ rw e ((b, v), refl)
  | inr e ↦ rw e (
    (record { exact = b.exact; few_bytes = b.few_bytes; few_datagrams = b.few_datagrams }, v),
    refl,
  )
]

pushed-IsSound :
    (p : PendingConnection) (packet scid : Bytes) (now : ℕ)
    → IsSound p
    → Post
        (λ q.
          IsSound (add_client_cid scid (record q { last_seen = now }))
          × ((add_client_cid scid (record q { last_seen = now })).buffered_bytes
              ≡ p.buffered_bytes + length packet))
        (push_datagram p packet)
pushed-IsSound p packet scid now (b, v) =
    Post-weaken (Post-both (push_datagram-Post p packet b) (pushed-Post p packet))
      λ q ((c, _), (same, sum)).
        let (s, t) =
          add_client_cid-IsSound scid (record q { last_seen = now })
            (
              record { exact = c.exact; few_bytes = c.few_bytes; few_datagrams = c.few_datagrams },
              rw same v,
            ) in
        (s, rw t sum)

module _ {lib : Library} where
  -- What `entry(key).or_insert_with(..)` gives, which weighs as much as the entry did.
  pending_or_new-IsSound :
      (peer : SocketAddr) (dcid : Bytes) (now : ℕ) (key : PendingKey) (r : Router lib)
      → Inv r
      → IsSound (pending_or_new peer dcid now (Maps.get key r.pending))
        × ((pending_or_new peer dcid now (Maps.get key r.pending)).buffered_bytes
            ≡ weight (λ q. q.buffered_bytes) (Maps.get key r.pending))
  pending_or_new-IsSound peer dcid now key r i = elim (Option-cases (Maps.get key r.pending)) [
    | inl e ↦ rw e (empty-IsSound peer dcid now, unfold Pending.new in refl)
    | inr (p, e) ↦ rw e (Each-get IsSound key p r.pending i.0.each e, refl)
  ]

  module _ (w : World) where
    buffer_initial-Ends :
        (peer : SocketAddr) (packet : Bytes) (key : PendingKey) (initial : DecryptedInitial)
        (frames : CryptoFrames) (r : Router lib)
        → (not (is_some (Maps.get key r.pending))
            && leb r.limits.max_pending_handshakes (length r.pending))
          ≡ false
        → r.pending_bytes + length packet ≤ r.limits.max_pending_bytes
        → Inv r
        → Ends Inv Anything (buffer_initial w peer packet key initial frames r)
    unfolding buffer_initial resume
    buffer_initial-Ends peer packet key initial frames r room small i =
        let p = pending_or_new peer initial.dcid w.now (Maps.get key r.pending) in
        let count = buffered_count (Maps.get key r.pending) + 1 in
        let (s, weighs) = pending_or_new-IsSound peer initial.dcid w.now key r i in
        let r1 : Router lib = record r { pending = Maps.put key p r.pending } in
        let i1 : Inv r1 =
          (put-Waiting r.pending_bytes key p i.0 s room (omega arith) i.0.few_bytes, i.1) in
        Ends-attempt _ _ _ _ (pushed-IsSound p packet initial.scid w.now s)
          (λ pushed (t, sum).
            let seen = add_client_cid initial.scid (record pushed { last_seen = w.now }) in
            let at =
              λ (q : PendingConnection) (m : Map PendingKey PendingConnection). entry key q m in
            reassemble-Ends w peer key seen frames count _ (at seen (Maps.put key p r.pending)) t (
              put_over w key p seen (r.pending_bytes + length packet) r1 (at p r.pending) t
                (omega arith) small i1))
          λ _. reject-Ends w key _ count r1 i1
      where
        entry :
            (k : PendingKey) (q : PendingConnection) (m : Map PendingKey PendingConnection)
            → Maps.get k (Maps.put k q m) ≡ some q
        entry k q m =
            rw (get-put k k q m, (pair_eq_iff ⦃e = addr_Key⦄ ⦃f = bytes_Key⦄ k k).1 refl) refl

    admit_initial-Ends :
        (peer : SocketAddr) (packet : Bytes) (initial : DecryptedInitial) (frames : CryptoFrames)
        (r : Router lib)
        → Inv r
        → Ends Inv Anything (admit_initial w peer packet initial frames r)
    unfolding admit_initial
    admit_initial-Ends peer packet initial frames r i =
        let key : PendingKey = (normalize_socket_addr peer, initial.dcid) in
        elim (Bool-cases (
          not (is_some (Maps.get key r.pending))
          && leb r.limits.max_pending_handshakes (length r.pending))) [
            | inl e ↦ rw e (is_done i tt)
            | inr e ↦
                rw e
                  (elim (Bool-cases (
                    leb (2 ^ 64) (r.pending_bytes + length packet)
                    || ltb r.limits.max_pending_bytes (r.pending_bytes + length packet))) [
                      | inl f ↦ rw f (is_done i tt)
                      | inr f ↦ rw f (
                          let g : ltb r.limits.max_pending_bytes (r.pending_bytes + length packet)
                              ≡ false =
                            ground (arith, f) in
                          buffer_initial-Ends peer packet key initial frames r e (omega tests) i)
                    ])
          ]

    -- A datagram that belongs to no path leaves the invariant, and does not panic.
    pub handle_unrouted_client_datagram-Ends :
        IsRing lib.ring
        → (peer : SocketAddr) (packet : Bytes) (long : Option LongPacketCids) (r : Router lib)
        → Inv r
        → Ends Inv Anything (handle_unrouted_client_datagram w peer packet long r)
    unfolding handle_unrouted_client_datagram handle_initial
    handle_unrouted_client_datagram-Ends good peer packet none r i =
        forward_by_peer_affinity-Ends w good peer packet none false r i
    handle_unrouted_client_datagram-Ends good peer packet (some long) r i =
        elim (Bool-cases (
          nat_eq long.version quic_version_1
          && (nat_eq long.packet_type quic_packet_type_handshake
              || nat_eq long.packet_type quic_packet_type_zero_rtt))) [
                | inl e ↦
                    rw e (forward_by_peer_affinity-Ends w good peer packet (some long) false r i)
                | inr e ↦
                    rw e
                      (elim (Bool-cases (
                        not (nat_eq long.version quic_version_1)
                        || not (nat_eq long.packet_type quic_packet_type_initial))) [
                          | inl f ↦ rw f (is_done i tt)
                          | inr f ↦ rw f (
                              Ends-attempt _ _ _ r
                                (decrypt_initial_packet_with_dcid-Post lib.ring good packet none)
                                (λ initial _.
                                  Ends-attempt _ _ _ r (read_crypto_frames-Post initial.payload)
                                    (λ frames _. admit_initial-Ends peer packet initial frames r i)
                                    λ _. is_done i tt)
                                λ _.
                                  forward_by_peer_affinity-Ends w good peer packet (some long) true
                                    r i)
                        ])
              ]
