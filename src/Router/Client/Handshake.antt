-- ===== src/Router/Client/Handshake.antt =====
-- A datagram that belongs to no path keeps the router's invariant, whatever its bytes.
use sni_router.Prelude.{
  ℕ, ◌+◌, ◌*◌, ◌≤◌, ◌≡◌, refl, ◌||◌, ◌&&◌, not, inl, inr, Option, none, some, Bool-cases,
  Option-cases, ltb, leb, length, tests, arith,
}
use sni_router.Prelude.Equality.{nat_Key, bytes_Key, pair_Key}
use sni_router.Prelude.Maps
use sni_router.Prelude.Maps.{is_some, get-put, length-put_present}
use sni_router.Prelude.Outcomes.{Bytes, Post, Post-bail_if, Post-index, Post-slice, returns}
use sni_router.Net.{SocketAddr}
use sni_router.Net.Laws.{addr_Key}
use sni_router.Pending
use sni_router.Pending.{PendingConnection, push_datagram}
use sni_router.Pending.Limits.{Bounded}
use sni_router.Quic.Frames.{CryptoFrames}
use sni_router.Quic.Reassembly.{CryptoReassembly, clienthello}
use sni_router.Router.{
  Library, World, Router, PendingKey, Reason, max_sni_metric_labels, max_sni_metric_label_bytes,
}
use sni_router.Router.Action.{resume, Ends, is_done, is_failed, Anything, Ends-attempt, Ends-bind}
use sni_router.Router.Client.{reject, route_pending, name_and_route, reassemble}
use sni_router.Router.Establish.Safety.{establish_and_flush-Ends}
use sni_router.Router.Invariant.{IsSound, Inv}
use sni_router.Router.Invariant.Buffer.{put-Waiting, insert_all-Inv, remove_pending-Ends}
use sni_router.Router.Lookup.{record_sni, record_known}
use sni_router.Routing.Safety.{route_for_sni-Post}
use sni_router.Prelude.Sets
use sni_router.Prelude.Sets.{any}
use sni_router.Sni.Http3.{extract_tls_sni, extract_tls_sni-extract_sni}
use sni_router.Sni.Safety.{extract_sni-Post}

pub empty-IsSound :
    (peer : SocketAddr) (dcid : Bytes) (now : ℕ) → IsSound (Pending.new peer dcid now)
unfolding Pending.new
empty-IsSound peer dcid now = (
  record { exact = refl; few_bytes = omega arith; few_datagrams = omega arith },
  record { ascending = tt; bounded = omega arith },
)

-- On any bytes, `clienthello` returns or fails.
clienthello-Post : (crypto : CryptoReassembly) → Post (λ _. Unit {0}) (clienthello crypto)
unfolding clienthello
clienthello-Post crypto = elim (Bool-cases (ltb (length crypto.bytes) 4)) [
  | inl e ↦ rw e (returns tt)
  | inr e ↦ rw e (
      Post-index _ _ _ (omega tests) λ kind. Post-bail_if _ _ _ λ _.
        Post-index _ _ _ (omega tests) λ b1. Post-index _ _ _ (omega tests) λ b2.
          Post-index _ _ _ (omega tests) λ b3.
            (elim (Bool-cases (ltb (length crypto.bytes) (4 + (b1 * 65536 + b2 * 256 + b3)))) [
              | inl f ↦ rw f (returns tt)
              | inr f ↦ rw f (Post-slice _ _ _ _ (omega arith) (omega tests) λ part _. returns tt)
            ]))
]

extract_tls_sni-Post :
    {Text : Type 0} (from_utf8_lossy : Bytes → Text) (hello : Bytes)
    → Post (λ _. Unit {0}) (extract_tls_sni from_utf8_lossy hello)
extract_tls_sni-Post from_utf8_lossy hello =
    rw (extract_tls_sni-extract_sni from_utf8_lossy hello) (extract_sni-Post from_utf8_lossy hello)

-- What a push changes of a pending connection.
pub pushed-Post :
    (p : PendingConnection) (packet : Bytes)
    → Post
        (λ q. (q.crypto ≡ p.crypto) × (q.buffered_bytes ≡ p.buffered_bytes + length packet))
        (push_datagram p packet)
unfolding push_datagram
pushed-Post p packet =
    Post-bail_if _ _ _ λ _. Post-bail_if _ _ _ λ _. Post-bail_if _ _ _ λ _. returns (refl, refl)

module _ {lib : Library} where
  record_known-Inv : (name : lib.Text) (r : Router lib) → Inv r → Inv (record_known name r)
  record_known-Inv name r i =
      let seen = Sets.member ⦃e = lib.text_key⦄ name r.sni_metric_labels in
      elim (Bool-cases (
        ltb max_sni_metric_label_bytes (lib.text_len name)
        || (not seen && leb max_sni_metric_labels (length r.sni_metric_labels)))) [
          | inl e ↦ rw e i
          | inr e ↦ rw e i
        ]

  record_sni-Inv : (sni : Option lib.Text) (r : Router lib) → Inv r → Inv (record_sni sni r)
  unfolding record_sni
  record_sni-Inv none r i = i
  record_sni-Inv (some name) r i =
      elim (Bool-cases (any (λ rule. lib.is_match rule.re name) r.config.routing.rules)) [
        | inl e ↦ rw e (record_known-Inv name r i)
        | inr e ↦ rw e i
      ]

  module _ (w : World) where
    pub reject-Ends :
        (key : PendingKey) (reason : Reason) (count : ℕ) (r : Router lib)
        → Inv r
        → Ends Inv Anything (reject w key reason count r)
    unfolding reject
    reject-Ends key reason count r i =
        Ends-bind _ _ (remove_pending-Ends key r i) λ _ s j _. is_done j tt

    route_pending-Ends :
        (peer : SocketAddr) (key : PendingKey) (sni : Option lib.Text) (r : Router lib)
        → Inv r
        → Ends Inv Anything (route_pending w peer key sni r)
    unfolding route_pending resume
    route_pending-Ends peer key sni r i =
        Ends-bind _ _ (remove_pending-Ends key _ (record_sni-Inv sni r i)) λ removed s j _.
          elim (Option-cases removed) [
            | inl e ↦ rw e (is_done j tt)
            | inr (p, e) ↦ rw e (
                Ends-attempt _ _ _ s
                  (route_for_sni-Post lib.is_match lib.contains s.config.routing peer sni)
                  (λ route _. establish_and_flush-Ends w p route s j) λ _. is_failed j)
          ]

    name_and_route-Ends :
        (peer : SocketAddr) (key : PendingKey) (hello : Bytes) (r : Router lib)
        → Inv r
        → Ends Inv Anything (name_and_route w peer key hello r)
    unfolding name_and_route
    name_and_route-Ends peer key hello r i =
        Ends-attempt _ _ _ r (extract_tls_sni-Post lib.from_utf8_lossy hello)
          (λ sni _. route_pending-Ends peer key sni r i) λ _. route_pending-Ends peer key none r i

    -- A put over the entry of a key.
    pub put_over :
        (key : PendingKey) (old p : PendingConnection) (bytes' : ℕ) (r : Router lib)
        → Maps.get key r.pending ≡ some old
        → IsSound p
        → bytes' + old.buffered_bytes ≡ r.pending_bytes + p.buffered_bytes
        → bytes' ≤ r.limits.max_pending_bytes
        → Inv r
        → Inv (record r { pending = Maps.put key p r.pending; pending_bytes = bytes' })
    put_over key old p bytes' r e s sum small (b, i) =
        (put-Waiting bytes' key p b s (rw e refl) (rw e sum) small, i)

    pub reassemble-Ends :
        (peer : SocketAddr) (key : PendingKey) (p : PendingConnection) (frames : CryptoFrames)
        (count : ℕ) (r : Router lib)
        → Maps.get key r.pending ≡ some p
        → IsSound p
        → Inv r
        → Ends Inv Anything (reassemble w peer key p frames count r)
    unfolding reassemble resume
    reassemble-Ends peer key p frames count r e sound i =
        Ends-attempt _ _ _ r (insert_all-Inv p.crypto frames sound.1)
          (λ crypto v.
            let i' =
              put_over key p (record p { crypto = crypto }) r.pending_bytes r e (bounded sound.0, v)
                refl i.0.few_bytes i in
            Ends-attempt _ _ _ _ (clienthello-Post crypto)
              (λ hello _. elim (Option-cases hello) [
                | inl f ↦ rw f (is_done i' tt)
                | inr (bytes, f) ↦ rw f (name_and_route-Ends peer key bytes _ i')
              ])
              λ _. reject-Ends key _ count _ i')
          λ _. reject-Ends key _ count r i
      where
        bounded : {crypto : CryptoReassembly} → Bounded p → Bounded (record p { crypto = crypto })
        bounded b = record {
          exact = b.exact;
          few_bytes = b.few_bytes;
          few_datagrams = b.few_datagrams;
        }
