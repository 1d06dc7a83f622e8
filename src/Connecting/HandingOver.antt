-- ===== src/Connecting/HandingOver.antt =====
-- The hand-over of a connection to the backend of a path.
use mathlib.Core.List.{append-nil}
use sni_router.Prelude.{
  ℕ, ◌≡◌, refl, ap, inl, inr, List, [], ◌∷◌, ◌++◌, Option, none, some, nat_eq, length,
  if◌then◌else◌, Bool-cases, tests,
}
use sni_router.Prelude.Outcomes.{Bytes, Outcome, Post, returns, fails}
use sni_router.Records.{Connection}
use sni_router.Handshake.{HandshakeError, tls_handshake}
use sni_router.Handshake.Feeding.{IsRustls}
use sni_router.Handshake.Boundary.{Taken, tls_handshake-Post}
use sni_router.Connecting.{
  Event, client_handshake, passed, Network, handed_off, handshaken, pass_fd_over_uds, all_sent,
  hand_off, fail, pure, ◌>>=◌, no_handshake, send_failed, short_send,
}
use sni_router.Connecting.Runs.{Runs, Runs-pure, Runs-fail, Runs-bind, Runs-emit}
use sni_router.Connecting.Served.{
  Passed, Unsent, Handed, Unhanded, unsent, not_handshaken, unsent_after,
}

module _ (net : Network) (good : IsRustls net.rustls) where
  open net use {rustls, sendmsg}

  handshaken-Runs :
      (c : Connection) (cfg : rustls.Config) (path : Bytes) (start : List Event)
      (o : Outcome HandshakeError (Connection × Bytes))
      → tls_handshake rustls c cfg ≡ o
      → Post (λ (c1, sent). Taken rustls c cfg c1 sent) o
      → Runs
          (λ new c1.
            (sent : Bytes) × Taken rustls c cfg c1 sent × (new ≡ client_handshake (some sent) ∷ []))
          (Unhanded net c path (some cfg) start)
          (handshaken net o)
          start
  handshaken-Runs c cfg path start _ e (returns {a = (c1, sent)} h) =
      Runs-emit (client_handshake (some sent)) _ (Runs-pure c1 (sent, h, refl))
  handshaken-Runs c cfg path start _ e (fails {e = x}) =
      Runs-emit (client_handshake none) _ (Runs-fail (no_handshake x) (not_handshaken x e))

  pass_fd-Runs :
      (c : Connection) (path : Bytes) (start : List Event)
      → Runs
          (λ new u. Passed net c path start new)
          (Unsent net c path start)
          (pass_fd_over_uds net c path)
          start
  unfolding pass_fd_over_uds
  pass_fd-Runs c path start = sent-Runs (sendmsg start path c.bytes) refl
    where
      whole-Runs :
          (n : ℕ)
          → sendmsg start path c.bytes ≡ some n
          → Runs
              (λ new u. Passed net c path start (passed path c.bytes ∷ new))
              (λ new. Unsent net c path start (passed path c.bytes ∷ new))
              (if nat_eq n (length c.bytes) then pure tt else fail short_send)
              (start ++ passed path c.bytes ∷ [])
      whole-Runs n e = elim (Bool-cases (nat_eq n (length c.bytes))) [
        | inl all ↦
            let same : n ≡ length c.bytes = omega tests in
            rw all (Runs-pure tt (rw (← same) e, refl))
        | inr part ↦ rw part (Runs-fail short_send (inr (n, e, part, refl)))
      ]

      sent-Runs :
          (o : Option ℕ)
          → sendmsg start path c.bytes ≡ o
          → Runs
              (λ new u. Passed net c path start new)
              (Unsent net c path start)
              (all_sent net path c.bytes o)
              start
      sent-Runs none e = Runs-fail send_failed (inl (e, refl))
      sent-Runs (some n) e =
          Runs-emit (passed path c.bytes)
            (λ _. if nat_eq n (length c.bytes) then pure tt else fail short_send) (whole-Runs n e)

  pub hand_off-Runs :
      (c : Connection) (path : Bytes) (server : Option (rustls.Config)) (start : List Event)
      → Runs
          (λ new r. (r ≡ handed_off) × Handed net c path server start new)
          (Unhanded net c path server start)
          (hand_off net c path server)
          start
  unfolding hand_off
  hand_off-Runs c path none start =
      Runs-bind {Q = λ new c1. (c1 ≡ c) × (new ≡ [])} {F = λ new. ⊥} (pure c)
        (λ c1. pass_fd_over_uds net c1 path >>= λ _. pure handed_off) (Runs-pure c (refl, refl))
        (λ new c1 (same, is).
          rw (same, is, append-nil start)
            (Runs-bind (pass_fd_over_uds net c path) (λ _. pure handed_off)
              (pass_fd-Runs c path start)
              (λ more u h. Runs-pure handed_off (refl, rw (append-nil more) h))
              (λ more u. unsent u)))
        (λ new a. absurd a)
  hand_off-Runs c path (some cfg) start =
      Runs-bind (handshaken net (tls_handshake rustls c cfg))
        (λ c1. pass_fd_over_uds net c1 path >>= λ _. pure handed_off)
        (handshaken-Runs c cfg path start _ refl (tls_handshake-Post rustls good c cfg))
        (λ new c1 (sent, t, is). rw is (
          Runs-bind (pass_fd_over_uds net c1 path) (λ _. pure handed_off)
            (pass_fd-Runs c1 path (start ++ client_handshake (some sent) ∷ []))
            (λ more u h. Runs-pure handed_off (
              refl,
              (
                c1,
                sent,
                more,
                t,
                ap (λ (x : List Event). client_handshake (some sent) ∷ x) (append-nil more),
                h,
              ),
            ))
            (λ more u. unsent_after t u)))
        (λ new u. u)
