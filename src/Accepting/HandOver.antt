-- ===== src/Accepting/HandOver.antt =====
-- A connection that one router passes to another.
use mathlib.Core.Path.{subst}
use sni_router.Prelude.{
  ℕ, ◌≤◌, ◌<◌, ◌≡◌, refl, sym, ◌∙◌, true, false, [], ◌∷◌, ◌++◌, Option, some, length,
  take-length_append,
}
use sni_router.Prelude.Outcomes.{Bytes, ok, err, Post-eq, run_steps}
use sni_router.Records.{Connection, Hello, read_tls_clienthello}
use sni_router.Records.Replay.{all_bytes, read_tls_clienthello-Post}
use sni_router.Records.Alike.{Alike-ok}
use sni_router.Records.Split.{read_tls_clienthello-split}
use sni_router.Accepting.{
  uds_dgram_buf_capacity, Message, message, data_truncated, Incoming, unix_datagram, accept,
}

-- What the code relies on of `recvmsg`, for a datagram that was sent with one descriptor: it writes the datagram to the
-- buffer and says how long it is, if it fits; or it sets the flag of a truncated one.
pub record IsRecvmsg {Fd : Type 0} (recvmsg : ℕ → Bytes → Fd → Message Fd) : Type 0 where
  pub fits :
      (capacity : ℕ) (bytes : Bytes) (fd : Fd)
      → length bytes ≤ capacity
      → (rest : Bytes) × (recvmsg capacity bytes fd ≡ record {
        buf = bytes ++ rest;
        bytes = length bytes;
        is_truncated = false;
        is_control_truncated = false;
        fds = fd ∷ [];
      })
  pub truncates :
      (capacity : ℕ) (bytes : Bytes) (fd : Fd)
      → capacity < length bytes
      → (recvmsg capacity bytes fd).is_truncated ≡ true

module _ {Fd Stream : Type 0} (stream_of : Fd → Option Stream)
    (recvmsg : ℕ → Bytes → Fd → Message Fd) (good : IsRecvmsg recvmsg) where
  -- The datagram of a connection, as a listener gets it.
  abbrev pub datagram : Bytes → Fd → Incoming Fd Stream
  datagram bytes fd = unix_datagram (message (recvmsg uds_dgram_buf_capacity bytes fd))

  accept-fits :
      (bytes : Bytes) (fd : Fd) (stream : Stream)
      → stream_of fd ≡ some stream
      → length bytes ≤ uds_dgram_buf_capacity
      → accept stream_of (datagram bytes fd)
        ≡ ok (record { stream = stream; initial_bytes = bytes })
  unfolding run_steps accept
  accept-fits bytes fd stream is h =
      let (rest, e) = good.fits uds_dgram_buf_capacity bytes fd h in
      rw (e, is, take-length_append bytes rest) refl

  -- A datagram that does not fit is refused whole.
  accept-truncated :
      (bytes : Bytes) (fd : Fd)
      → uds_dgram_buf_capacity < length bytes
      → accept stream_of (datagram bytes fd) ≡ err data_truncated
  unfolding run_steps accept
  accept-truncated bytes fd h = rw (good.truncates uds_dgram_buf_capacity bytes fd h) refl

  -- A first router has found a ClientHello in a connection, or that there is none. It passes the connection, with a
  -- descriptor that makes a stream, and with what it has read, no more than the buffer's 65536 bytes, to a second one. With
  -- a `recvmsg` that keeps its laws, the second router accepts that stream with these bytes, and comes to the same
  -- ClientHello, or to the same reason why there is none; and it then has all bytes that the client sent or will send.
  pub accept-read_tls_clienthello :
      (initial_bytes arriving : Bytes) (c : Connection) (hello : Hello) (fd : Fd) (stream : Stream)
      → read_tls_clienthello initial_bytes arriving ≡ ok (c, hello)
      → stream_of fd ≡ some stream
      → length c.bytes ≤ uds_dgram_buf_capacity
      → (accept stream_of (datagram c.bytes fd)
          ≡ ok (record { stream = stream; initial_bytes = c.bytes }))
        × ((c2 : Connection) × (read_tls_clienthello c.bytes c.stream ≡ ok (c2, hello))
            × (all_bytes c2 ≡ initial_bytes ++ arriving))
  accept-read_tls_clienthello initial_bytes arriving c hello fd stream read is fits =
      let kept = Post-eq (read_tls_clienthello-Post initial_bytes arriving) read in
      let ((c2, hello2), e, (same, found)) =
        Alike-ok (read_tls_clienthello-split initial_bytes arriving c.bytes c.stream (sym kept))
          read in
      (
        accept-fits c.bytes fd stream is fits,
        (
          c2,
          subst (λ (h : Hello). read_tls_clienthello c.bytes c.stream ≡ ok (c2, h)) (sym found) e,
          sym same ∙ kept,
        ),
      )
