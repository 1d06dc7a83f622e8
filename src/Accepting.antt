-- ===== src/Accepting.antt =====
-- `recv_fd_over_uds_now`, `tcp_stream_from_received_fd` and `IngressListener::accept` of src/main.rs: a connection from a
-- TCP listener, or from a datagram with its descriptor and the bytes that another process has read of it.
pub mod HandOver
use sni_router.Prelude.{ℕ, Bool, true, false, List, [], ◌∷◌, Option, none, some, take}
use sni_router.Prelude.Outcomes.{Bytes, Outcome, ok, err, ◌>>=◌, ◌>>◌, bail_if, ok_or}

abbrev pub uds_dgram_buf_capacity : ℕ
uds_dgram_buf_capacity = 65536

-- What `recvmsg` has done: the buffer, how many bytes of it were written, the two flags, and the descriptors.
pub record Message (Fd : Type 0) : Type 0 where
  pub buf : Bytes
  pub bytes : ℕ
  pub is_truncated : Bool
  pub is_control_truncated : Bool
  pub fds : List Fd

pub data Received (Fd : Type 0) : Type 0 where
  again os_error bad_control : Received Fd
  message : Message Fd → Received Fd

pub data AcceptError : Type 0 where
  would_block system_error data_truncated control_truncated fd_count bad_stream : AcceptError

-- `fds.pop().unwrap()`, where there is exactly one.
abbrev pub single_fd : {Fd : Type 0} → List Fd → Option Fd
single_fd [] = none
single_fd (fd ∷ []) = some fd
single_fd (fd ∷ fd2 ∷ fds) = none

-- An answer that is no message.
abbrev pub message_of : {Fd : Type 0} → Received Fd → Outcome AcceptError (Message Fd)
message_of again = err would_block
message_of os_error = err system_error
message_of bad_control = err system_error
message_of (message m) = ok m

-- `stream_of` makes a stream of a descriptor that is one.
module _ {Fd Stream : Type 0} (stream_of : Fd → Option Stream) where
  unfoldable pub recv_fd_over_uds_now : Received Fd → Outcome AcceptError (Stream × Bytes)
  recv_fd_over_uds_now received = do
    msg ← message_of received
    bail_if msg.is_truncated data_truncated
    bail_if msg.is_control_truncated control_truncated
    fd ← ok_or (single_fd msg.fds) fd_count
    stream ← ok_or (stream_of fd) bad_stream
    ok (stream, take msg.bytes msg.buf)

-- The peer's name is left out.
pub record AcceptedConnection (Stream : Type 0) : Type 0 where
  pub stream : Stream
  pub initial_bytes : Bytes

-- What a listener has: the stream of `accept`, or what `recvmsg` answers.
pub data Incoming (Fd Stream : Type 0) : Type 0 where
  tcp : Option Stream → Incoming Fd Stream
  unix_datagram : Received Fd → Incoming Fd Stream

unfoldable pub accept :
    {Fd Stream : Type 0}
    → (Fd → Option Stream)
    → Incoming Fd Stream
    → Outcome AcceptError (AcceptedConnection Stream)
unfolding recv_fd_over_uds_now
accept stream_of (tcp accepted) = do
  stream ← ok_or accepted system_error
  ok (record { stream = stream; initial_bytes = [] })
accept stream_of (unix_datagram received) = do
  (stream, initial_bytes) ← recv_fd_over_uds_now stream_of received
  ok (record { stream = stream; initial_bytes = initial_bytes })
