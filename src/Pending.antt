-- ===== src/Pending.antt =====
-- `push_datagram` of `PendingConnection` in src/bin/sni-router-h3.rs, and the limits of what a client can make the router
-- buffer before its backend is known. A `usize` has 64 bits.
pub mod Limits
use sni_router.Prelude.{ℕ, ◌+◌, ◌*◌, ◌^◌, List, [], ◌∷◌, ◌++◌, ltb, leb, length}
use sni_router.Prelude.Outcomes.{Bytes, Outcome, ok, ◌>>=◌, ◌>>◌, bail_if}
use sni_router.Net.{SocketAddr}
use sni_router.Quic.Reassembly.{CryptoReassembly, empty_reassembly}

abbrev pub max_pending_datagrams : ℕ
max_pending_datagrams = 32

abbrev pub max_pending_bytes : ℕ
max_pending_bytes = 128 * 1024

pub data PendingError : Type 0 where
  too_many_datagrams byte_count_overflow too_many_bytes : PendingError

pub record PendingConnection : Type 0 where
  pub client_addr : SocketAddr
  pub initial_dcid : Bytes
  pub client_cids : List Bytes
  pub datagrams : List Bytes
  pub buffered_bytes : ℕ
  pub crypto : CryptoReassembly
  pub created : ℕ
  pub last_seen : ℕ

unfoldable pub new : SocketAddr → Bytes → ℕ → PendingConnection
new client_addr initial_dcid now = record {
  client_addr = client_addr;
  initial_dcid = initial_dcid;
  client_cids = [];
  datagrams = [];
  buffered_bytes = 0;
  crypto = empty_reassembly;
  created = now;
  last_seen = now;
}

unfoldable pub push_datagram : PendingConnection → Bytes → Outcome PendingError PendingConnection
push_datagram p datagram = do
  bail_if (leb max_pending_datagrams (length p.datagrams)) too_many_datagrams
  bail_if (leb (2 ^ 64) (p.buffered_bytes + length datagram)) byte_count_overflow
  bail_if (ltb max_pending_bytes (p.buffered_bytes + length datagram)) too_many_bytes
  ok (record p {
    buffered_bytes = p.buffered_bytes + length datagram;
    datagrams = p.datagrams ++ datagram ∷ [];
  })
