-- ===== src/Quic/Varint/Safety.antt =====
-- Where a variable-length integer is read: no panic, and the bytes of it lie within the buffer.
use native.Mathlib.Nat.{one-le-pow}
use sni_router.Prelude.{ℕ, ◌+◌, ◌/◌, ◌^◌, ◌≤◌, ◌<◌, tests, arith, length}
use sni_router.Prelude.Outcomes.{
  Bytes, Post, returns, Post-bind, Post-bail_if, Post-slice, Post-ok_or,
}
use sni_router.Quic.Varint.{read_varint_at, read_varint}

pow2_pos : (k : ℕ) → 1 ≤ 2 ^ k
pow2_pos k = one-le-pow k 2 (omega arith)

-- A read never panics, and what it read is at least one byte and ends within the buffer.
pub read_varint_at-Post :
    (buf : Bytes) (offset : ℕ)
    → Post (λ r. (1 ≤ r.1) × (offset + r.1 ≤ length buf)) (read_varint_at buf offset)
unfolding read_varint_at
read_varint_at-Post buf offset = Post-ok_or _ _ _ λ first e.
    let len = pow2_pos (first / 64) in
    Post-bail_if _ _ _ λ room.
      Post-slice _ _ _ _ (omega tests) (omega tests) λ rest _. returns (omega arith, omega tests)

pub read_varint-Post :
    (buf : Bytes) (offset : ℕ)
    → Post (λ r. (offset < r.1) × (r.1 ≤ length buf)) (read_varint buf offset)
unfolding read_varint
read_varint-Post buf offset =
    Post-bind _ _ (read_varint_at-Post buf offset) λ (v, len) h. returns (omega arith, omega arith)
