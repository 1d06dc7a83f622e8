-- ===== src/Quic/Varint.antt =====
-- `read_varint_at` and `read_varint` of src/bin/sni-router-h3.rs, and the encoder of its tests.
pub mod Safety
pub mod RoundTrip
use sni_router.Prelude.{
  ℕ, zero, suc, ◌+◌, ◌*◌, ◌/◌, ◌%◌, ◌^◌, List, [], ◌∷◌, ltb, length, get_elem?, if◌then◌else◌,
}
use sni_router.Prelude.Outcomes.{Bytes, Outcome, ok, ◌>>=◌, ◌>>◌, bail_if, ok_or, slice}
use sni_router.Prelude.BigEndian.{big_endian, to_be_bytes}
use sni_router.Quic.Error.{QuicError, missing_varint, truncated_varint}

-- `first >> 6` is `first / 64` and `first & 0x3f` is `first % 64`.
unfoldable pub read_varint_at : Bytes → ℕ → Outcome QuicError (ℕ × ℕ)
read_varint_at buf offset = do
  first ← ok_or (get_elem? buf offset) missing_varint
  let len = 2 ^ (first / 64)
  bail_if (ltb (length buf) (offset + len)) truncated_varint
  rest ← slice buf (offset + 1) (offset + len)
  ok (big_endian (first % 64) rest, len)

-- The value, and the offset that the source writes back through `&mut`.
unfoldable pub read_varint : Bytes → ℕ → Outcome QuicError (ℕ × ℕ)
read_varint buf offset = do (value, len) ← read_varint_at buf offset; ok (value, offset + len)

-- The length bits are above every bit of the value, so `|` is `+`.
unfoldable pub encode_varint : ℕ → Bytes
encode_varint value =
    if ltb value 64
    then value ∷ []
    else if ltb value 16_384
    then to_be_bytes 2 (value + 0x4000)
    else if ltb value 1_073_741_824
    then to_be_bytes 4 (value + 0x8000_0000)
    else to_be_bytes 8 (value + 0xc000_0000_0000_0000)
