-- ===== src/Quic/InitialHeader.antt =====
-- `InitialHeader` and `parse_initial_header` of src/bin/sni-router-h3.rs. A length is below 2 ^ 62, so
-- `usize::try_from` succeeds and `checked_add` does not overflow on a 64-bit `usize`.
pub mod Safety
pub mod RoundTrip
use sni_router.Prelude.{ℕ, ◌+◌, Option, none, some, ltb, nat_eq, not, length}
use sni_router.Prelude.Outcomes.{Bytes, Outcome, ok, ◌>>=◌, ◌>>◌, bail_if, ok_or}
use sni_router.Quic.Error.{
  QuicError, not_long_header, unsupported_version, not_initial, truncated_token, truncated_payload,
}
use sni_router.Quic.LongHeader.{LongPacketCids, parse_long_packet_cids}
use sni_router.Quic.Varint.{read_varint_at}

abbrev pub quic_version_1 : ℕ
quic_version_1 = 1

abbrev pub quic_packet_type_initial : ℕ
quic_packet_type_initial = 0

pub record InitialHeader : Type 0 where
  pub cids : LongPacketCids
  pub packet_number_offset : ℕ
  pub packet_end : ℕ

-- The token and the length field, from the position behind the connection IDs.
pub parse_token_and_length : Bytes → LongPacketCids → ℕ → Outcome QuicError InitialHeader
parse_token_and_length packet cids i = do
  (token_len, token_len_len) ← read_varint_at packet i
  bail_if (ltb (length packet) (i + token_len_len + token_len)) truncated_token
  (packet_len, packet_len_len) ← read_varint_at packet (i + token_len_len + token_len)
  let start = i + token_len_len + token_len + packet_len_len
  bail_if (ltb (length packet) (start + packet_len)) truncated_payload
  ok (record { cids = cids; packet_number_offset = start; packet_end = start + packet_len })

unfoldable pub parse_initial_header : Bytes → Outcome QuicError InitialHeader
unfolding parse_token_and_length
parse_initial_header packet = do
  parsed ← parse_long_packet_cids packet
  cids ← ok_or parsed not_long_header
  bail_if (not (nat_eq cids.version quic_version_1)) unsupported_version
  bail_if (not (nat_eq cids.packet_type quic_packet_type_initial)) not_initial
  parse_token_and_length packet cids (5 + 1 + length cids.dcid + 1 + length cids.scid)
