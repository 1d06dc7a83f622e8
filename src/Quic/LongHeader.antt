-- ===== src/Quic/LongHeader.antt =====
-- `LongPacketCids` and `parse_long_packet_cids` of src/bin/sni-router-h3.rs.
pub mod Safety
pub mod RoundTrip
use sni_router.Prelude.{
  ℕ, ◌+◌, ◌/◌, ◌%◌, Bool, true, List, [], ◌∷◌, Option, none, some, ltb, nat_eq, length,
  if◌then◌else◌,
}
use sni_router.Prelude.Outcomes.{Bytes, Outcome, ok, err, ◌>>=◌, ◌>>◌, bail_if, index, slice}
use sni_router.Quic.Error.{QuicError, truncated_long_header, truncated_dcid, truncated_scid}
use sni_router.Prelude.BigEndian.{big_endian}

pub record LongPacketCids : Type 0 where
  pub version : ℕ
  pub packet_type : ℕ
  pub dcid : Bytes
  pub scid : Bytes

-- `packet.first().is_none_or(|first| first & 0x80 == 0)`
abbrev pub is_short : Bytes → Bool
is_short [] = true
is_short (first ∷ _) = nat_eq (first / 128 % 2) 0

-- The fields behind the test of the first bit. `(first & 0x30) >> 4` is `first / 16 % 4`.
pub parse_long_fields : Bytes → Outcome QuicError (Option LongPacketCids)
parse_long_fields packet = do
  bail_if (ltb (length packet) 7) truncated_long_header
  first ← index packet 0
  v0 ← index packet 1
  v1 ← index packet 2
  v2 ← index packet 3
  v3 ← index packet 4
  dcid_len ← index packet 5
  bail_if (ltb (length packet) (6 + dcid_len + 1)) truncated_dcid
  dcid ← slice packet 6 (6 + dcid_len)
  scid_len ← index packet (6 + dcid_len)
  bail_if (ltb (length packet) (6 + dcid_len + 1 + scid_len)) truncated_scid
  scid ← slice packet (6 + dcid_len + 1) (6 + dcid_len + 1 + scid_len)
  ok (
      some (record {
        version = big_endian 0 (v0 ∷ v1 ∷ v2 ∷ v3 ∷ []);
        packet_type = first / 16 % 4;
        dcid = dcid;
        scid = scid;
      }))

unfoldable pub parse_long_packet_cids : Bytes → Outcome QuicError (Option LongPacketCids)
unfolding parse_long_fields
parse_long_packet_cids packet = if is_short packet then ok none else parse_long_fields packet
