-- ===== src/Quic/InitialHeader/RoundTrip.antt =====
-- An Initial packet as RFC 9000 lays it out, and that the parser finds its parts.
use sni_router.Prelude.{ℕ, ◌+◌, ◌^◌, ◌≤◌, ◌<◌, ◌≡◌, refl, ◌++◌, arith, length, length-append}
use sni_router.Prelude.Outcomes.{Bytes, ok, ◌>>=◌, bail_if, ok_or}
use sni_router.Prelude.Cursor.{At, At-append, At-length}
use sni_router.Quic.InitialHeader.{parse_token_and_length, parse_initial_header}
use sni_router.Quic.LongHeader.{LongPacketCids}
use sni_router.Quic.LongHeader.RoundTrip.{long_header, parse-long_header, long_header-At}
use sni_router.Quic.Varint.{encode_varint}
use sni_router.Quic.Varint.RoundTrip.{read_varint_at-encode_varint}

-- The token behind its length, the length of the rest of the packet, that rest, and what is coalesced
-- behind it in the datagram.
abbrev pub token_and_length : Bytes → Bytes → Bytes → Bytes
token_and_length token body coalesced =
    encode_varint (length token) ++ (token ++ (encode_varint (length body) ++ (body ++ coalesced)))

abbrev pub initial_packet : ℕ → Bytes → Bytes → Bytes → Bytes → Bytes → Bytes
initial_packet first dcid scid token body coalesced =
    long_header first 1 dcid scid (token_and_length token body coalesced)

-- Where the body of such a packet starts.
abbrev pub body_offset : Bytes → Bytes → Bytes → Bytes → ℕ
body_offset dcid scid token body =
    7
    + length dcid
    + length scid
    + length (encode_varint (length token))
    + length token
    + length (encode_varint (length body))

parse_token_and_length-eq :
    (packet : Bytes) (cids : LongPacketCids) (i : ℕ) (token body coalesced : Bytes)
    → length token < 2 ^ 62
    → length body < 2 ^ 62
    → At packet i (token_and_length token body coalesced)
    → let start =
        i
        + length (encode_varint (length token))
        + length token
        + length (encode_varint (length body)) in
      parse_token_and_length packet cids i
      ≡ ok (record { cids = cids; packet_number_offset = start; packet_end = start + length body })
unfolding parse_token_and_length ◌>>=◌ bail_if
parse_token_and_length-eq packet cids i token body coalesced t b at =
    let e1 = read_varint_at-encode_varint packet i (length token) _ t at in
    let j = i + length (encode_varint (length token)) in
    let at1 = At-append (encode_varint (length token)) _ j at refl in
    let at2 = At-append token _ (j + length token) at1 refl in
    let e2 = read_varint_at-encode_varint packet (j + length token) (length body) _ b at2 in
    let at3 =
      At-append (encode_varint (length body)) (body ++ coalesced)
        (j + length token + length (encode_varint (length body))) at2 refl in
    rw (e1, parse_token_and_length)
      (ground (
        arith,
        e2,
        At-length packet _ _ at2,
        At-length packet _ _ at3,
        length-append body coalesced,
      ))

-- The parser finds the body of every QUIC v1 Initial packet, whatever is coalesced behind it: of a
-- first byte from 192 to 207, and of a token and a body below 2 ^ 62 bytes.
pub parse-initial_packet :
    (first : ℕ) (dcid scid token body coalesced : Bytes)
    → 192 ≤ first
    → first < 208
    → length token < 2 ^ 62
    → length body < 2 ^ 62
    → parse_initial_header (initial_packet first dcid scid token body coalesced)
      ≡ ok (record {
        cids = record { version = 1; packet_type = 0; dcid = dcid; scid = scid };
        packet_number_offset = body_offset dcid scid token body;
        packet_end = body_offset dcid scid token body + length body;
      })
unfolding parse_initial_header ◌>>=◌ bail_if ok_or
parse-initial_packet first dcid scid token body coalesced lo hi t b =
    let packet = initial_packet first dcid scid token body coalesced in
    let rest = token_and_length token body coalesced in
    let i = 5 + 1 + length dcid + 1 + length scid in
    let at = long_header-At first 1 dcid scid rest i (omega arith) in
    ground (
      arith,
      parse-long_header first 1 dcid scid rest,
      parse_token_and_length-eq packet
          (record { version = 1; packet_type = 0; dcid = dcid; scid = scid }) i token body coalesced
          t b at,
    )
