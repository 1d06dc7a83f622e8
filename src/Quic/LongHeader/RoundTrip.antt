-- ===== src/Quic/LongHeader/RoundTrip.antt =====
-- A long header as RFC 8999 lays it out, and that the parser reads back what was laid out.
use sni_router.Prelude.{
  ℕ, ◌+◌, ◌/◌, ◌%◌, ◌^◌, ◌≤◌, ◌<◌, ◌≡◌, refl, ◌∷◌, ◌++◌, some, arith, length, length-append,
}
use sni_router.Prelude.Outcomes.{Bytes, ok, ◌>>=◌, bail_if, index}
use sni_router.Prelude.Cursor.{At, At-zero, At-suc, At-append, At-length, index-At, slice-At}
use sni_router.Prelude.BigEndian.{to_be_bytes, big_endian}
use sni_router.Quic.Error.{QuicError}
use sni_router.Quic.LongHeader.{parse_long_packet_cids}

-- The first byte, the version, the two connection IDs behind their lengths, and what follows.
abbrev pub long_header : ℕ → ℕ → Bytes → Bytes → Bytes → Bytes
long_header first version dcid scid rest =
    first ∷ (to_be_bytes 4 version ++ (length dcid ∷ (dcid ++ (length scid ∷ (scid ++ rest)))))

version_bytes : (version : ℕ) → version < 2 ^ 32 → big_endian 0 (to_be_bytes 4 version) ≡ version
version_bytes version wide = omega arith

-- A header whose first byte has the long form bit, and whose version has 32 bits, is read back,
-- whatever stands behind it.
pub parse-long_header :
    (first version : ℕ) (dcid scid rest : Bytes)
    → 128 ≤ first
    → first < 256
    → version < 2 ^ 32
    → parse_long_packet_cids (long_header first version dcid scid rest)
      ≡ ok (
          some
            (record { version = version; packet_type = first / 16 % 4; dcid = dcid; scid = scid }))
unfolding parse_long_packet_cids ◌>>=◌ bail_if index
parse-long_header first version dcid scid rest bit byte wide =
    let packet = long_header first version dcid scid rest in
    let start = At-zero packet in
    let at_dcid : At packet 6 (dcid ++ (length scid ∷ (scid ++ rest))) = record {
      inside = omega arith;
      ahead = refl;
    } in
    let at_len = At-append dcid (length scid ∷ (scid ++ rest)) (6 + length dcid) at_dcid refl in
    let at_scid = At-suc (6 + length dcid + 1) at_len refl in
    let size = At-length packet _ _ at_scid in
    ground (
      arith,
      length-append scid rest,
      version_bytes version,
      slice-At {E = QuicError} 6 (6 + length dcid) dcid _ at_dcid refl,
      index-At {E = QuicError} at_len,
      slice-At {E = QuicError} (6 + length dcid + 1) (6 + length dcid + 1 + length scid) scid rest
          at_scid refl,
    )

-- What follows the header starts behind the second connection ID.
pub long_header-At :
    (first version : ℕ) (dcid scid rest : Bytes) (i : ℕ)
    → i ≡ 7 + length dcid + length scid
    → At (long_header first version dcid scid rest) i rest
long_header-At first version dcid scid rest i e =
    At-append scid rest i
      (At-suc (6 + length dcid + 1)
        (At-append dcid (length scid ∷ (scid ++ rest)) (6 + length dcid)
          (record { inside = omega arith; ahead = refl }) refl)
        refl)
      (omega arith)
