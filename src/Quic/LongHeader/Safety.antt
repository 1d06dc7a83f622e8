-- ===== src/Quic/LongHeader/Safety.antt =====
-- Parsing a long header never panics, whatever the datagram holds.
use sni_router.Prelude.{◌+◌, ◌≤◌, Option, none, some, inl, inr, Bool-cases, tests, arith, length}
use sni_router.Prelude.Outcomes.{Bytes, Post, returns, Post-bail_if, Post-index, Post-slice}
use sni_router.Quic.LongHeader.{LongPacketCids, is_short, parse_long_fields, parse_long_packet_cids}

-- The connection IDs and their fixed fields lie within the packet.
abbrev pub FitsIn : Bytes → Option LongPacketCids → Type 0
FitsIn packet none = Unit
FitsIn packet (some cids) = 7 + length cids.dcid + length cids.scid ≤ length packet

parse_long_fields-Post : (packet : Bytes) → Post (FitsIn packet) (parse_long_fields packet)
unfolding parse_long_fields
parse_long_fields-Post packet = Post-bail_if _ _ _ λ long. Post-index _ _ _ (omega tests) λ first.
    Post-index _ _ _ (omega tests) λ v0. Post-index _ _ _ (omega tests) λ v1.
      Post-index _ _ _ (omega tests) λ v2. Post-index _ _ _ (omega tests) λ v3.
        Post-index _ _ _ (omega tests) λ dcid_len. Post-bail_if _ _ _ λ room.
          Post-slice _ _ _ _ (omega arith) (omega tests) λ dcid d.
            Post-index _ _ _ (omega tests) λ scid_len.
              Post-bail_if _ _ _ λ more.
                Post-slice _ _ _ _ (omega arith) (omega tests) λ scid s. returns (omega tests)

-- No panic on any datagram, and what was parsed lies within it.
pub parse_long_packet_cids-Post :
    (packet : Bytes) → Post (FitsIn packet) (parse_long_packet_cids packet)
unfolding parse_long_packet_cids
parse_long_packet_cids-Post packet = elim (Bool-cases (is_short packet)) [
  | inl short ↦ rw short (returns tt)
  | inr long ↦ rw long (parse_long_fields-Post packet)
]
