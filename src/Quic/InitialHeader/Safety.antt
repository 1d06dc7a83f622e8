-- ===== src/Quic/InitialHeader/Safety.antt =====
-- Parsing an Initial header never panics, and its offsets lie within the packet.
use sni_router.Prelude.{ℕ, ◌+◌, ◌≤◌, ◌≡◌, false, not, nat_eq, tests, arith, length}
use sni_router.Prelude.Outcomes.{Bytes, Post, returns, Post-bind, Post-ok_or, Post-bail_if}
use sni_router.Quic.InitialHeader.{InitialHeader, parse_token_and_length, parse_initial_header}
use sni_router.Quic.LongHeader.Safety.{parse_long_packet_cids-Post}
use sni_router.Quic.LongHeader.{LongPacketCids}
use sni_router.Quic.Varint.Safety.{read_varint_at-Post}

-- A header of QUIC v1, of type Initial, with its parts in order within the packet.
pub record IsWithin (packet : Bytes) (h : InitialHeader) : Type 0 where
  pub version_1 : h.cids.version ≡ 1
  pub initial : h.cids.packet_type ≡ 0
  pub behind_cids : 9 + length h.cids.dcid + length h.cids.scid ≤ h.packet_number_offset
  pub ordered : h.packet_number_offset ≤ h.packet_end
  pub inside : h.packet_end ≤ length packet

not-nat_eq : (a b : ℕ) → not (nat_eq a b) ≡ false → a ≡ b
not-nat_eq a b h = ground arith

parse_token_and_length-Post :
    (packet : Bytes) (cids : LongPacketCids) (i : ℕ)
    → 7 + length cids.dcid + length cids.scid ≡ i
    → cids.version ≡ 1
    → cids.packet_type ≡ 0
    → Post (IsWithin packet) (parse_token_and_length packet cids i)
unfolding parse_token_and_length
parse_token_and_length-Post packet cids i at v t =
    Post-bind _ _ (read_varint_at-Post packet i) λ (token_len, token_len_len) h.
      Post-bail_if _ _ _ λ token.
        Post-bind _ _ (read_varint_at-Post packet _) λ (packet_len, packet_len_len) k.
          Post-bail_if _ _ _ λ payload. returns (record {
            version_1 = v;
            initial = t;
            behind_cids = omega arith;
            ordered = omega arith;
            inside = omega tests;
          })

-- No panic on any datagram; a header that is accepted is in order within the packet.
pub parse_initial_header-Post :
    (packet : Bytes) → Post (IsWithin packet) (parse_initial_header packet)
unfolding parse_initial_header
parse_initial_header-Post packet = Post-bind _ _ (parse_long_packet_cids-Post packet) λ parsed _.
    Post-ok_or _ _ _ λ cids _. Post-bail_if _ _ _ λ v. Post-bail_if _ _ _ λ t.
      parse_token_and_length-Post packet cids _ (omega arith) (not-nat_eq _ 1 v) (not-nat_eq _ 0 t)
