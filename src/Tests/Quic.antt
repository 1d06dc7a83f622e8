-- ===== src/Tests/Quic.antt =====
-- Runs of the packet parsers and of the reassembly, and the inputs at which their theorems apply.
use sni_router.Prelude.{
  ℕ, ◌+◌, ◌≤◌, ◌<◌, ◌≡◌, refl, inl, inr, Bool-cases, List, [], ◌∷◌, ◌++◌, some, ltb, take, length,
  tests, arith,
}
use sni_router.Prelude.BigEndian.{client_hello}
use sni_router.Prelude.Outcomes.{Bytes, ok, Post, run_steps}
use sni_router.Quic.Varint.{read_varint_at, read_varint, encode_varint}
use sni_router.Quic.Varint.RoundTrip.{read_varint-encode_varint}
use sni_router.Quic.InitialHeader.{parse_initial_header}
use sni_router.Quic.InitialHeader.RoundTrip.{initial_packet, body_offset, parse-initial_packet}
use sni_router.Quic.Frames.{read_crypto_frames}
use sni_router.Quic.Frames.Written.{Frame, padding, ack, crypto, application_close, write_frames}
use sni_router.Quic.Frames.RoundTrip.{read_crypto_frames-write_frames}
use sni_router.Quic.Reassembly.{CryptoReassembly, Fragments, empty_reassembly, insert, clienthello}
use sni_router.Quic.Reassembly.Fragments.{Covers}
use sni_router.Quic.Reassembly.Invariant.{Inserted, insert-Post}
use sni_router.Quic.Reassembly.Stream.{insert_all}
use sni_router.Quic.Reassembly.Complete.{insert_all-prefix, clienthello-insert_all}

-- 37 in two bytes, and in one.
read_varint-two_bytes : read_varint (0x40 ∷ 0x25 ∷ []) 0 ≡ ok (37, 2)
unfolding run_steps read_varint read_varint_at
read_varint-two_bytes = refl

encode_varint-one_byte : encode_varint 37 ≡ 37 ∷ []
unfolding encode_varint
encode_varint-one_byte = refl

read_varint-encode_varint_example :
    read_varint (9 ∷ (encode_varint 15293 ++ 7 ∷ [])) 1
    ≡ ok (15293, 1 + length (encode_varint 15293))
read_varint-encode_varint_example =
    read_varint-encode_varint (9 ∷ (encode_varint 15293 ++ 7 ∷ [])) 1 15293 (7 ∷ []) (omega arith)
      (record { inside = omega arith; ahead = refl })

parse-initial_packet_example :
    parse_initial_header (initial_packet 0xc3 (8 ∷ []) (5 ∷ []) (4 ∷ []) (1 ∷ 2 ∷ 3 ∷ []) (0 ∷ []))
    ≡ ok (record {
      cids = record { version = 1; packet_type = 0; dcid = 8 ∷ []; scid = 5 ∷ [] };
      packet_number_offset = body_offset (8 ∷ []) (5 ∷ []) (4 ∷ []) (1 ∷ 2 ∷ 3 ∷ []);
      packet_end = body_offset (8 ∷ []) (5 ∷ []) (4 ∷ []) (1 ∷ 2 ∷ 3 ∷ []) + 3;
    })
parse-initial_packet_example =
    parse-initial_packet 0xc3 (8 ∷ []) (5 ∷ []) (4 ∷ []) (1 ∷ 2 ∷ 3 ∷ []) (0 ∷ []) (omega arith)
      (omega arith) (omega arith) (omega arith)

abbrev sample_frames : List Frame
sample_frames =
    padding
    ∷ ack 7 0 ((1, 2) ∷ []) 3
    ∷ crypto 4 (7 ∷ 8 ∷ [])
    ∷ application_close 1 []
    ∷ crypto 0 (1 ∷ 0 ∷ [])
    ∷ []

read_crypto_frames-write_frames_example :
    read_crypto_frames (write_frames sample_frames) ≡ ok ((4, 7 ∷ 8 ∷ []) ∷ (0, 1 ∷ 0 ∷ []) ∷ [])
read_crypto_frames-write_frames_example = read_crypto_frames-write_frames sample_frames (
  tt,
  (
    (omega arith, omega arith, omega arith, omega arith, (omega arith, omega arith, tt)),
    ((omega arith, omega arith), ((omega arith, omega arith), ((omega arith, omega arith), tt))),
  ),
)

-- A ClientHello with a body of three bytes, and the byte behind it in the stream.
abbrev sample_stream : Bytes
sample_stream = client_hello (7 ∷ 8 ∷ 9 ∷ []) ++ 5 ∷ []

-- The end comes first, and the frames overlap.
abbrev sample_fragments : Fragments
sample_fragments = (4, 7 ∷ 8 ∷ 9 ∷ 5 ∷ []) ∷ (0, 1 ∷ 0 ∷ 0 ∷ 3 ∷ 7 ∷ []) ∷ []

sample-Covers : (p : ℕ) → p < 7 → Covers p sample_fragments
sample-Covers p h = elim (Bool-cases (ltb p 4)) [
  | inl e ↦ inr (inl (omega tests, omega tests))
  | inr e ↦ inl (omega tests, omega tests)
]

insert_all-prefix_example :
    (r : CryptoReassembly) × (insert_all empty_reassembly sample_fragments ≡ ok r)
    × (7 ≤ length r.bytes)
    × (r.bytes ≡ take (length r.bytes) sample_stream)
insert_all-prefix_example =
    insert_all-prefix sample_stream sample_fragments 7 (omega arith)
      ((omega arith, refl), ((omega arith, refl), tt)) sample-Covers

clienthello-insert_all_example :
    (r : CryptoReassembly) × (insert_all empty_reassembly sample_fragments ≡ ok r)
    × (clienthello r ≡ ok (some (client_hello (7 ∷ 8 ∷ 9 ∷ []))))
clienthello-insert_all_example =
    clienthello-insert_all (7 ∷ 8 ∷ 9 ∷ []) (5 ∷ []) sample_fragments (omega arith) (omega arith)
      ((omega arith, refl), ((omega arith, refl), tt)) sample-Covers

insert-out_of_order :
    insert empty_reassembly 4 (7 ∷ 8 ∷ [])
    ≡ ok (record { bytes = []; fragments = (4, 7 ∷ 8 ∷ []) ∷ [] })
unfolding run_steps insert
insert-out_of_order = refl

insert-Post_example :
    Post (Inserted empty_reassembly 4 (7 ∷ 8 ∷ [])) (insert empty_reassembly 4 (7 ∷ 8 ∷ []))
insert-Post_example =
    insert-Post empty_reassembly 4 (7 ∷ 8 ∷ []) (record { ascending = tt; bounded = omega arith })
