-- ===== src/Quic/Varint/RoundTrip.antt =====
-- What the encoder writes, the reader reads back, at any offset and whatever follows.
use sni_router.Prelude.{
  ℕ, suc, ◌+◌, ◌/◌, ◌%◌, ◌^◌, ◌≤◌, ◌<◌, ◌≡◌, refl, ap, inl, inr, ◌∙◌, [], ◌∷◌, ◌++◌, Bool-cases,
  ltb, tests, arith, length, length-append,
}
use sni_router.Prelude.Outcomes.{Bytes, ok, ◌>>=◌, bail_if, ok_or}
use sni_router.Prelude.Cursor.{At, At-suc, At-length, get_elem?-At, slice-At}
use sni_router.Quic.Error.{QuicError}
use sni_router.Prelude.BigEndian.{big_endian, to_be_bytes}
use sni_router.Quic.Varint.{read_varint_at, read_varint, encode_varint}

read-At :
    (buf : Bytes) (offset first : ℕ) (tail rest : Bytes) (k : ℕ)
    → first / 64 ≡ k
    → 2 ^ k ≡ suc (length tail)
    → At buf offset (first ∷ (tail ++ rest))
    → read_varint_at buf offset ≡ ok (big_endian (first % 64) tail, suc (length tail))
unfolding read_varint_at ◌>>=◌ bail_if ok_or
read-At buf offset first tail rest k e size at =
    let here = get_elem?-At buf offset first (tail ++ rest) at.ahead in
    let width : 2 ^ (first / 64) ≡ suc (length tail) = rw e size in
    rw (here, read_varint_at)
      (rw width (
        ground (
          arith,
          At-length buf offset (first ∷ (tail ++ rest)) at,
          length-append tail rest,
          slice-At {E = QuicError} (offset + 1) (offset + suc (length tail)) tail rest
              (At-suc (offset + 1) at refl) (omega arith),
        )))

record Encodes (value : ℕ) (bytes : Bytes) : Type 0 where
  first : ℕ
  tail : Bytes
  bits : ℕ
  splits : bytes ≡ first ∷ tail
  prefix : first / 64 ≡ bits
  size : 2 ^ bits ≡ suc (length tail)
  reads : big_endian (first % 64) tail ≡ value

abbrev shifted : ℕ → ℕ → ℕ → Bytes
shifted n value mark = to_be_bytes n (value + mark)

two_bytes : (value : ℕ) → value < 16_384 → Encodes value (to_be_bytes 2 (value + 0x4000))
two_bytes value h = record {
  first = (value + 0x4000) / 256 % 256;
  tail = to_be_bytes 1 (value + 0x4000);
  bits = 1;
  splits = refl;
  prefix = omega arith;
  size = refl;
  reads = omega arith;
}

four_bytes :
    (value : ℕ) → value < 1_073_741_824 → Encodes value (to_be_bytes 4 (value + 0x8000_0000))
four_bytes value h = record {
  first = (value + 0x8000_0000) / 256 ^ 3 % 256;
  tail = to_be_bytes 3 (value + 0x8000_0000);
  bits = 2;
  splits = refl;
  prefix = omega arith;
  size = refl;
  reads = omega arith;
}

eight_bytes :
    (value : ℕ) → value < 2 ^ 62 → Encodes value (to_be_bytes 8 (value + 0xc000_0000_0000_0000))
eight_bytes value h = record {
  first = (value + 0xc000_0000_0000_0000) / 256 ^ 7 % 256;
  tail = to_be_bytes 7 (value + 0xc000_0000_0000_0000);
  bits = 3;
  splits = refl;
  prefix = omega arith;
  size = refl;
  reads = omega arith;
}

encode_varint-Encodes : (value : ℕ) → value < 2 ^ 62 → Encodes value (encode_varint value)
unfolding encode_varint
encode_varint-Encodes value small = elim (Bool-cases (ltb value 64)) [
  | inl one ↦ rw one (record {
    first = value;
    tail = [];
    bits = 0;
    splits = refl;
    prefix = omega tests;
    size = refl;
    reads = omega tests;
  })
  | inr more ↦ rw more (elim (Bool-cases (ltb value 16_384)) [
    | inl two ↦ rw two (two_bytes value (omega tests))
    | inr more' ↦ rw more' (elim (Bool-cases (ltb value 1_073_741_824)) [
      | inl four ↦ rw four (four_bytes value (omega tests))
      | inr eight ↦ rw eight (eight_bytes value small)
    ])
  ])
]

read_Encodes :
    (buf : Bytes) (offset value : ℕ) (bytes rest : Bytes)
    → Encodes value bytes
    → At buf offset (bytes ++ rest)
    → read_varint_at buf offset ≡ ok (value, length bytes)
read_Encodes buf offset value bytes rest e at = rw e.splits (
    read-At buf offset e.first e.tail rest e.bits e.prefix e.size (rw e.splits at at)
    ∙ ap (λ v. ok (v, suc (length e.tail))) e.reads)

-- Every value of 62 bits is read back from its encoding, with the encoding's length.
pub read_varint_at-encode_varint :
    (buf : Bytes) (offset value : ℕ) (rest : Bytes)
    → value < 2 ^ 62
    → At buf offset (encode_varint value ++ rest)
    → read_varint_at buf offset ≡ ok (value, length (encode_varint value))
read_varint_at-encode_varint buf offset value rest small at =
    read_Encodes buf offset value (encode_varint value) rest (encode_varint-Encodes value small) at

-- A value below 2 ^ 62 that stands encoded at the offset is read back, and behind it the reader stands
-- where the rest begins.
pub read_varint-encode_varint :
    (buf : Bytes) (offset value : ℕ) (rest : Bytes)
    → value < 2 ^ 62
    → At buf offset (encode_varint value ++ rest)
    → read_varint buf offset ≡ ok (value, offset + length (encode_varint value))
unfolding read_varint ◌>>=◌
read_varint-encode_varint buf offset value rest small at =
    rw (read_varint_at-encode_varint buf offset value rest small at)

pub encode_varint-pos : (value : ℕ) → 1 ≤ length (encode_varint value)
unfolding encode_varint
encode_varint-pos value = ground arith
