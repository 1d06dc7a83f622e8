-- ===== src/Quic/Decrypt.antt =====
-- The decryption of an Initial packet: `hkdf_expand_label`, `initial_key_bytes`, `initial_keys`, `packet_nonce` and
-- `decrypt_initial_packet_with_dcid` of src/bin/sni-router-h3.rs. HKDF, AES-128-GCM and the header protection of
-- the ring library are parameters.
pub mod Safety
use Prim.Native.Nat.{bit_xor}
use sni_router.Prelude.{
  ℕ, zero, suc, ◌+◌, ◌-◌, ◌*◌, ◌%◌, List, [], ◌∷◌, ◌++◌, Option, none, some, ltb, nat_eq, length,
  take, drop, if◌then◌else◌,
}
use sni_router.Prelude.Outcomes.{
  Bytes, Outcome, ok, err, panic, ◌>>=◌, ◌>>◌, bail_if, ok_or, index, slice,
}
use sni_router.Prelude.BigEndian.{big_endian, to_be_bytes}
use sni_router.Quic.Error.{
  QuicError, label_too_long, hkdf_failed, key_failed, too_short_for_sample, header_protection,
  truncated_packet_number, decrypt_failed,
}
use sni_router.Quic.LongHeader.{LongPacketCids}
use sni_router.Quic.InitialHeader.{InitialHeader, parse_initial_header}

-- What ring provides. `expand` fills a buffer of the length that it is given.
pub record Ring : Type 1 where
  pub OpeningKey : Type 0
  pub HeaderKey : Type 0
  pub extract : Bytes → Bytes → Bytes
  pub expand : Bytes → Bytes → ℕ → Option Bytes
  pub opening_key : Bytes → Option OpeningKey
  pub header_key : Bytes → Option HeaderKey
  pub new_mask : HeaderKey → Bytes → Option Bytes
  pub open_in_place : OpeningKey → Bytes → Bytes → Bytes → Option Bytes

pub record DecryptedInitial : Type 0 where
  pub dcid : Bytes
  pub scid : Bytes
  pub payload : Bytes

pub record InitialKeyBytes : Type 0 where
  pub key : Bytes
  pub iv : Bytes
  pub hp : Bytes

-- `QUIC_V1_INITIAL_SALT`
abbrev pub quic_v1_initial_salt : Bytes
quic_v1_initial_salt =
    0x38 ∷ 0x76 ∷ 0x2c ∷ 0xf7 ∷ 0xf5 ∷ 0x59 ∷ 0x34 ∷ 0xb3 ∷ 0x4d ∷ 0x17 ∷ 0x9a ∷ 0xe6 ∷ 0xa4 ∷ 0xc8
    ∷ 0x0c ∷ 0xad ∷ 0xcc ∷ 0xbb ∷ 0x7f ∷ 0x0a ∷ []

-- "tls13 ", "client in", "quic key", "quic iv" and "quic hp".
abbrev tls13_label : Bytes
tls13_label = 116 ∷ 108 ∷ 115 ∷ 49 ∷ 51 ∷ 32 ∷ []

abbrev client_in : Bytes
client_in = 99 ∷ 108 ∷ 105 ∷ 101 ∷ 110 ∷ 116 ∷ 32 ∷ 105 ∷ 110 ∷ []

abbrev quic_key : Bytes
quic_key = 113 ∷ 117 ∷ 105 ∷ 99 ∷ 32 ∷ 107 ∷ 101 ∷ 121 ∷ []

abbrev quic_iv : Bytes
quic_iv = 113 ∷ 117 ∷ 105 ∷ 99 ∷ 32 ∷ 105 ∷ 118 ∷ []

abbrev quic_hp : Bytes
quic_hp = 113 ∷ 117 ∷ 105 ∷ 99 ∷ 32 ∷ 104 ∷ 112 ∷ []

-- `try_into().expect(..)` on a buffer that must have `size` bytes.
abbrev pub expect_size : ℕ → Bytes → Outcome QuicError Bytes
expect_size size bytes = if nat_eq (length bytes) size then ok bytes else panic

-- `for (dst, src) in nonce[4..].iter_mut().zip(packet_number.to_be_bytes())`
pub xor_each : Bytes → Bytes → Bytes
xor_each [] bytes = []
xor_each (dst ∷ dsts) [] = dst ∷ dsts
xor_each (dst ∷ dsts) (src ∷ srcs) = bit_xor dst src ∷ xor_each dsts srcs

unfoldable pub packet_nonce : Bytes → ℕ → Bytes
unfolding xor_each
packet_nonce iv packet_number = take 4 iv ++ xor_each (drop 4 iv) (to_be_bytes 8 packet_number)

-- The bytes of the packet number, each with its byte of the mask: `mask[i + 1]`.
pub unmask : Bytes → Bytes → Outcome QuicError Bytes
unmask mask [] = ok []
unmask [] (byte ∷ bytes) = panic
unmask (m ∷ mask) (byte ∷ bytes) = do rest ← unmask mask bytes; ok (bit_xor byte m ∷ rest)

-- `associated_data[0] = first`
abbrev pub set_first : ℕ → Bytes → Outcome QuicError Bytes
set_first first [] = panic
set_first first (_ ∷ bytes) = ok (first ∷ bytes)

module _ (ring : Ring) where
  open ring use {
    OpeningKey, HeaderKey, extract, expand, opening_key, header_key, new_mask, open_in_place,
  }

  pub hkdf_expand_label : Bytes → Bytes → ℕ → Outcome QuicError Bytes
  hkdf_expand_label secret label len = do
    bail_if (ltb 255 (6 + length label)) label_too_long
    bail_if (ltb 65535 len) label_too_long
    ok_or
        (expand secret
          (to_be_bytes 2 len ++ ((6 + length label) ∷ (tls13_label ++ (label ++ 0 ∷ [])))) len)
        hkdf_failed

  pub initial_key_bytes : Bytes → Outcome QuicError InitialKeyBytes
  initial_key_bytes dcid = do
    let initial_secret = extract quic_v1_initial_salt dcid
    client_initial_secret ← hkdf_expand_label initial_secret client_in 32
    key ← hkdf_expand_label client_initial_secret quic_key 16
    iv ← hkdf_expand_label client_initial_secret quic_iv 12
    hp ← hkdf_expand_label client_initial_secret quic_hp 16
    key' ← expect_size 16 key
    iv' ← expect_size 12 iv
    hp' ← expect_size 16 hp
    ok (record { key = key'; iv = iv'; hp = hp' })

  pub initial_keys : Bytes → Outcome QuicError (OpeningKey × HeaderKey × Bytes)
  initial_keys dcid = do
    bytes ← initial_key_bytes dcid
    opening ← ok_or (opening_key bytes.key) key_failed
    hp ← ok_or (header_key bytes.hp) key_failed
    ok (opening, hp, bytes.iv)

  -- The packet number and the associated data, once the mask is known. `first & 0x03` is `first % 4`.
  pub unprotect : Bytes → InitialHeader → Bytes → Outcome QuicError (ℕ × Bytes × ℕ)
  unprotect packet header mask = do
    p0 ← index packet 0
    m0 ← index mask 0
    let first = bit_xor p0 (m0 % 16)
    let packet_number_end = header.packet_number_offset + (first % 4 + 1)
    bail_if (ltb header.packet_end packet_number_end) truncated_packet_number
    front ← slice packet 0 header.packet_number_offset
    front' ← set_first first front
    number ← slice packet header.packet_number_offset packet_number_end
    number' ← unmask (drop 1 mask) number
    ok (big_endian 0 number', front' ++ number', packet_number_end)

  unfoldable pub decrypt_initial_packet_with_dcid :
      Bytes → Option Bytes → Outcome QuicError DecryptedInitial
  unfolding unprotect initial_keys initial_key_bytes hkdf_expand_label unmask
  decrypt_initial_packet_with_dcid packet key_dcid = do
    header ← parse_initial_header packet
    (opening, hp, iv) ← initial_keys (elim key_dcid [ none ↦ header.cids.dcid | some dcid ↦ dcid ])
    let sample_offset = header.packet_number_offset + 4
    bail_if (ltb header.packet_end (sample_offset + 16)) too_short_for_sample
    sample ← slice packet sample_offset (sample_offset + 16)
    mask ← ok_or (new_mask hp sample) header_protection
    (packet_number, associated_data, packet_number_end) ← unprotect packet header mask
    payload ← slice packet packet_number_end header.packet_end
    plaintext ←
        ok_or (open_in_place opening (packet_nonce iv packet_number) associated_data payload)
          decrypt_failed
    ok (record { dcid = header.cids.dcid; scid = header.cids.scid; payload = plaintext })
