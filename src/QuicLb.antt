-- ===== src/QuicLb.antt =====
-- `Codec` of src/quic_lb.rs: connection IDs that carry an encrypted server ID. The cipher is AES-128 on blocks of 16 bytes,
-- which a library implements: its two directions are parameters.
pub mod RoundTrip
pub mod KeyFile
use sni_router.Prelude.{
  ℕ, ◌+◌, ◌-◌, ◌*◌, ◌/◌, ◌%◌, ◌||◌, not, List, [], ◌∷◌, Option, none, some, ltb, leb, nat_eq,
  length, true, false, Bool, ◌&&◌, if◌then◌else◌,
}
use sni_router.Prelude.Outcomes.{Bytes, Outcome, ok, err, ◌>>=◌, ◌>>◌, bail_if, ok_or}

abbrev pub cid_len : ℕ
cid_len = 17

pub data CodecError : Type 0 where
  config_id_range unreadable_key bad_key : CodecError

pub record Codec (Cipher : Type 0) : Type 0 where
  pub config_id : ℕ
  pub cipher : Cipher

-- `new`, where `cipher` is what `Aes128::new` made of the key.
unfoldable pub new : {Cipher : Type 0} → ℕ → Cipher → Outcome CodecError (Codec Cipher)
new config_id cipher =
    if ltb config_id 7
    then ok (record { config_id = config_id; cipher = cipher })
    else err config_id_range

module _ {Cipher : Type 0} (encrypt_block decrypt_block : Cipher → Bytes → Bytes) where
  -- `(config_id << 5) | 16` on a byte, of which the two parts share no bit.
  unfoldable pub encrypt : Codec Cipher → Bytes → Bytes
  encrypt codec plaintext = (codec.config_id * 32 % 256 + 16) ∷ encrypt_block codec.cipher plaintext

  -- The first byte is read only where the length is right.
  unfoldable pub decrypt : Codec Cipher → Bytes → Option Bytes
  decrypt codec [] = none
  decrypt codec (first ∷ block) =
      if not (nat_eq (length (first ∷ block)) cid_len) || not (nat_eq (first / 32) codec.config_id)
      then none
      else some (decrypt_block codec.cipher block)

-- `is_ascii_hexdigit`
abbrev pub is_ascii_hexdigit : ℕ → Bool
is_ascii_hexdigit b = leb 48 b && leb b 57 || leb 65 b && leb b 70 || leb 97 b && leb b 102

abbrev pub all_hexdigits : Bytes → Bool
all_hexdigits [] = true
all_hexdigits (b ∷ bytes) = is_ascii_hexdigit b && all_hexdigits bytes

-- The value of a hexadecimal digit.
abbrev pub digit_of : ℕ → ℕ
digit_of b = if leb b 57 then b - 48 else if leb b 70 then b - 55 else b - 87

-- `u8::from_str_radix(.., 16)` on each two digits.
abbrev pub key_bytes : Bytes → Bytes
key_bytes [] = []
key_bytes (high ∷ []) = []
key_bytes (high ∷ low ∷ rest) = (digit_of high * 16 + digit_of low) ∷ key_bytes rest

-- `from_key_file`, on what reading the file returns, with `str::trim` and `Aes128::new`.
unfoldable pub from_key_file :
    {Cipher : Type 0}
    → (Bytes → Bytes)
    → (Bytes → Cipher)
    → ℕ
    → Option Bytes
    → Outcome CodecError (Codec Cipher)
unfolding new
from_key_file trim aes_new config_id file = do
  text ← ok_or file unreadable_key
  bail_if (not (nat_eq (length (trim text)) 32 && all_hexdigits (trim text))) bad_key
  new config_id (aes_new (key_bytes (trim text)))
