-- ===== src/QuicLb/RoundTrip.antt =====
-- A connection ID is read by the codec that wrote it, and by no codec of another configuration.
use sni_router.Prelude.{ℕ, ◌<◌, ◌≡◌, ◌≢◌, none, some, length, arith}
use sni_router.Prelude.Outcomes.{Bytes, ok}
use sni_router.QuicLb.{Codec, new, encrypt, decrypt}

-- A cipher on blocks of 16 bytes.
pub record IsCipher {Cipher : Type 0} (encrypt_block decrypt_block : Cipher → Bytes → Bytes)
    : Type 0 where
  pub keeps_length :
      (c : Cipher) (block : Bytes) → length block ≡ 16 → length (encrypt_block c block) ≡ 16
  pub inverse :
      (c : Cipher) (block : Bytes)
      → length block ≡ 16
      → decrypt_block c (encrypt_block c block) ≡ block

new-config_id :
    {Cipher : Type 0} (config_id : ℕ) (cipher : Cipher) (codec : Codec Cipher)
    → new config_id cipher ≡ ok codec
    → (codec.config_id ≡ config_id) × (config_id < 7)
unfolding new
new-config_id config_id cipher codec h = ground arith

module _ {Cipher : Type 0} (encrypt_block decrypt_block : Cipher → Bytes → Bytes) where
  -- With a cipher that deciphers its own blocks of 16 bytes, a codec that `new` accepted reads back the block
  -- that it wrote into a connection ID.
  pub decrypt-encrypt :
      IsCipher encrypt_block decrypt_block
      → (config_id : ℕ) (cipher : Cipher) (codec : Codec Cipher) (plaintext : Bytes)
      → new config_id cipher ≡ ok codec
      → length plaintext ≡ 16
      → decrypt encrypt_block decrypt_block codec
          (encrypt encrypt_block decrypt_block codec plaintext)
        ≡ some plaintext
  unfolding encrypt decrypt
  decrypt-encrypt good config_id cipher codec plaintext made size =
      let (same, small) = new-config_id config_id cipher codec made in
      ground (
        arith,
        same,
        small,
        good.keeps_length codec.cipher plaintext size,
        good.inverse codec.cipher plaintext size,
      )

  -- A codec refuses the connection IDs of a codec of another configuration, whatever the ciphers.
  pub decrypt-other_config :
      (config_id other_id : ℕ) (cipher other_cipher : Cipher) (codec other : Codec Cipher)
      (plaintext : Bytes)
      → new config_id cipher ≡ ok codec
      → new other_id other_cipher ≡ ok other
      → config_id ≢ other_id
      → decrypt encrypt_block decrypt_block other
          (encrypt encrypt_block decrypt_block codec plaintext)
        ≡ none
  unfolding encrypt decrypt
  decrypt-other_config config_id other_id cipher other_cipher codec other plaintext made made_other
        differ =
      let (same, small) = new-config_id config_id cipher codec made in
      let (same', small') = new-config_id other_id other_cipher other made_other in
      ground (arith, same, small, same', small')
