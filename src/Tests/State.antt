-- ===== src/Tests/State.antt =====
-- Runs of the buffers of a pending connection, of the retries of accept and of the codec of connection IDs.
use sni_router.Prelude.{ℕ, ◌≡◌, refl, List, [], ◌∷◌, Option, none, some, arith}
use sni_router.Prelude.Outcomes.{Bytes, ok, err, Post, run_steps}
use sni_router.Net.{v4}
use sni_router.Pending
use sni_router.Pending.{PendingConnection, push_datagram}
use sni_router.Pending.Limits.{Bounded, push_datagram-Post}
use sni_router.Backoff.{ErrorKind, interrupted, other, default_backoff}
use sni_router.Backoff.Delays.{after_attempts, after_attempts-delay}
use sni_router.QuicLb
use sni_router.QuicLb.{Codec, CodecError, config_id_range, encrypt, decrypt}
use sni_router.QuicLb.RoundTrip.{decrypt-encrypt, decrypt-other_config}

abbrev one_pending : PendingConnection
one_pending = record {
  client_addr = v4 0xc0000201 5000;
  initial_dcid = 8 ∷ [];
  client_cids = [];
  datagrams = (1 ∷ 2 ∷ []) ∷ [];
  buffered_bytes = 2;
  crypto = record { bytes = []; fragments = [] };
  created = 10;
  last_seen = 10;
}

one_pending-Bounded : Bounded one_pending
one_pending-Bounded = record { exact = refl; few_bytes = omega arith; few_datagrams = omega arith }

new-push_datagram :
    push_datagram (Pending.new (v4 0xc0000201 5000) (8 ∷ []) 10) (1 ∷ 2 ∷ []) ≡ ok one_pending
unfolding run_steps push_datagram Pending.new
new-push_datagram = refl

push_datagram-Post_example :
    Post
      (λ r. Bounded r × (r.datagrams ≡ (1 ∷ 2 ∷ []) ∷ (3 ∷ []) ∷ []))
      (push_datagram one_pending (3 ∷ []))
push_datagram-Post_example = push_datagram-Post one_pending (3 ∷ []) one_pending-Bounded

abbrev attempts : List (Option ErrorKind × ℕ)
attempts =
    (some other, 5)
    ∷ (none, 200)
    ∷ (some other, 210)
    ∷ (some interrupted, 320)
    ∷ (some other, 330)
    ∷ []

after_attempts-delay_example : (after_attempts default_backoff attempts).delay ≡ 200
after_attempts-delay_example = after_attempts-delay attempts

-- The block as it is stands for a cipher.
abbrev no_cipher : ℕ → Bytes → Bytes
no_cipher key block = block

abbrev sample_block : Bytes
sample_block = 1 ∷ 2 ∷ 3 ∷ 4 ∷ 5 ∷ 6 ∷ 7 ∷ 8 ∷ 9 ∷ 10 ∷ 11 ∷ 12 ∷ 13 ∷ 14 ∷ 15 ∷ 16 ∷ []

abbrev codec : ℕ → Codec ℕ
codec config_id = record { config_id = config_id; cipher = 0 }

new-range : QuicLb.new {Cipher = ℕ} 7 0 ≡ err config_id_range
unfolding QuicLb.new
new-range = refl

new-made : QuicLb.new {Cipher = ℕ} 3 0 ≡ ok (codec 3)
unfolding QuicLb.new
new-made = refl

new-made_other : QuicLb.new {Cipher = ℕ} 5 0 ≡ ok (codec 5)
unfolding QuicLb.new
new-made_other = refl

decrypt-encrypt_example :
    decrypt no_cipher no_cipher (codec 3) (encrypt no_cipher no_cipher (codec 3) sample_block)
    ≡ some sample_block
decrypt-encrypt_example =
    decrypt-encrypt no_cipher no_cipher
      (record { keeps_length = λ c block h. h; inverse = λ c block h. refl }) 3 0 (codec 3)
      sample_block new-made refl

decrypt-other_config_example :
    decrypt no_cipher no_cipher (codec 5) (encrypt no_cipher no_cipher (codec 3) sample_block)
    ≡ none
decrypt-other_config_example =
    decrypt-other_config no_cipher no_cipher 3 5 0 0 (codec 3) (codec 5) sample_block new-made
      new-made_other (λ e. omega arith)
