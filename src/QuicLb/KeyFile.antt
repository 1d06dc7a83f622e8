-- ===== src/QuicLb/KeyFile.antt =====
-- The key of a codec is what its file prints.
use sni_router.Prelude.{
  ℕ, ◌+◌, ◌*◌, ◌/◌, ◌%◌, ◌<◌, ◌≡◌, refl, ap, true, [], ◌∷◌, some, ltb, length, if◌then◌else◌, arith,
}
use sni_router.Prelude.Outcomes.{Bytes, run_steps}
use sni_router.QuicLb.{new, is_ascii_hexdigit, all_hexdigits, digit_of, key_bytes, from_key_file}

-- The digit of a value below 16.
abbrev pub show_digit : ℕ → ℕ
show_digit n = if ltb n 10 then 48 + n else 87 + n

abbrev pub show_hex : Bytes → Bytes
show_hex [] = []
show_hex (b ∷ bytes) = show_digit (b / 16) ∷ show_digit (b % 16) ∷ show_hex bytes

abbrev pub AllBytes : Bytes → Type 0
AllBytes [] = Unit {0}
AllBytes (b ∷ bytes) = (b < 256) × AllBytes bytes

digit_of-show_digit : (n : ℕ) → n < 16 → digit_of (show_digit n) ≡ n
digit_of-show_digit n h = ground (arith, h)

show_digit-hexdigit : (n : ℕ) → n < 16 → is_ascii_hexdigit (show_digit n) ≡ true
show_digit-hexdigit n h = ground (arith, h)

all_hexdigits-show_hex : (bytes : Bytes) → AllBytes bytes → all_hexdigits (show_hex bytes) ≡ true
all_hexdigits-show_hex [] h = refl
all_hexdigits-show_hex (b ∷ bytes) (h, hs) =
    rw
      (
        show_digit-hexdigit (b / 16) (omega arith),
        show_digit-hexdigit (b % 16) (omega arith),
        all_hexdigits-show_hex bytes hs,
      )
      refl

key_bytes-show_hex : (bytes : Bytes) → AllBytes bytes → key_bytes (show_hex bytes) ≡ bytes
key_bytes-show_hex [] h = refl
key_bytes-show_hex (b ∷ bytes) (h, hs) =
    rw
      (
        digit_of-show_digit (b / 16) (omega arith),
        digit_of-show_digit (b % 16) (omega arith),
        key_bytes-show_hex bytes hs,
      )
      (ap (λ (x : ℕ). x ∷ bytes) (omega arith))

length-show_hex : (bytes : Bytes) → length (show_hex bytes) ≡ 2 * length bytes
length-show_hex [] = refl
length-show_hex (b ∷ bytes) = omega (arith, length-show_hex bytes)

-- A file whose text, trimmed, is a key of 16 bytes in hexadecimal digits is read as the codec with that key, or refused
-- with its configuration ID.
pub from_key_file-show_hex :
    {Cipher : Type 0} (trim : Bytes → Bytes) (aes_new : Bytes → Cipher) (config_id : ℕ)
    (text key : Bytes)
    → trim text ≡ show_hex key
    → length key ≡ 16
    → AllBytes key
    → from_key_file trim aes_new config_id (some text) ≡ new config_id (aes_new key)
unfolding run_steps from_key_file
from_key_file-show_hex trim aes_new config_id text key e size h =
    let size' : length (show_hex key) ≡ 32 = omega (arith, length-show_hex key) in
    rw (e, size', all_hexdigits-show_hex key h, key_bytes-show_hex key h) refl
