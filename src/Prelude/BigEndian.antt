-- ===== src/Prelude/BigEndian.antt =====
-- Numbers of several bytes, the most significant byte first.
use Prim.Native.Nat.{ℕ, zero, suc, ◌+◌, ◌*◌, ◌/◌, ◌%◌, ◌^◌}
use mathlib.Core.List.{[], ◌∷◌}
use sni_router.Prelude.Lists.{length}
use sni_router.Prelude.Outcomes.{Bytes}

-- `value = (value << 8) | b` for each byte. The low byte of the shifted value is 0, so `|` is `+`.
abbrev pub big_endian : ℕ → Bytes → ℕ
big_endian value [] = value
big_endian value (b ∷ bs) = big_endian (value * 256 + b) bs

-- `to_be_bytes` of a value of `n` bytes.
abbrev pub to_be_bytes : ℕ → ℕ → Bytes
to_be_bytes zero value = []
to_be_bytes (suc n) value = value / 256 ^ n % 256 ∷ to_be_bytes n value

-- A handshake message of type ClientHello, with the length of its body in three bytes.
abbrev pub client_hello : Bytes → Bytes
client_hello body =
    1 ∷ (length body / 65536) ∷ (length body / 256 % 256) ∷ (length body % 256) ∷ body
