-- ===== src/Net/HostPort.antt =====
-- `split_host_port` of src/main.rs, on the bytes of an address, with what it uses of Rust's strings.
pub mod Written
use sni_router.Prelude.{
  ℕ, zero, suc, ◌+◌, ◌-◌, ◌*◌, ◌&&◌, Bool, true, false, not, List, [], ◌∷◌, ◌++◌, Option, none,
  some, ltb, leb, nat_eq, length, if◌then◌else◌,
}
use sni_router.Prelude.Outcomes.{Bytes, Outcome, ok, err, ◌>>=◌, ok_or, slice}

pub data HostPortError : Type 0 where
  no_colon bad_port bad_host : HostPortError

abbrev pub colon : ℕ
colon = 58

-- `contains(':')`
abbrev pub has_colon : Bytes → Bool
has_colon [] = false
has_colon (b ∷ bytes) = if nat_eq b colon then true else has_colon bytes

-- `rsplit_once(':')`: what stands before and behind the last colon.
abbrev pub rsplit_once : Bytes → Option (Bytes × Bytes)
rsplit_once [] = none
rsplit_once (b ∷ bytes) =
    let rest = rsplit_once bytes in
    elim rest [
      | some (before, behind) ↦ some (b ∷ before, behind)
      | none ↦ if nat_eq b colon then some ([], bytes) else none
    ]

abbrev pub is_digit : ℕ → Bool
is_digit b = leb 48 b && leb b 57

-- The value of decimal digits behind a value, unless it leaves 16 bits.
abbrev pub parse_digits : Bytes → ℕ → Option ℕ
parse_digits [] value = some value
parse_digits (b ∷ bytes) value =
    let rest = parse_digits bytes (value * 10 + (b - 48)) in
    if is_digit b && leb (value * 10 + (b - 48)) 65535 then rest else none

-- A decimal number, with a `+` before it or without.
unfoldable pub parse_u16 : Bytes → Option ℕ
parse_u16 [] = none
parse_u16 (b ∷ []) = if nat_eq b 43 then none else parse_digits (b ∷ []) 0
parse_u16 (b ∷ b2 ∷ bytes) =
    if nat_eq b 43 then parse_digits (b2 ∷ bytes) 0 else parse_digits (b ∷ b2 ∷ bytes) 0

abbrev pub starts_with : Bytes → ℕ → Bool
starts_with [] c = false
starts_with (b ∷ bytes) c = nat_eq b c

abbrev pub ends_with : Bytes → ℕ → Bool
ends_with [] c = false
ends_with (b ∷ []) c = nat_eq b c
ends_with (b ∷ b2 ∷ bytes) c = ends_with (b2 ∷ bytes) c

unfoldable pub split_host_port : Bytes → Outcome HostPortError (Bytes × ℕ)
unfolding parse_u16
split_host_port addr = do
  (host, behind) ← ok_or (rsplit_once addr) no_colon
  port ← ok_or (parse_u16 behind) bad_port
  let inside = (do raw ← slice host 1 (length host - 1); ok (raw, port))
  let plain = (if has_colon host then err bad_host else ok (host, port))
  if starts_with host 91 && ends_with host 93 then inside else plain
