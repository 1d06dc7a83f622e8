-- ===== src/Quic/Reassembly.antt =====
-- `CryptoReassembly` of src/bin/sni-router-h3.rs. The `BTreeMap` of fragments is the list of its
-- entries in the order of their keys.
pub mod Fragments
pub mod Invariant
pub mod Stream
pub mod Complete
use sni_router.Prelude.{
  ℕ, ◌+◌, ◌-◌, ◌*◌, Bool, true, false, ◌&&◌, not, List, [], ◌∷◌, ◌++◌, Option, none, some, ltb, leb,
  nat_eq, length, take, drop, if◌then◌else◌,
}
use sni_router.Prelude.Outcomes.{Bytes, Outcome, ok, err, panic, ◌>>=◌, ◌>>◌, bail_if, index, slice}
use sni_router.Prelude.OrderedMap.{lookup, insert_sorted}
use sni_router.Quic.Error.{QuicError, too_many_fragments, not_client_hello}

abbrev pub max_crypto_fragments : ℕ
max_crypto_fragments = 128

abbrev pub Fragments : Type 0
Fragments = List (ℕ × Bytes)

pub record CryptoReassembly : Type 0 where
  pub bytes : Bytes
  pub fragments : Fragments

abbrev pub empty_reassembly : CryptoReassembly
empty_reassembly = record { bytes = []; fragments = [] }

-- `if let Some(suffix) = data.get(skip..) { bytes.extend(suffix) }`
abbrev pub extend_from : Bytes → ℕ → Bytes → Bytes
extend_from bytes skip part = if leb skip (length part) then bytes ++ drop skip part else bytes

-- `next - offset` overflows where the fragment starts behind the bytes, which panics.
pub append : CryptoReassembly → ℕ → Bytes → Outcome QuicError CryptoReassembly
append r offset part =
    if ltb (length r.bytes) offset
    then panic
    else ok (record r { bytes = extend_from r.bytes (length r.bytes - offset) part })

-- `while fragments.first_key_value().is_some_and(..) { pop_first; append }`, on the entries left.
pub drain : Fragments → CryptoReassembly → Outcome QuicError CryptoReassembly
drain [] r = ok (record r { fragments = [] })
drain ((offset, part) ∷ fs) r =
    let popped = append r offset part >>= drain fs in
    if leb offset (length r.bytes)
    then popped
    else ok (record r { fragments = (offset, part) ∷ fs })

-- `get(&offset).is_none_or(|old| old.len() < data.len())`
abbrev pub is_longer : Option Bytes → Bytes → Bool
is_longer none part = true
is_longer (some old) part = ltb (length old) (length part)

abbrev pub is_some : Option Bytes → Bool
is_some none = false
is_some (some _) = true

-- A fragment that starts behind the bytes at hand is kept for later.
pub keep_fragment : CryptoReassembly → ℕ → Bytes → Outcome QuicError CryptoReassembly
keep_fragment r offset part = do
  let old = lookup offset r.fragments
  bail_if (not (is_some old) && leb max_crypto_fragments (length r.fragments)) too_many_fragments
  ok (
      if is_longer old part
      then record r { fragments = insert_sorted offset part r.fragments }
      else r)

unfoldable pub insert : CryptoReassembly → ℕ → Bytes → Outcome QuicError CryptoReassembly
unfolding lookup insert_sorted append drain keep_fragment
insert r offset [] = ok r
insert r offset (b ∷ part) =
    let appended = (do r' ← append r offset (b ∷ part); drain r'.fragments r') in
    if ltb (length r.bytes) offset then keep_fragment r offset (b ∷ part) else appended

-- The three length bytes are disjoint bit fields, so `|` is `+`.
unfoldable pub clienthello : CryptoReassembly → Outcome QuicError (Option Bytes)
clienthello r =
    let parsed = (do
      kind ← index r.bytes 0
      bail_if (not (nat_eq kind 1)) not_client_hello
      b1 ← index r.bytes 1
      b2 ← index r.bytes 2
      b3 ← index r.bytes 3
      let needed = 4 + (b1 * 65536 + b2 * 256 + b3)
      let hello = slice r.bytes 0 needed >>= λ part. ok (some part)
      if ltb (length r.bytes) needed then ok none else hello) in
    if ltb (length r.bytes) 4 then ok none else parsed
