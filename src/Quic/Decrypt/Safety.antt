-- ===== src/Quic/Decrypt/Safety.antt =====
-- The decryption reads and slices within the packet, whatever the packet holds.
use sni_router.Prelude.{
  ℕ, ◌≤◌, ◌<◌, ◌≡◌, [], ◌∷◌, Option, some, inl, inr, Bool-cases, Option-cases, nat_eq, length, drop,
  length-drop, tests, arith,
}
use sni_router.Prelude.Outcomes.{
  Bytes, Post, returns, fails, Post-bind, Post-bail_if, Post-ok_or, Post-index, Post-slice, ok_or,
}
use sni_router.Quic.Error.{hkdf_failed}
use sni_router.Quic.InitialHeader.{InitialHeader}
use sni_router.Quic.InitialHeader.Safety.{IsWithin, parse_initial_header-Post}
use sni_router.Quic.Decrypt.{
  Ring, expect_size, unmask, set_first, hkdf_expand_label, initial_key_bytes, initial_keys,
  unprotect, decrypt_initial_packet_with_dcid,
}

-- `expand` fills the buffer that it is given, and a mask has five bytes.
pub record IsRing (ring : Ring) : Type 0 where
  pub expand_length :
      (secret info : Bytes) (len : ℕ) (out : Bytes)
      → ring.expand secret info len ≡ some out
      → length out ≡ len
  pub mask_length :
      (hp : ring.HeaderKey) (sample mask : Bytes)
      → ring.new_mask hp sample ≡ some mask
      → length mask ≡ 5

unmask-Post :
    (mask number : Bytes) → length number ≤ length mask → Post (λ _. Unit {0}) (unmask mask number)
unfolding unmask
unmask-Post mask [] h = returns tt
unmask-Post [] (byte ∷ number) h = absurd (omega arith)
unmask-Post (m ∷ mask) (byte ∷ number) h =
    Post-bind _ _ (unmask-Post mask number (omega arith)) λ rest _. returns tt

set_first-Post :
    (first : ℕ) (bytes : Bytes) → 0 < length bytes → Post (λ _. Unit {0}) (set_first first bytes)
set_first-Post first [] h = absurd (omega arith)
set_first-Post first (b ∷ bytes) h = returns tt

expect_size-Post :
    (size : ℕ) (bytes : Bytes)
    → length bytes ≡ size
    → Post (λ b. length b ≡ size) (expect_size size bytes)
expect_size-Post size bytes h = elim (Bool-cases (nat_eq (length bytes) size)) [
  | inl e ↦ rw e (returns h)
  | inr e ↦ absurd (ground arith)
]

module _ (ring : Ring) (good : IsRing ring) where
  ok_or-expand :
      (secret info : Bytes) (len : ℕ)
      → Post (λ out. length out ≡ len) (ok_or (ring.expand secret info len) hkdf_failed)
  ok_or-expand secret info len = elim (Option-cases (ring.expand secret info len)) [
    | inl e ↦ rw e (unfold ok_or in fails)
    | inr (out, e) ↦ rw e (unfold ok_or in returns (good.expand_length secret info len out e))
  ]

  hkdf_expand_label-Post :
      (secret label : Bytes) (len : ℕ)
      → Post (λ out. length out ≡ len) (hkdf_expand_label ring secret label len)
  unfolding hkdf_expand_label
  hkdf_expand_label-Post secret label len =
      Post-bail_if _ _ _ λ h1. Post-bail_if _ _ _ λ h2. ok_or-expand secret _ len

  initial_key_bytes-Post : (dcid : Bytes) → Post (λ _. Unit {0}) (initial_key_bytes ring dcid)
  unfolding initial_key_bytes
  initial_key_bytes-Post dcid = Post-bind _ _ (hkdf_expand_label-Post _ _ 32) λ secret h0.
      Post-bind _ _ (hkdf_expand_label-Post secret _ 16) λ key h1.
        Post-bind _ _ (hkdf_expand_label-Post secret _ 12) λ iv h2.
          Post-bind _ _ (hkdf_expand_label-Post secret _ 16) λ hp h3.
            Post-bind _ _ (expect_size-Post 16 key h1) λ key' _.
              Post-bind _ _ (expect_size-Post 12 iv h2)
                λ iv' _. Post-bind _ _ (expect_size-Post 16 hp h3) λ hp' _. returns tt

  initial_keys-Post : (dcid : Bytes) → Post (λ _. Unit {0}) (initial_keys ring dcid)
  unfolding initial_keys
  initial_keys-Post dcid =
      Post-bind _ _ (initial_key_bytes-Post dcid)
        λ bytes _. Post-ok_or _ _ _ λ opening _. Post-ok_or _ _ _ λ hp _. returns tt

  unprotect-Post :
      (packet : Bytes) (header : InitialHeader) (mask : Bytes)
      → IsWithin packet header
      → length mask ≡ 5
      → Post
          (λ r. (header.packet_number_offset < r.2) × (r.2 ≤ header.packet_end))
          (unprotect ring packet header mask)
  unfolding unprotect
  unprotect-Post packet header mask h five =
      Post-index _ _ _ (omega (arith, h.behind_cids, h.ordered, h.inside)) λ p0.
        Post-index _ _ _ (omega arith) λ m0. Post-bail_if _ _ _ λ room.
          Post-slice _ _ _ _ (omega arith) (omega (arith, h.ordered, h.inside)) λ front f.
            Post-bind _ _ (set_first-Post _ front (omega (arith, h.behind_cids))) λ front' _.
              Post-slice _ _ _ _ (omega arith) (omega (tests, h.inside)) λ number n.
                Post-bind _ _ (unmask-Post (drop 1 mask) number (omega (arith, length-drop 1 mask)))
                  λ number' _. returns (omega arith, omega tests)

  -- With keys and masks of the sizes that ring documents, the decryption of any packet, with its own keys or with those
  -- of another connection ID, returns or fails: no slice, index or conversion panics.
  pub decrypt_initial_packet_with_dcid-Post :
      (packet : Bytes) (key_dcid : Option Bytes)
      → Post (λ _. Unit {0}) (decrypt_initial_packet_with_dcid ring packet key_dcid)
  unfolding decrypt_initial_packet_with_dcid
  decrypt_initial_packet_with_dcid-Post packet key_dcid =
      Post-bind _ _ (parse_initial_header-Post packet) λ header h.
        Post-bind _ _ (initial_keys-Post _) λ (opening, hp, iv) _. Post-bail_if _ _ _ λ room.
          Post-slice _ _ _ _ (omega arith) (omega (tests, h.inside)) λ sample _.
            Post-ok_or _ _ _ λ mask m.
              Post-bind _ _ (unprotect-Post packet header mask h (good.mask_length _ _ _ m)) λ r u.
                Post-slice _ _ _ _ (omega arith) (omega (arith, h.inside))
                  λ payload _. Post-ok_or _ _ _ λ plaintext _. returns tt
