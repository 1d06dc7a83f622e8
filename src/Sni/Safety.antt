-- ===== src/Sni/Safety.antt =====
-- Extracting the host name never panics, and ends.
use sni_router.Prelude.{
  ℕ, zero, suc, ◌+◌, ◌≤◌, ◌<◌, ◌≡◌, ◌||◌, false, inl, inr, Bool, Bool-cases, ltb, leb, nat_eq,
  tests, arith, length,
}
use sni_router.Prelude.Outcomes.{
  Bytes, Outcome, Post, returns, Post-bind, Post-bail_if, Post-index, Post-slice,
}
use sni_router.Sni.{
  HelloError, read_u16, name_loop, server_name, extension_loop, extensions, hello_fields,
  extract_sni,
}

abbrev Runs {ℓ} : {A : Type ℓ} → Outcome HelloError A → Type ℓ
Runs = Post (λ _. Unit {0})

read_u16-Runs : (bytes : Bytes) (i : ℕ) → i + 1 < length bytes → Runs (read_u16 bytes i)
unfolding read_u16
read_u16-Runs bytes i h =
    Post-index _ _ _ (omega arith) λ high. Post-index _ _ _ h λ low. returns tt

or-false : (a b : Bool) → (a || b) ≡ false → a ≡ false
or-false a b h = ground arith

module _ {Text : Type 0} (from_utf8_lossy : Bytes → Text) where
  name_loop-Runs :
      (fuel : ℕ) (ext : Bytes) (limit k : ℕ)
      → limit ≤ length ext
      → limit ≤ k + fuel
      → Runs (name_loop from_utf8_lossy fuel ext limit k)
  unfolding name_loop
  name_loop-Runs zero ext limit k h f = elim (Bool-cases (leb (k + 3) limit)) [
    | inl e ↦ absurd (omega tests)
    | inr e ↦ rw e (returns tt)
  ]
  name_loop-Runs (suc fuel) ext limit k h f = elim (Bool-cases (leb (k + 3) limit)) [
    | inr e ↦ rw e (returns tt)
    | inl e ↦ rw e (
        Post-index _ _ _ (omega tests) λ name_type.
          Post-bind _ _ (read_u16-Runs ext (k + 1) (omega tests)) λ host_len _.
            Post-bail_if _ _ _ λ room. elim (Bool-cases (nat_eq name_type 0)) [
              | inl g ↦ rw g (Post-slice _ _ _ _ (omega arith) (omega tests) λ host _. returns tt)
              | inr g ↦ rw g (name_loop-Runs fuel ext limit (k + 3 + host_len) h (omega arith))
            ])
  ]

  server_name-Runs : (ext : Bytes) → Runs (server_name from_utf8_lossy ext)
  unfolding server_name
  server_name-Runs ext = Post-bail_if _ _ _ λ long.
      Post-bind _ _ (read_u16-Runs ext 0 (omega tests)) λ list_len _.
        Post-bail_if _ _ _
          λ room. name_loop-Runs (length ext) ext (2 + list_len) 2 (omega tests) (omega tests)

  extension_loop-Runs :
      (fuel : ℕ) (body : Bytes) (limit j : ℕ)
      → limit ≤ length body
      → limit ≤ j + fuel
      → Runs (extension_loop from_utf8_lossy fuel body limit j)
  unfolding extension_loop
  extension_loop-Runs zero body limit j h f = elim (Bool-cases (leb (j + 4) limit)) [
    | inl e ↦ absurd (omega tests)
    | inr e ↦ rw e (returns tt)
  ]
  extension_loop-Runs (suc fuel) body limit j h f = elim (Bool-cases (leb (j + 4) limit)) [
    | inr e ↦ rw e (returns tt)
    | inl e ↦ rw e (
        Post-bind _ _ (read_u16-Runs body j (omega tests)) λ etype _.
          Post-bind _ _ (read_u16-Runs body (j + 2) (omega tests)) λ elen _.
            Post-bail_if _ _ _ λ room. elim (Bool-cases (nat_eq etype 0)) [
              | inl g ↦
                  rw g
                    (Post-slice _ _ _ _ (omega arith) (omega tests) λ ext _. server_name-Runs ext)
              | inr g ↦ rw g (extension_loop-Runs fuel body limit (j + 4 + elen) h (omega arith))
            ])
  ]

  extensions-Runs :
      (body : Bytes) (i : ℕ) → i ≤ length body → Runs (extensions from_utf8_lossy body i)
  unfolding extensions
  extensions-Runs body i h = elim (Bool-cases (nat_eq i (length body))) [
    | inl e ↦ rw e (returns tt)
    | inr e ↦ rw e (
        Post-bail_if _ _ _ λ room. Post-bind _ _ (read_u16-Runs body i (omega tests)) λ ext_total _.
          Post-bail_if _ _ _ λ all.
            extension_loop-Runs (length body) body (i + 2 + ext_total) (i + 2) (omega tests)
              (omega tests))
  ]

  hello_fields-Runs : (body : Bytes) → Runs (hello_fields from_utf8_lossy body)
  unfolding hello_fields
  hello_fields-Runs body = Post-bail_if _ _ _ λ h1. Post-index _ _ _ (omega tests) λ sid_len.
      Post-bail_if _ _ _ λ h2. Post-bail_if _ _ _ λ h3.
        Post-bind _ _ (read_u16-Runs body (35 + sid_len) (omega tests)) λ cs_len _.
          Post-bail_if _ _ _ λ h4.
            let h5 = or-false (ltb (length body) (35 + sid_len + 2 + cs_len)) _ h4 in
            Post-bail_if _ _ _ λ h6. Post-index _ _ _ (omega tests) λ cmethod_len.
              Post-bail_if _ _ _ λ h7.
                extensions-Runs body (35 + sid_len + 2 + cs_len + 1 + cmethod_len) (omega tests)

  -- On any bytes the extraction returns a host name, no host name, or an error: it neither panics nor
  -- runs out of the fuel of its two loops.
  pub extract_sni-Post :
      (clienthello : Bytes) → Post (λ _. Unit {0}) (extract_sni from_utf8_lossy clienthello)
  unfolding extract_sni
  extract_sni-Post clienthello = Post-bail_if _ _ _ λ h1. Post-index _ _ _ (omega tests) λ kind.
      Post-bail_if _ _ _ λ h2. Post-index _ _ _ (omega tests) λ b1.
        Post-index _ _ _ (omega tests) λ b2. Post-index _ _ _ (omega tests) λ b3.
          Post-bail_if _ _ _
            λ h3. Post-slice _ _ _ _ (omega arith) (omega tests) λ body _. hello_fields-Runs body
