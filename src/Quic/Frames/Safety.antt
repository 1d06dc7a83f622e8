-- ===== src/Quic/Frames/Safety.antt =====
-- Reading the frames of a decrypted payload never panics, and ends.
use sni_router.Prelude.{
  ℕ, zero, suc, ◌+◌, ◌≤◌, ◌≡◌, Bool, true, false, inl, inr, ◌||◌, Bool-cases, [], ◌∷◌, ◌++◌, ltb,
  nat_eq, tests, arith, length,
}
use sni_router.Prelude.Outcomes.{
  Bytes, Outcome, Post, returns, fails, Post-bind, Post-bail_if, Post-slice, Post-weaken,
}
use sni_router.Quic.Error.{QuicError}
use sni_router.Quic.Frames.{
  CryptoFrames, skip_ack_ranges, skip_ecn_counts, skip_ack_frame, skip_application_close_frame,
  skip_transport_close_frame, read_crypto_frame, read_frame, crypto_frames_loop, read_crypto_frames,
  skipping,
}
use sni_router.Quic.Varint.Safety.{read_varint-Post}

-- What each step keeps: the offset does not go back, and stays within the payload.
abbrev Forward : Bytes → ℕ → ℕ → Type 0
Forward payload i j = (i ≤ j) × (j ≤ length payload)

skip_ack_ranges-Post :
    (payload : Bytes) (count i : ℕ)
    → i ≤ length payload
    → Post (Forward payload i) (skip_ack_ranges payload count i)
unfolding skip_ack_ranges
skip_ack_ranges-Post payload zero i h = returns (omega arith, h)
skip_ack_ranges-Post payload (suc count) i h =
    Post-bind _ _ (read_varint-Post payload i) λ (_, i1) h1.
      Post-bind _ _ (read_varint-Post payload i1) λ (_, i2) h2.
        Post-weaken (skip_ack_ranges-Post payload count i2 (omega arith)) λ j k. (omega arith, k.1)

skip_ecn_counts-Post :
    (payload : Bytes) (i : ℕ) (has_ecn : Bool)
    → i ≤ length payload
    → Post (Forward payload i) (skip_ecn_counts payload i has_ecn)
unfolding skip_ecn_counts
skip_ecn_counts-Post payload i false h = returns (omega arith, h)
skip_ecn_counts-Post payload i true h = Post-bind _ _ (read_varint-Post payload i) λ (_, i1) h1.
    Post-bind _ _ (read_varint-Post payload i1) λ (_, i2) h2.
      Post-bind _ _ (read_varint-Post payload i2) λ (_, i3) h3. returns (omega arith, omega arith)

skip_ack_frame-Post :
    (payload : Bytes) (i : ℕ) (has_ecn : Bool)
    → Post (Forward payload i) (skip_ack_frame payload i has_ecn)
unfolding skip_ack_frame
skip_ack_frame-Post payload i has_ecn = Post-bind _ _ (read_varint-Post payload i) λ (_, i1) h1.
    Post-bind _ _ (read_varint-Post payload i1) λ (_, i2) h2.
      Post-bind _ _ (read_varint-Post payload i2) λ (count, i3) h3.
        Post-bind _ _ (read_varint-Post payload i3) λ (_, i4) h4.
          Post-bind _ _ (skip_ack_ranges-Post payload count i4 (omega arith)) λ i5 h5.
            Post-weaken (skip_ecn_counts-Post payload i5 has_ecn (omega arith))
              λ j k. (omega arith, k.1)

skip_application_close_frame-Post :
    (payload : Bytes) (i : ℕ) → Post (Forward payload i) (skip_application_close_frame payload i)
unfolding skip_application_close_frame
skip_application_close_frame-Post payload i =
    Post-bind _ _ (read_varint-Post payload i) λ (_, i1) h1.
      Post-bind _ _ (read_varint-Post payload i1)
        λ (_, i2) h2. Post-bail_if _ _ _ λ room. returns (omega arith, omega tests)

skip_transport_close_frame-Post :
    (payload : Bytes) (i : ℕ) → Post (Forward payload i) (skip_transport_close_frame payload i)
unfolding skip_transport_close_frame
skip_transport_close_frame-Post payload i = Post-bind _ _ (read_varint-Post payload i) λ (_, i1) h1.
    Post-bind _ _ (read_varint-Post payload i1) λ (_, i2) h2.
      Post-bind _ _ (read_varint-Post payload i2)
        λ (_, i3) h3. Post-bail_if _ _ _ λ room. returns (omega arith, omega tests)

-- The bytes that the frames found so far carry come from the part of the payload already read.
abbrev pub carried : CryptoFrames → ℕ
carried [] = 0
carried ((_, part) ∷ frames) = length part + carried frames

carried-concat :
    (frames : CryptoFrames) (offset : ℕ) (part : Bytes)
    → carried (frames ++ (offset, part) ∷ []) ≡ carried frames + length part
carried-concat [] offset part = omega arith
carried-concat ((_, first) ∷ frames) offset part = omega (arith, carried-concat frames offset part)

abbrev Reads : Bytes → ℕ → ℕ × CryptoFrames → Type 0
Reads payload i r = (i ≤ r.0) × (r.0 ≤ length payload) × (carried r.1 ≤ r.0)

read_crypto_frame-Post :
    (payload : Bytes) (i : ℕ) (frames : CryptoFrames)
    → carried frames ≤ i
    → Post (Reads payload i) (read_crypto_frame payload i frames)
unfolding read_crypto_frame
read_crypto_frame-Post payload i frames c =
    Post-bind _ _ (read_varint-Post payload i) λ (offset, i1) h1.
      Post-bind _ _ (read_varint-Post payload i1) λ (len, i2) h2. Post-bail_if _ _ _ λ room.
        Post-slice _ _ _ _ (omega arith) (omega tests) λ part l.
          returns (omega arith, omega tests, omega (arith, carried-concat frames offset part))

skipping-Post :
    (payload : Bytes) (i : ℕ) (frames : CryptoFrames) (skip : Outcome QuicError ℕ)
    → carried frames ≤ i
    → Post (Forward payload i) skip
    → Post (Reads payload i) (skipping frames skip)
skipping-Post payload i frames skip c h = Post-bind _ _ h λ j k. returns (k.0, k.1, omega arith)

read_frame-Post :
    (payload : Bytes) (frame_type i : ℕ) (frames : CryptoFrames)
    → i ≤ length payload
    → carried frames ≤ i
    → Post (Reads payload i) (read_frame payload frame_type i frames)
unfolding read_frame
read_frame-Post payload frame_type i frames h c =
    elim (Bool-cases (nat_eq frame_type 0x00 || nat_eq frame_type 0x01)) [
      | inl e ↦ rw e (returns (omega arith, h, c))
      | inr e ↦ rw e (elim (Bool-cases (nat_eq frame_type 0x02 || nat_eq frame_type 0x03)) [
        | inl e ↦ rw e (skipping-Post payload i frames _ c (skip_ack_frame-Post payload i _))
        | inr e ↦ rw e (elim (Bool-cases (nat_eq frame_type 0x06)) [
          | inl e ↦ rw e (read_crypto_frame-Post payload i frames c)
          | inr e ↦ rw e (elim (Bool-cases (nat_eq frame_type 0x1c)) [
            | inl e ↦
                rw e
                  (skipping-Post payload i frames _ c (skip_transport_close_frame-Post payload i))
            | inr e ↦ rw e (elim (Bool-cases (nat_eq frame_type 0x1d)) [
              | inl e ↦
                  rw e (
                    skipping-Post payload i frames _ c
                      (skip_application_close_frame-Post payload i))
              | inr e ↦ rw e fails
            ])
          ])
        ])
      ])
    ]

crypto_frames_loop-Post :
    (fuel : ℕ) (payload : Bytes) (i : ℕ) (frames : CryptoFrames)
    → length payload ≤ i + fuel
    → carried frames ≤ i
    → i ≤ length payload
    → Post (λ r. carried r ≤ length payload) (crypto_frames_loop fuel payload i frames)
unfolding crypto_frames_loop
crypto_frames_loop-Post zero payload i frames f c h = elim (Bool-cases (ltb i (length payload))) [
  | inl e ↦ absurd (omega tests)
  | inr e ↦ rw e (returns (omega arith))
]
crypto_frames_loop-Post (suc fuel) payload i frames f c h =
    elim (Bool-cases (ltb i (length payload))) [
      | inr e ↦ rw e (returns (omega arith))
      | inl e ↦ rw e (
          Post-bind _ _ (read_varint-Post payload i) λ (frame_type, i1) h1.
            Post-bind _ _ (read_frame-Post payload frame_type i1 frames (omega arith) (omega arith))
              λ (i2, frames') h2.
                crypto_frames_loop-Post fuel payload i2 frames' (omega arith) (omega arith)
                  (omega arith))
    ]

-- On any payload the frames are read with no panic and within the fuel, and the CRYPTO frames found
-- carry no more bytes than the payload has.
pub read_crypto_frames-Post :
    (payload : Bytes)
    → Post (λ frames. carried frames ≤ length payload) (read_crypto_frames payload)
unfolding read_crypto_frames
read_crypto_frames-Post payload =
    crypto_frames_loop-Post (length payload) payload 0 [] (omega arith) (omega arith) (omega arith)
