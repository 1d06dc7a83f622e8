-- ===== src/Quic/Frames.antt =====
-- `read_crypto_frames` and the `skip_…_frame` functions of src/bin/sni-router-h3.rs. `i` is the offset
-- that the source passes by `&mut`; `frames` is the vector it pushes to.
pub mod Safety
pub mod Written
pub mod Reading
pub mod RoundTrip
use sni_router.Prelude.{
  ℕ, zero, suc, ◌+◌, Bool, true, false, ◌||◌, List, [], ◌∷◌, ◌++◌, ltb, nat_eq, length,
  if◌then◌else◌,
}
use sni_router.Prelude.Outcomes.{Bytes, Outcome, ok, err, out_of_fuel, ◌>>=◌, ◌>>◌, bail_if, slice}
use sni_router.Quic.Error.{QuicError, truncated_crypto, truncated_close, unexpected_frame}
use sni_router.Quic.Varint.{read_varint}

abbrev pub CryptoFrames : Type 0
CryptoFrames = List (ℕ × Bytes)

-- `for _ in 0..ack_range_count`
pub skip_ack_ranges : Bytes → ℕ → ℕ → Outcome QuicError ℕ
skip_ack_ranges payload zero i = ok i
skip_ack_ranges payload (suc count) i = do
  (_gap, i1) ← read_varint payload i
  (_length, i2) ← read_varint payload i1
  skip_ack_ranges payload count i2

pub skip_ecn_counts : Bytes → ℕ → Bool → Outcome QuicError ℕ
skip_ecn_counts payload i false = ok i
skip_ecn_counts payload i true = do
  (_ect0, i1) ← read_varint payload i
  (_ect1, i2) ← read_varint payload i1
  (_ce, i3) ← read_varint payload i2
  ok i3

pub skip_ack_frame : Bytes → ℕ → Bool → Outcome QuicError ℕ
skip_ack_frame payload i has_ecn = do
  (_largest, i1) ← read_varint payload i
  (_delay, i2) ← read_varint payload i1
  (count, i3) ← read_varint payload i2
  (_first, i4) ← read_varint payload i3
  i5 ← skip_ack_ranges payload count i4
  skip_ecn_counts payload i5 has_ecn

pub skip_application_close_frame : Bytes → ℕ → Outcome QuicError ℕ
skip_application_close_frame payload i = do
  (_code, i1) ← read_varint payload i
  (reason_len, i2) ← read_varint payload i1
  bail_if (ltb (length payload) (i2 + reason_len)) truncated_close
  ok (i2 + reason_len)

pub skip_transport_close_frame : Bytes → ℕ → Outcome QuicError ℕ
skip_transport_close_frame payload i = do
  (_code, i1) ← read_varint payload i
  (_frame_type, i2) ← read_varint payload i1
  (reason_len, i3) ← read_varint payload i2
  bail_if (ltb (length payload) (i3 + reason_len)) truncated_close
  ok (i3 + reason_len)

pub read_crypto_frame : Bytes → ℕ → CryptoFrames → Outcome QuicError (ℕ × CryptoFrames)
read_crypto_frame payload i frames = do
  (offset, i1) ← read_varint payload i
  (len, i2) ← read_varint payload i1
  bail_if (ltb (length payload) (i2 + len)) truncated_crypto
  part ← slice payload i2 (i2 + len)
  ok (i2 + len, frames ++ (offset, part) ∷ [])

-- A frame that only moves the offset.
abbrev pub skipping : CryptoFrames → Outcome QuicError ℕ → Outcome QuicError (ℕ × CryptoFrames)
skipping frames skip = skip >>= λ i. ok (i, frames)

-- The `match` on the frame type.
pub read_frame : Bytes → ℕ → ℕ → CryptoFrames → Outcome QuicError (ℕ × CryptoFrames)
read_frame payload frame_type i frames =
    if nat_eq frame_type 0x00 || nat_eq frame_type 0x01
    then ok (i, frames)
    else if nat_eq frame_type 0x02 || nat_eq frame_type 0x03
    then skipping frames (skip_ack_frame payload i (nat_eq frame_type 0x03))
    else if nat_eq frame_type 0x06
    then read_crypto_frame payload i frames
    else if nat_eq frame_type 0x1c
    then skipping frames (skip_transport_close_frame payload i)
    else if nat_eq frame_type 0x1d
    then skipping frames (skip_application_close_frame payload i)
    else err unexpected_frame

-- `while i < payload.len()`
pub crypto_frames_loop : ℕ → Bytes → ℕ → CryptoFrames → Outcome QuicError CryptoFrames
crypto_frames_loop zero payload i frames = if ltb i (length payload) then out_of_fuel else ok frames
crypto_frames_loop (suc fuel) payload i frames =
    let round = (do
      (frame_type, i1) ← read_varint payload i
      (i2, frames') ← read_frame payload frame_type i1 frames
      crypto_frames_loop fuel payload i2 frames') in
    if ltb i (length payload) then round else ok frames

-- Each round takes a byte at least, so as many rounds as there are bytes are enough.
unfoldable pub read_crypto_frames : Bytes → Outcome QuicError CryptoFrames
unfolding crypto_frames_loop read_frame read_crypto_frame skip_transport_close_frame
    skip_application_close_frame skip_ack_frame skip_ecn_counts skip_ack_ranges
read_crypto_frames payload = crypto_frames_loop (length payload) payload 0 []
