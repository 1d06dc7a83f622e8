-- ===== src/Quic/Frames/RoundTrip.antt =====
-- The reader finds the CRYPTO frames among the frames that RFC 9000 allows in an Initial packet.
use sni_router.Prelude.{
  ℕ, zero, suc, ◌+◌, ◌≤◌, ◌<◌, ◌≡◌, refl, ap, ◌∙◌, List, [], ◌∷◌, ◌++◌, le→ltb, lt→ltb, arith,
  length, length-append,
}
use mathlib.Core.List.{append_assoc, append-nil}
use sni_router.Prelude.Outcomes.{Bytes, Outcome, ok, ◌>>=◌, bail_if}
use sni_router.Prelude.Cursor.{At, At-zero, At-append, At-length, slice-At}
use sni_router.Quic.Error.{QuicError}
use sni_router.Quic.Frames.{
  CryptoFrames, read_crypto_frame, read_frame, crypto_frames_loop, read_crypto_frames,
}
use sni_router.Quic.Frames.Written.{
  Ranges, Frame, padding, ping, ack, ack_ecn, crypto, transport_close, application_close, write,
  write_ranges, write_frame, write_frames, IsSmall, IsWritable, AreWritable, found, all_found,
}
use sni_router.Quic.Frames.Reading.{
  read, skip_ack, skip_ack_with_ecn, skip_application_close, skip_transport_close,
}
use sni_router.Quic.Varint.{encode_varint, read_varint}
use sni_router.Quic.Varint.RoundTrip.{encode_varint-pos}

-- A frame was read: the reader stands before `rest`, and holds the frames of `value`.
record Reads (payload : Bytes) (m : Outcome QuicError (ℕ × CryptoFrames)) (value : CryptoFrames)
    (rest : Bytes) : Type 0 where
  at : ℕ
  runs : m ≡ ok (at, value)
  ahead : At payload at rest

read_crypto :
    (payload : Bytes) (i offset : ℕ) (part rest : Bytes) (frames : CryptoFrames)
    → IsSmall offset
    → IsSmall (length part)
    → At payload i (write offset (write (length part) (part ++ rest)))
    → Reads payload (read_crypto_frame payload i frames) (frames ++ (offset, part) ∷ []) rest
unfolding read_crypto_frame ◌>>=◌ bail_if
read_crypto payload i offset part rest frames s1 s2 here =
    let r1 = read payload i offset _ s1 here in
    let r2 = read payload r1.at (length part) _ s2 r1.ahead in
    record {
      at = r2.at + length part;
      runs = ground (
        arith,
        r1.runs,
        r2.runs,
        At-length payload r2.at _ r2.ahead,
        length-append part rest,
        slice-At {E = QuicError} r2.at (r2.at + length part) part rest r2.ahead refl,
      );
      ahead = At-append part rest _ r2.ahead refl;
    }

-- One round of the loop: the frame type, and what the `match` does with the rest of the frame.
record Round (payload : Bytes) (i : ℕ) (frames value : CryptoFrames) (rest : Bytes) : Type 0 where
  frame_type : ℕ
  behind_type : ℕ
  at : ℕ
  typed : read_varint payload i ≡ ok (frame_type, behind_type)
  runs : read_frame payload frame_type behind_type frames ≡ ok (at, value)
  ahead : At payload at rest

read_Frame :
    (payload : Bytes) (i : ℕ) (frames : CryptoFrames) (f : Frame) (rest : Bytes)
    → IsWritable f
    → At payload i (write_frame f rest)
    → Round payload i frames (frames ++ found f) rest
unfolding read_frame ◌>>=◌
read_Frame payload i frames padding rest w here =
    let r = read payload i 0x00 rest (omega arith) here in
    record {
      frame_type = 0x00;
      behind_type = r.at;
      at = r.at;
      typed = r.runs;
      runs = rw append-nil;
      ahead = r.ahead;
    }
read_Frame payload i frames ping rest w here =
    let r = read payload i 0x01 rest (omega arith) here in
    record {
      frame_type = 0x01;
      behind_type = r.at;
      at = r.at;
      typed = r.runs;
      runs = rw append-nil;
      ahead = r.ahead;
    }
read_Frame payload i frames (ack largest delay ranges first) rest w here =
    let r = read payload i 0x02 _ (omega arith) here in
    let s = skip_ack payload r.at largest delay ranges first rest w.0 w.1 w.2 w.3 w.4 r.ahead in
    record {
      frame_type = 0x02;
      behind_type = r.at;
      at = s.at;
      typed = r.runs;
      runs = rw (append-nil, s.runs);
      ahead = s.ahead;
    }
read_Frame payload i frames (ack_ecn largest delay ranges first ect0 ect1 ce) rest w here =
    let r = read payload i 0x03 _ (omega arith) here in
    let s =
      skip_ack_with_ecn payload r.at largest delay ranges first ect0 ect1 ce rest w.0 w.1 w.2 w.3
        w.4 w.5 w.6 w.7 r.ahead in
    record {
      frame_type = 0x03;
      behind_type = r.at;
      at = s.at;
      typed = r.runs;
      runs = rw (append-nil, s.runs);
      ahead = s.ahead;
    }
read_Frame payload i frames (crypto offset part) rest w here =
    let r = read payload i 0x06 _ (omega arith) here in
    let s = read_crypto payload r.at offset part rest frames w.0 w.1 r.ahead in
    record {
      frame_type = 0x06;
      behind_type = r.at;
      at = s.at;
      typed = r.runs;
      runs = s.runs;
      ahead = s.ahead;
    }
read_Frame payload i frames (transport_close code frame_type reason) rest w here =
    let r = read payload i 0x1c _ (omega arith) here in
    let s = skip_transport_close payload r.at code frame_type reason rest w.0 w.1 w.2 r.ahead in
    record {
      frame_type = 0x1c;
      behind_type = r.at;
      at = s.at;
      typed = r.runs;
      runs = rw (append-nil, s.runs);
      ahead = s.ahead;
    }
read_Frame payload i frames (application_close code reason) rest w here =
    let r = read payload i 0x1d _ (omega arith) here in
    let s = skip_application_close payload r.at code reason rest w.0 w.1 r.ahead in
    record {
      frame_type = 0x1d;
      behind_type = r.at;
      at = s.at;
      typed = r.runs;
      runs = rw (append-nil, s.runs);
      ahead = s.ahead;
    }

write-longer : (value : ℕ) (rest : Bytes) → length rest < length (write value rest)
write-longer value rest =
    omega (arith, length-append (encode_varint value) rest, encode_varint-pos value)

write_ranges-longer :
    (ranges : Ranges) (rest : Bytes) → length rest ≤ length (write_ranges ranges rest)
write_ranges-longer [] rest = omega arith
write_ranges-longer ((gap, len) ∷ ranges) rest = omega (
  arith,
  write-longer gap (write len (write_ranges ranges rest)),
  write-longer len (write_ranges ranges rest),
  write_ranges-longer ranges rest,
)

write_frame-longer : (f : Frame) (rest : Bytes) → length rest < length (write_frame f rest)
write_frame-longer (ack largest delay ranges first) rest =
    omega (arith, write-longer, write_ranges-longer)
write_frame-longer (ack_ecn largest delay ranges first ect0 ect1 ce) rest =
    omega (arith, write-longer, write_ranges-longer)
write_frame-longer (crypto offset part) rest = omega (arith, write-longer, length-append part rest)
write_frame-longer (transport_close code frame_type reason) rest =
    omega (arith, write-longer, length-append reason rest)
write_frame-longer (application_close code reason) rest =
    omega (arith, write-longer, length-append reason rest)
write_frame-longer padding rest = write-longer 0 rest
write_frame-longer ping rest = write-longer 1 rest

write_frames-longer : (fs : List Frame) → length fs ≤ length (write_frames fs)
write_frames-longer [] = omega arith
write_frames-longer (f ∷ fs) =
    omega (arith, write_frame-longer f (write_frames fs), write_frames-longer fs)

loop-found :
    (fuel : ℕ) (payload : Bytes) (i : ℕ) (frames : CryptoFrames) (fs : List Frame)
    → AreWritable fs
    → At payload i (write_frames fs)
    → length fs ≤ fuel
    → crypto_frames_loop fuel payload i frames ≡ ok (frames ++ all_found fs)
unfolding crypto_frames_loop ◌>>=◌
loop-found zero payload i frames [] w here h =
    rw (le→ltb i (length payload) (omega (arith, At-length payload i [] here)), append-nil)
loop-found (suc fuel) payload i frames [] w here h =
    rw (le→ltb i (length payload) (omega (arith, At-length payload i [] here)), append-nil)
loop-found zero payload i frames (f ∷ fs) w here h = absurd (omega arith)
loop-found (suc fuel) payload i frames (f ∷ fs) w here h =
    let r = read_Frame payload i frames f (write_frames fs) w.0 here in
    let more = loop-found fuel payload r.at (frames ++ found f) fs w.1 r.ahead (omega arith) in
    rw
      (
        lt→ltb i (length payload)
            (omega (arith, At-length payload i _ here, write_frame-longer f (write_frames fs))),
        r.typed,
      )
      (rw r.runs (more ∙ ap ok (append_assoc frames (found f) (all_found fs))))

-- Of any sequence of frames whose numbers have 62 bits, the reader returns the CRYPTO frames in order,
-- with their offsets and their data.
pub read_crypto_frames-write_frames :
    (fs : List Frame) → AreWritable fs → read_crypto_frames (write_frames fs) ≡ ok (all_found fs)
unfolding read_crypto_frames
read_crypto_frames-write_frames fs w =
    loop-found (length (write_frames fs)) (write_frames fs) 0 [] fs w (At-zero _)
      (write_frames-longer fs)
