-- ===== src/Quic/Frames/Reading.antt =====
-- The readers of src/bin/sni-router-h3.rs that skip a frame stop where the frame ends.
use sni_router.Prelude.{ℕ, ◌+◌, ◌≡◌, refl, true, false, [], ◌∷◌, ◌++◌, arith, length, length-append}
use sni_router.Prelude.Outcomes.{Bytes, Outcome, ok, ◌>>=◌, bail_if}
use sni_router.Prelude.Cursor.{At, At-append, At-length}
use sni_router.Quic.Error.{QuicError}
use sni_router.Quic.Frames.{
  skip_ack_ranges, skip_ecn_counts, skip_ack_frame, skip_application_close_frame,
  skip_transport_close_frame,
}
use sni_router.Quic.Frames.Written.{Ranges, write, write_ranges, IsSmall, AreSmall}
use sni_router.Quic.Varint.{encode_varint, read_varint}
use sni_router.Quic.Varint.RoundTrip.{read_varint-encode_varint}

-- A reader returns `value` and stands at `j`, before `rest`.
pub record Arrives {A : Type 0} (payload : Bytes) (m : Outcome QuicError (A × ℕ)) (value : A)
    (rest : Bytes) : Type 0 where
  pub at : ℕ
  pub runs : m ≡ ok (value, at)
  pub ahead : At payload at rest

pub read :
    (payload : Bytes) (i value : ℕ) (rest : Bytes)
    → IsSmall value
    → At payload i (write value rest)
    → Arrives payload (read_varint payload i) value rest
read payload i value rest small here = record {
  at = i + length (encode_varint value);
  runs = read_varint-encode_varint payload i value rest small here;
  ahead = At-append (encode_varint value) rest _ here refl;
}

-- A skipping function stops before `rest`.
pub record Skips (payload : Bytes) (m : Outcome QuicError ℕ) (rest : Bytes) : Type 0 where
  pub at : ℕ
  pub runs : m ≡ ok at
  pub ahead : At payload at rest

skip_ranges :
    (payload : Bytes) (i : ℕ) (ranges : Ranges) (rest : Bytes)
    → AreSmall ranges
    → At payload i (write_ranges ranges rest)
    → Skips payload (skip_ack_ranges payload (length ranges) i) rest
unfolding skip_ack_ranges ◌>>=◌
skip_ranges payload i [] rest small here = record { at = i; runs = refl; ahead = here }
skip_ranges payload i ((gap, len) ∷ ranges) rest small here =
    let r1 = read payload i gap _ small.0 here in
    let r2 = read payload r1.at len _ small.1 r1.ahead in
    let more = skip_ranges payload r2.at ranges rest small.2 r2.ahead in
    record { at = more.at; runs = ground (arith, r1.runs, r2.runs, more.runs); ahead = more.ahead }

pub skip_ack :
    (payload : Bytes) (i largest delay : ℕ) (ranges : Ranges) (first : ℕ) (rest : Bytes)
    → IsSmall largest
    → IsSmall delay
    → IsSmall (length ranges)
    → IsSmall first
    → AreSmall ranges
    → At payload i (
        write largest
          (write delay (write (length ranges) (write first (write_ranges ranges rest)))))
    → Skips payload (skip_ack_frame payload i false) rest
unfolding skip_ack_frame skip_ecn_counts ◌>>=◌
skip_ack payload i largest delay ranges first rest s1 s2 s3 s4 s5 here =
    let r1 = read payload i largest _ s1 here in
    let r2 = read payload r1.at delay _ s2 r1.ahead in
    let r3 = read payload r2.at (length ranges) _ s3 r2.ahead in
    let r4 = read payload r3.at first _ s4 r3.ahead in
    let r5 = skip_ranges payload r4.at ranges rest s5 r4.ahead in
    record {
      at = r5.at;
      runs = ground (arith, r1.runs, r2.runs, r3.runs, r4.runs, r5.runs);
      ahead = r5.ahead;
    }

pub skip_ack_with_ecn :
    (payload : Bytes) (i largest delay : ℕ) (ranges : Ranges) (first ect0 ect1 ce : ℕ)
    (rest : Bytes)
    → IsSmall largest
    → IsSmall delay
    → IsSmall (length ranges)
    → IsSmall first
    → AreSmall ranges
    → IsSmall ect0
    → IsSmall ect1
    → IsSmall ce
    → At payload i (
        write largest (
          write delay (
            write
              (length ranges)
              (write first (write_ranges ranges (write ect0 (write ect1 (write ce rest))))))))
    → Skips payload (skip_ack_frame payload i true) rest
unfolding skip_ack_frame skip_ecn_counts ◌>>=◌
skip_ack_with_ecn payload i largest delay ranges first ect0 ect1 ce rest s1 s2 s3 s4 s5 s6 s7 s8
      here =
    let r1 = read payload i largest _ s1 here in
    let r2 = read payload r1.at delay _ s2 r1.ahead in
    let r3 = read payload r2.at (length ranges) _ s3 r2.ahead in
    let r4 = read payload r3.at first _ s4 r3.ahead in
    let r5 = skip_ranges payload r4.at ranges _ s5 r4.ahead in
    let r6 = read payload r5.at ect0 _ s6 r5.ahead in
    let r7 = read payload r6.at ect1 _ s7 r6.ahead in
    let r8 = read payload r7.at ce rest s8 r7.ahead in
    record {
      at = r8.at;
      runs = ground (arith, r1.runs, r2.runs, r3.runs, r4.runs, r5.runs, r6.runs, r7.runs, r8.runs);
      ahead = r8.ahead;
    }

pub skip_application_close :
    (payload : Bytes) (i code : ℕ) (reason rest : Bytes)
    → IsSmall code
    → IsSmall (length reason)
    → At payload i (write code (write (length reason) (reason ++ rest)))
    → Skips payload (skip_application_close_frame payload i) rest
unfolding skip_application_close_frame ◌>>=◌ bail_if
skip_application_close payload i code reason rest s1 s2 here =
    let r1 = read payload i code _ s1 here in
    let r2 = read payload r1.at (length reason) _ s2 r1.ahead in
    record {
      at = r2.at + length reason;
      runs =
          ground (
            arith,
            r1.runs,
            r2.runs,
            At-length payload r2.at _ r2.ahead,
            length-append reason rest,
          );
      ahead = At-append reason rest _ r2.ahead refl;
    }

pub skip_transport_close :
    (payload : Bytes) (i code frame_type : ℕ) (reason rest : Bytes)
    → IsSmall code
    → IsSmall frame_type
    → IsSmall (length reason)
    → At payload i (write code (write frame_type (write (length reason) (reason ++ rest))))
    → Skips payload (skip_transport_close_frame payload i) rest
unfolding skip_transport_close_frame ◌>>=◌ bail_if
skip_transport_close payload i code frame_type reason rest s1 s2 s3 here =
    let r1 = read payload i code _ s1 here in
    let r2 = read payload r1.at frame_type _ s2 r1.ahead in
    let r3 = read payload r2.at (length reason) _ s3 r2.ahead in
    record {
      at = r3.at + length reason;
      runs = ground (
        arith,
        r1.runs,
        r2.runs,
        r3.runs,
        At-length payload r3.at _ r3.ahead,
        length-append reason rest,
      );
      ahead = At-append reason rest _ r3.ahead refl;
    }
