-- ===== src/Quic/Frames/Written.antt =====
-- The frames that RFC 9000 allows in an Initial packet, as they are written.
use sni_router.Prelude.{ℕ, ◌^◌, ◌<◌, List, [], ◌∷◌, ◌++◌, length}
use sni_router.Prelude.Outcomes.{Bytes}
use sni_router.Quic.Frames.{CryptoFrames}
use sni_router.Quic.Varint.{encode_varint}

abbrev pub Ranges : Type 0
Ranges = List (ℕ × ℕ)

pub data Frame : Type 0 where
  padding ping : Frame
  ack : ℕ → ℕ → Ranges → ℕ → Frame
  ack_ecn : ℕ → ℕ → Ranges → ℕ → ℕ → ℕ → ℕ → Frame
  crypto : ℕ → Bytes → Frame
  transport_close : ℕ → ℕ → Bytes → Frame
  application_close : ℕ → Bytes → Frame

abbrev pub write : ℕ → Bytes → Bytes
write value rest = encode_varint value ++ rest

abbrev pub write_ranges : Ranges → Bytes → Bytes
write_ranges [] rest = rest
write_ranges ((gap, len) ∷ ranges) rest = write gap (write len (write_ranges ranges rest))

abbrev pub write_frame : Frame → Bytes → Bytes
write_frame padding rest = write 0x00 rest
write_frame ping rest = write 0x01 rest
write_frame (ack largest delay ranges first) rest =
    write 0x02
      (write largest (write delay (write (length ranges) (write first (write_ranges ranges rest)))))
write_frame (ack_ecn largest delay ranges first ect0 ect1 ce) rest = write 0x03 (
    write largest (
      write delay (
        write (length ranges)
          (write first (write_ranges ranges (write ect0 (write ect1 (write ce rest))))))))
write_frame (crypto offset part) rest =
    write 0x06 (write offset (write (length part) (part ++ rest)))
write_frame (transport_close code frame_type reason) rest =
    write 0x1c (write code (write frame_type (write (length reason) (reason ++ rest))))
write_frame (application_close code reason) rest =
    write 0x1d (write code (write (length reason) (reason ++ rest)))

abbrev pub write_frames : List Frame → Bytes
write_frames [] = []
write_frames (f ∷ fs) = write_frame f (write_frames fs)

abbrev pub IsSmall : ℕ → Type 0
IsSmall v = v < 2 ^ 62

abbrev pub AreSmall : Ranges → Type 0
AreSmall [] = Unit {0}
AreSmall ((gap, len) ∷ ranges) = IsSmall gap × IsSmall len × AreSmall ranges

-- Every number of the frame has 62 bits.
abbrev pub IsWritable : Frame → Type 0
IsWritable padding = Unit {0}
IsWritable ping = Unit {0}
IsWritable (ack largest delay ranges first) =
    IsSmall largest × IsSmall delay × IsSmall (length ranges) × IsSmall first × AreSmall ranges
IsWritable (ack_ecn largest delay ranges first ect0 ect1 ce) =
    IsSmall largest
    × IsSmall delay
    × IsSmall (length ranges)
    × IsSmall first
    × AreSmall ranges
    × IsSmall ect0
    × IsSmall ect1
    × IsSmall ce
IsWritable (crypto offset part) = IsSmall offset × IsSmall (length part)
IsWritable (transport_close code frame_type reason) =
    IsSmall code × IsSmall frame_type × IsSmall (length reason)
IsWritable (application_close code reason) = IsSmall code × IsSmall (length reason)

abbrev pub AreWritable : List Frame → Type 0
AreWritable [] = Unit {0}
AreWritable (f ∷ fs) = IsWritable f × AreWritable fs

-- The CRYPTO frames, in order.
abbrev pub found : Frame → CryptoFrames
found (crypto offset part) = (offset, part) ∷ []
found _ = []

abbrev pub all_found : List Frame → CryptoFrames
all_found [] = []
all_found (f ∷ fs) = found f ++ all_found fs
