-- ===== src/Quic.antt =====
-- The QUIC v1 parsing half of src/bin/sni-router-h3.rs: long headers, Initial headers, the frames of
-- an Initial packet, and the reassembly of the ClientHello. A byte is a number; `u64` values have at
-- most 62 bits here, and `usize` has 64, so no addition of the code wraps.
pub mod Error
pub mod Varint
pub mod LongHeader
pub mod InitialHeader
pub mod Frames
pub mod Reassembly
pub mod Decrypt
