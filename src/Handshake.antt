-- ===== src/Handshake.antt =====
-- `tls_record_len`, `process_tls_record`, `process_buffered_tls_records` and `tls_handshake` of src/main.rs: TLS with
-- the client, up to the point where the kernel takes over.
pub mod NextRecord
pub mod Feeding
pub mod Boundary
use sni_router.Prelude.{
  ℕ, zero, suc, ◌+◌, ◌*◌, Bool, true, false, not, List, [], ◌∷◌, ◌++◌, Option, none, some, ltb,
  nat_eq, length, take, drop, if◌then◌else◌,
}
use sni_router.Prelude.Outcomes.{
  Bytes, Outcome, ok, err, panic, out_of_fuel, ◌>>=◌, ◌>>◌, bail_if, ok_or, index, slice,
}
use sni_router.Records.{ReadError, Connection, ensure_bytes_available}

-- `rustls::ServerConnection`, the client's socket, and the kernel. Each may fail.
pub record Rustls : Type 1 where
  pub Config : Type 0
  pub Tls : Type 0
  pub new : Config → Option Tls
  -- How many of the bytes were read.
  pub read_tls : Tls → Bytes → Option (ℕ × Tls)
  -- `plaintext_bytes_to_read`
  pub process_new_packets : Tls → Option (ℕ × Tls)
  -- `reader().read_exact` of that many bytes
  pub read_plaintext : Tls → ℕ → Option (Bytes × Tls)
  pub is_handshaking : Tls → Bool
  pub wants_write : Tls → Bool
  pub write_tls : Tls → Option (Bytes × Tls)
  -- A bound on the calls of `write_tls` that are left.
  pub pending : Tls → ℕ
  -- Whether the client takes the second bytes after the first.
  pub takes : Bytes → Bytes → Bool
  -- The setting of the socket's options, with the keys: what the kernel will read from the bytes that arrive.
  pub enable_ktls : Tls → Option (Bytes → Bytes)

pub data HandshakeError : Type 0 where
  no_connection incomplete_read incomplete_header incomplete_payload reading_tls stopped_consuming
        processing_packets draining_plaintext writing_tls client_gone no_ktls :
      HandshakeError

abbrev reading : {A : Type 0} → Outcome ReadError A → Outcome HandshakeError A
reading (ok a) = ok a
reading (err e) = err incomplete_read
reading panic = panic
reading out_of_fuel = out_of_fuel

unfoldable pub tls_record_len : Bytes → Outcome HandshakeError ℕ
tls_record_len bytes =
    let len = (do b3 ← index bytes 3; b4 ← index bytes 4; ok (5 + (b3 * 256 + b4))) in
    if ltb (length bytes) 5 then err incomplete_header else len

-- The next record, which `ensure_bytes_available` completes and `drain` takes from the bytes.
pub next_record : Connection → Outcome HandshakeError (Bytes × Connection)
next_record c = do
  c1 ← reading (ensure_bytes_available c 5)
  len ← tls_record_len c1.bytes
  c2 ← reading (ensure_bytes_available c1 len)
  part ← slice c2.bytes 0 len
  ok (part, record { bytes = drop len c2.bytes; stream = c2.stream })

module _ (rustls : Rustls) where
  open rustls use {
    Config, Tls, new, read_tls, process_new_packets, read_plaintext, is_handshaking, wants_write,
    write_tls, pending, takes, enable_ktls,
  }

  -- `if count > 0`
  abbrev pub drain_plaintext : Tls → ℕ → Outcome HandshakeError (Bytes × Tls)
  drain_plaintext tls zero = ok ([], tls)
  drain_plaintext tls (suc count) = ok_or (read_plaintext tls (suc count)) draining_plaintext

  -- `while cursor.position() < record.len()`, on what the cursor has left.
  pub process_loop : ℕ → Tls → Bytes → Bytes → Outcome HandshakeError (Tls × Bytes)
  process_loop fuel tls [] plaintext = ok (tls, plaintext)
  process_loop zero tls (b ∷ rest) plaintext = out_of_fuel
  process_loop (suc fuel) tls (b ∷ rest) plaintext = do
    (n, tls1) ← ok_or (read_tls tls (b ∷ rest)) reading_tls
    bail_if (nat_eq n 0) stopped_consuming
    (count, tls2) ← ok_or (process_new_packets tls1) processing_packets
    (more, tls3) ← drain_plaintext tls2 count
    process_loop fuel tls3 (drop n (b ∷ rest)) (plaintext ++ more)

  unfoldable pub process_tls_record : Tls → Bytes → Bytes → Outcome HandshakeError (Tls × Bytes)
  unfolding process_loop
  process_tls_record tls part plaintext = process_loop (length part) tls part plaintext

  -- `while !bytes.is_empty()`
  pub buffered_loop : ℕ → Tls → Bytes → Bytes → Outcome HandshakeError (Tls × Bytes)
  buffered_loop fuel tls [] plaintext = ok (tls, plaintext)
  buffered_loop zero tls (b ∷ rest) plaintext = out_of_fuel
  buffered_loop (suc fuel) tls (b ∷ rest) plaintext = do
    len ← tls_record_len (b ∷ rest)
    bail_if (ltb (length (b ∷ rest)) len) incomplete_payload
    (tls1, plaintext1) ← process_tls_record tls (take len (b ∷ rest)) plaintext
    buffered_loop fuel tls1 (drop len (b ∷ rest)) plaintext1

  unfoldable pub process_buffered_tls_records :
      Tls → Bytes → Bytes → Outcome HandshakeError (Tls × Bytes)
  unfolding process_tls_record buffered_loop
  process_buffered_tls_records tls bytes plaintext =
      buffered_loop (length bytes) tls bytes plaintext

  -- `while tls.wants_write()`, with what the client was sent.
  pub write_loop : ℕ → Tls → Bytes → Outcome HandshakeError (Tls × Bytes)
  write_loop zero tls sent = if wants_write tls then out_of_fuel else ok (tls, sent)
  write_loop (suc fuel) tls sent =
      let round = (do
        (output, tls1) ← ok_or (write_tls tls) writing_tls
        bail_if (not (takes sent output)) client_gone
        write_loop fuel tls1 (sent ++ output)) in
      if wants_write tls then round else ok (tls, sent)

  -- `if !tls.is_handshaking()`
  abbrev pub after_record : Tls → Bytes → Bytes → Outcome HandshakeError (Tls × Bytes)
  after_record tls bytes plaintext =
      if is_handshaking tls
      then ok (tls, plaintext)
      else process_buffered_tls_records tls bytes plaintext

  pub handshake_loop :
      ℕ
      → Connection
      → Tls
      → Bytes
      → Bytes
      → Outcome HandshakeError (Connection × Tls × Bytes × Bytes)
  handshake_loop zero c tls plaintext sent = out_of_fuel
  handshake_loop (suc fuel) c tls plaintext sent = do
    (part, c1) ← next_record c
    (tls1, plaintext1) ← process_tls_record tls part plaintext
    (tls2, plaintext2) ← after_record tls1 c1.bytes plaintext1
    (tls3, sent1) ← write_loop (suc (pending tls2)) tls2 sent
    let again = handshake_loop fuel c1 tls3 plaintext2 sent1
    if is_handshaking tls3 then again else ok (c1, tls3, plaintext2, sent1)

  -- The connection for the backend, and what the client was sent. Each round takes a record.
  unfoldable pub tls_handshake : Connection → Config → Outcome HandshakeError (Connection × Bytes)
  unfolding process_buffered_tls_records write_loop next_record handshake_loop
  tls_handshake c cfg = do
    tls ← ok_or (new cfg) no_connection
    (c1, tls1, plaintext, sent) ←
        handshake_loop (suc (length c.bytes + length c.stream)) c tls [] []
    kernel ← ok_or (enable_ktls tls1) no_ktls
    ok (record { bytes = plaintext; stream = kernel c1.stream }, sent)
