-- ===== src/Records.antt =====
-- `ensure_bytes_available` and `read_tls_clienthello` of src/main.rs. The stream is the bytes that will arrive before it
-- ends; a read beyond its end is an error. Buffers are grown by the bytes read.
pub mod Replay
pub mod Alike
pub mod Split
use sni_router.Prelude.{
  ℕ, zero, suc, ◌+◌, ◌-◌, ◌*◌, ◌⊎◌, inl, inr, Bool, true, List, [], ◌∷◌, ◌++◌, Option, none, some,
  ltb, leb, nat_eq, not, length, take, drop, if◌then◌else◌,
}
use sni_router.Prelude.Outcomes.{
  Bytes, Outcome, ok, err, panic, out_of_fuel, ◌>>=◌, ◌>>◌, index, slice,
}

-- Reading failed.
pub data ReadError : Type 0 where
  unexpected_eof : ReadError

-- The inner error: the bytes are no ClientHello.
pub data RecordError : Type 0 where
  unexpected_content_type zero_length_record unexpected_message : RecordError

-- The connection: what was read and is replayed to a backend, and what has not arrived.
pub record Connection : Type 0 where
  pub bytes : Bytes
  pub stream : Bytes

-- What `read_tls_clienthello` returns beside the bytes.
pub data Hello : Type 0 where
  clienthello : Bytes → Hello
  no_clienthello : RecordError → Hello

-- `read_exact` fills the buffer or fails.
unfoldable pub ensure_bytes_available : Connection → ℕ → Outcome ReadError Connection
ensure_bytes_available c len =
    if leb len (length c.bytes)
    then ok c
    else if ltb (length c.stream) (len - length c.bytes)
    then err unexpected_eof
    else ok (record {
      bytes = c.bytes ++ take (len - length c.bytes) c.stream;
      stream = drop (len - length c.bytes) c.stream;
    })

-- `needed.is_none_or(|n| hello.len() < n)`
abbrev pub wants_more : Option ℕ → Bytes → Bool
wants_more none hello = true
wants_more (some n) hello = ltb (length hello) n

-- The handshake header, once it is there: none as long as it is not, or the length that the message has with it.
pub read_needed : Option ℕ → Bytes → Outcome ReadError (Option ℕ ⊎ RecordError)
read_needed (some n) hello = ok (inl (some n))
read_needed none hello =
    let header = (do
      msg_type ← index hello 0
      b1 ← index hello 1
      b2 ← index hello 2
      b3 ← index hello 3
      ok (
          if nat_eq msg_type 1
          then inl (some (4 + (b1 * 65536 + b2 * 256 + b3)))
          else inr unexpected_message)) in
    if ltb (length hello) 4 then ok (inl none) else header

-- `needed.unwrap()` and `truncate`.
abbrev pub truncated : Option ℕ → Bytes → Outcome ReadError Bytes
truncated none hello = panic
truncated (some n) hello = ok (take n hello)

-- One record, from position `pos` of the bytes: its payload, or why it holds no handshake message.
pub read_record : Connection → ℕ → Outcome ReadError (Connection × (Bytes ⊎ RecordError))
read_record c pos = do
  c1 ← ensure_bytes_available c (pos + 5)
  content_type ← index c1.bytes pos
  high ← index c1.bytes (pos + 3)
  low ← index c1.bytes (pos + 4)
  let rec_len = high * 256 + low
  let other = ok (c1, inr unexpected_content_type)
  let empty = ok (c1, inr zero_length_record)
  let payload = (do
    c2 ← ensure_bytes_available c1 (pos + 5 + rec_len)
    part ← slice c2.bytes (pos + 5) (pos + 5 + rec_len)
    ok (c2, inl part))
  if not (nat_eq content_type 22) then other else if nat_eq rec_len 0 then empty else payload

-- The `while` loop and what follows it.
pub record_loop : ℕ → Connection → ℕ → Bytes → Option ℕ → Outcome ReadError (Connection × Hello)
record_loop zero c pos hello needed =
    if wants_more needed hello
    then out_of_fuel
    else truncated needed hello >>= λ h. ok (c, clienthello h)
record_loop (suc fuel) c pos hello needed =
    let round = (do
      (c1, payload) ← read_record c pos
      elim payload [
        | inr e ↦ ok (c1, no_clienthello e)
        | inl part ↦ do
          parsed ← read_needed needed (hello ++ part)
          elim parsed [
            | inl needed' ↦ record_loop fuel c1 (pos + 5 + length part) (hello ++ part) needed'
            | inr e ↦ ok (c1, no_clienthello e)
          ]
      ]) in
    let done = truncated needed hello >>= λ h. ok (c, clienthello h) in
    if wants_more needed hello then round else done

-- Each round but the last takes a byte at least.
unfoldable pub read_tls_clienthello : Bytes → Bytes → Outcome ReadError (Connection × Hello)
unfolding ensure_bytes_available read_needed read_record record_loop
read_tls_clienthello initial_bytes stream =
    record_loop (suc (length initial_bytes + length stream))
      (record { bytes = initial_bytes; stream = stream }) 0 [] none
