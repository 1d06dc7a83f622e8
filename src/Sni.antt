-- ===== src/Sni.antt =====
-- `extract_sni` of src/main.rs: the host name in a TLS ClientHello. A byte is a number; `usize` does not
-- wrap on lengths of at most 2 ^ 24. `String::from_utf8_lossy` is a parameter.
pub mod Safety
pub mod Written
pub mod Extensions
pub mod RoundTrip
pub mod Http3
use sni_router.Prelude.{
  ℕ, zero, suc, ◌+◌, ◌*◌, ◌%◌, ◌||◌, not, Option, none, some, ltb, leb, nat_eq, length,
  if◌then◌else◌,
}
use sni_router.Prelude.Outcomes.{
  Bytes, Outcome, ok, err, out_of_fuel, ◌>>=◌, ◌>>◌, bail_if, index, slice,
}

-- The `bail!` sites.
pub data HelloError : Type 0 where
  too_short not_client_hello truncated_body body_too_short truncated_session_id : HelloError
  missing_cipher_suites invalid_cipher_suites : HelloError
  missing_compression invalid_compression : HelloError
  missing_extensions truncated_extensions truncated_extension : HelloError
  missing_list_length truncated_list truncated_host : HelloError

-- `u16::from_be_bytes([bytes[i], bytes[i + 1]]) as usize`
pub read_u16 : Bytes → ℕ → Outcome HelloError ℕ
read_u16 bytes i = do high ← index bytes i; low ← index bytes (i + 1); ok (high * 256 + low)

module _ {Text : Type 0} (from_utf8_lossy : Bytes → Text) where
  -- `while k + 3 <= 2 + list_len`, where `limit` is `2 + list_len`.
  pub name_loop : ℕ → Bytes → ℕ → ℕ → Outcome HelloError (Option Text)
  name_loop zero ext limit k = if leb (k + 3) limit then out_of_fuel else ok none
  name_loop (suc fuel) ext limit k =
      let round = (do
        name_type ← index ext k
        host_len ← read_u16 ext (k + 1)
        bail_if (ltb limit (k + 3 + host_len)) truncated_host
        let found =
            slice ext (k + 3) (k + 3 + host_len) >>= λ host. ok (some (from_utf8_lossy host))
        let next = name_loop fuel ext limit (k + 3 + host_len)
        if nat_eq name_type 0 then found else next) in
      if leb (k + 3) limit then round else ok none

  -- The body of the server_name extension.
  pub server_name : Bytes → Outcome HelloError (Option Text)
  server_name ext = do
    bail_if (ltb (length ext) 2) missing_list_length
    list_len ← read_u16 ext 0
    bail_if (ltb (length ext) (2 + list_len)) truncated_list
    name_loop (length ext) ext (2 + list_len) 2

  -- `while j + 4 <= i + ext_total`, where `limit` is `i + ext_total`.
  pub extension_loop : ℕ → Bytes → ℕ → ℕ → Outcome HelloError (Option Text)
  extension_loop zero body limit j = if leb (j + 4) limit then out_of_fuel else ok none
  extension_loop (suc fuel) body limit j =
      let round = (do
        etype ← read_u16 body j
        elen ← read_u16 body (j + 2)
        bail_if (ltb limit (j + 4 + elen)) truncated_extension
        let named = slice body (j + 4) (j + 4 + elen) >>= server_name
        let next = extension_loop fuel body limit (j + 4 + elen)
        if nat_eq etype 0 then named else next) in
      if leb (j + 4) limit then round else ok none

  -- The optional extensions, from position `i` of the body.
  pub extensions : Bytes → ℕ → Outcome HelloError (Option Text)
  extensions body i =
      let block = (do
        bail_if (ltb (length body) (i + 2)) missing_extensions
        ext_total ← read_u16 body i
        bail_if (ltb (length body) (i + 2 + ext_total)) truncated_extensions
        extension_loop (length body) body (i + 2 + ext_total) (i + 2)) in
      if nat_eq i (length body) then ok none else block

  -- The fields of the body up to the extensions.
  pub hello_fields : Bytes → Outcome HelloError (Option Text)
  hello_fields body = do
    bail_if (ltb (length body) 35) body_too_short
    sid_len ← index body 34
    bail_if (ltb (length body) (35 + sid_len)) truncated_session_id
    let i1 = 35 + sid_len
    bail_if (ltb (length body) (i1 + 2)) missing_cipher_suites
    cs_len ← read_u16 body i1
    bail_if (ltb (length body) (i1 + 2 + cs_len) || not (nat_eq (cs_len % 2) 0))
        invalid_cipher_suites
    let i2 = i1 + 2 + cs_len
    bail_if (ltb (length body) (i2 + 1)) missing_compression
    cmethod_len ← index body i2
    bail_if (ltb (length body) (i2 + 1 + cmethod_len)) invalid_compression
    extensions body (i2 + 1 + cmethod_len)

  -- The three length bytes are disjoint bit fields, so `|` is `+`.
  unfoldable pub extract_sni : Bytes → Outcome HelloError (Option Text)
  unfolding read_u16 name_loop server_name extension_loop extensions hello_fields
  extract_sni clienthello = do
    bail_if (ltb (length clienthello) 4) too_short
    kind ← index clienthello 0
    bail_if (not (nat_eq kind 1)) not_client_hello
    b1 ← index clienthello 1
    b2 ← index clienthello 2
    b3 ← index clienthello 3
    let body_len = b1 * 65536 + b2 * 256 + b3
    bail_if (ltb (length clienthello) (4 + body_len)) truncated_body
    body ← slice clienthello 4 (4 + body_len)
    hello_fields body
