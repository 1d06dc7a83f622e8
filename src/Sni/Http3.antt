-- ===== src/Sni/Http3.antt =====
-- `extract_tls_sni` of src/bin/sni-router-h3.rs, the HTTP/3 router's own copy of the extraction, and
-- that it is the TCP router's function.
use mathlib.Core.Path.{fun_ext}
use sni_router.Prelude.{
  ℕ, zero, suc, ◌+◌, ◌*◌, ◌%◌, ◌≡◌, refl, ◌||◌, not, Option, none, some, ltb, leb, nat_eq, length,
  if◌then◌else◌,
}
use sni_router.Prelude.Outcomes.{
  Bytes, Outcome, ok, out_of_fuel, ◌>>=◌, ◌>>◌, bail_if, index, slice,
}
use sni_router.Sni.{
  HelloError, too_short, not_client_hello, truncated_body, body_too_short, truncated_session_id,
  missing_cipher_suites, invalid_cipher_suites, missing_compression, invalid_compression,
  missing_extensions, truncated_extensions, truncated_extension, missing_list_length,
  truncated_list, truncated_host, read_u16, name_loop, server_name, extension_loop, extensions,
  hello_fields, extract_sni,
}

module _ {Text : Type 0} (from_utf8_lossy : Bytes → Text) where
  -- `while k + 3 <= 2 + list_len`, where `limit` is `2 + list_len`.
  pub tls_name_loop : ℕ → Bytes → ℕ → ℕ → Outcome HelloError (Option Text)
  tls_name_loop zero ext limit k = if leb (k + 3) limit then out_of_fuel else ok none
  tls_name_loop (suc fuel) ext limit k =
      let round = (do
        name_type ← index ext k
        host_len ← read_u16 ext (k + 1)
        bail_if (ltb limit (k + 3 + host_len)) truncated_host
        let found =
            slice ext (k + 3) (k + 3 + host_len) >>= λ host. ok (some (from_utf8_lossy host))
        let next = tls_name_loop fuel ext limit (k + 3 + host_len)
        if nat_eq name_type 0 then found else next) in
      if leb (k + 3) limit then round else ok none

  -- The body of the server_name extension.
  pub tls_server_name : Bytes → Outcome HelloError (Option Text)
  tls_server_name ext = do
    bail_if (ltb (length ext) 2) missing_list_length
    list_len ← read_u16 ext 0
    bail_if (ltb (length ext) (2 + list_len)) truncated_list
    tls_name_loop (length ext) ext (2 + list_len) 2

  -- `while j + 4 <= i + ext_total`, where `limit` is `i + ext_total`.
  pub tls_extension_loop : ℕ → Bytes → ℕ → ℕ → Outcome HelloError (Option Text)
  tls_extension_loop zero body limit j = if leb (j + 4) limit then out_of_fuel else ok none
  tls_extension_loop (suc fuel) body limit j =
      let round = (do
        etype ← read_u16 body j
        elen ← read_u16 body (j + 2)
        bail_if (ltb limit (j + 4 + elen)) truncated_extension
        let named = slice body (j + 4) (j + 4 + elen) >>= tls_server_name
        let next = tls_extension_loop fuel body limit (j + 4 + elen)
        if nat_eq etype 0 then named else next) in
      if leb (j + 4) limit then round else ok none

  -- The optional extensions, from position `i` of the body.
  pub tls_extensions : Bytes → ℕ → Outcome HelloError (Option Text)
  tls_extensions body i =
      let block = (do
        bail_if (ltb (length body) (i + 2)) missing_extensions
        ext_total ← read_u16 body i
        bail_if (ltb (length body) (i + 2 + ext_total)) truncated_extensions
        tls_extension_loop (length body) body (i + 2 + ext_total) (i + 2)) in
      if nat_eq i (length body) then ok none else block

  -- The fields of the body up to the extensions.
  pub tls_hello_fields : Bytes → Outcome HelloError (Option Text)
  tls_hello_fields body = do
    bail_if (ltb (length body) 35) body_too_short
    sid_len ← index body 34
    bail_if (ltb (length body) (35 + sid_len)) truncated_session_id
    let i1 = 35 + sid_len
    bail_if (ltb (length body) (i1 + 2)) missing_cipher_suites
    cs_len ← read_u16 body i1
    bail_if (ltb (length body) (i1 + 2 + cs_len) || not (nat_eq (cs_len % 2) 0))
        invalid_cipher_suites
    let i2 = i1 + 2 + cs_len
    bail_if (ltb (length body) (i2 + 1)) missing_compression
    cmethod_len ← index body i2
    bail_if (ltb (length body) (i2 + 1 + cmethod_len)) invalid_compression
    tls_extensions body (i2 + 1 + cmethod_len)

  -- The three length bytes are disjoint bit fields, so `|` is `+`.
  unfoldable pub extract_tls_sni : Bytes → Outcome HelloError (Option Text)
  unfolding read_u16 tls_name_loop tls_server_name tls_extension_loop tls_extensions
      tls_hello_fields
  extract_tls_sni clienthello = do
    bail_if (ltb (length clienthello) 4) too_short
    kind ← index clienthello 0
    bail_if (not (nat_eq kind 1)) not_client_hello
    b1 ← index clienthello 1
    b2 ← index clienthello 2
    b3 ← index clienthello 3
    let body_len = b1 * 65536 + b2 * 256 + b3
    bail_if (ltb (length clienthello) (4 + body_len)) truncated_body
    body ← slice clienthello 4 (4 + body_len)
    tls_hello_fields body

module _ {Text : Type 0} (from_utf8_lossy : Bytes → Text) where
  name_loops :
      (fuel : ℕ) (ext : Bytes) (limit k : ℕ)
      → tls_name_loop from_utf8_lossy fuel ext limit k ≡ name_loop from_utf8_lossy fuel ext limit k
  unfolding tls_name_loop name_loop
  name_loops zero ext limit k = refl
  name_loops (suc fuel) ext limit k = simp (name_loops fuel)

  server_names_at :
      (ext : Bytes) → tls_server_name from_utf8_lossy ext ≡ server_name from_utf8_lossy ext
  unfolding tls_server_name server_name
  server_names_at ext = simp name_loops

  server_names : tls_server_name from_utf8_lossy ≡ server_name from_utf8_lossy
  server_names = fun_ext λ ext. server_names_at ext

  extension_loops :
      (fuel : ℕ) (body : Bytes) (limit j : ℕ)
      → tls_extension_loop from_utf8_lossy fuel body limit j
        ≡ extension_loop from_utf8_lossy fuel body limit j
  unfolding tls_extension_loop extension_loop
  extension_loops zero body limit j = refl
  extension_loops (suc fuel) body limit j = simp (extension_loops fuel, server_names)

  extension_blocks :
      (body : Bytes) (i : ℕ)
      → tls_extensions from_utf8_lossy body i ≡ extensions from_utf8_lossy body i
  unfolding tls_extensions extensions
  extension_blocks body i = simp extension_loops

  all_fields :
      (body : Bytes) → tls_hello_fields from_utf8_lossy body ≡ hello_fields from_utf8_lossy body
  unfolding tls_hello_fields hello_fields
  all_fields body = simp extension_blocks

  -- Both routers extract the same name, or refuse for the same reason, on any bytes.
  pub extract_tls_sni-extract_sni :
      (clienthello : Bytes)
      → extract_tls_sni from_utf8_lossy clienthello ≡ extract_sni from_utf8_lossy clienthello
  unfolding extract_tls_sni extract_sni
  extract_tls_sni-extract_sni clienthello = simp all_fields
