-- ===== src/Sni/RoundTrip.antt =====
-- The host name that a ClientHello was written with is the one that is extracted.
use mathlib.Core.List.{append-nil}
use sni_router.Prelude.{
  suc, ◌+◌, ◌*◌, ◌/◌, ◌%◌, ◌^◌, ◌<◌, ◌≡◌, refl, ◌∙◌, [], ◌∷◌, ◌++◌, some, le→ltb, arith, length,
}
use sni_router.Prelude.BigEndian.{client_hello}
use sni_router.Prelude.Cursor.{At, At-zero, At-suc, At-append, At-length, index-At, slice-At}
use sni_router.Prelude.Outcomes.{Bytes, ok, ◌>>=◌, bail_if, index}
use sni_router.Sni.Written.{
  sized, part_onto, Hello, extension_block, hello_body, write_hello, IsWritable,
}
use sni_router.Sni.{HelloError, hello_fields, extract_sni}
use sni_router.Sni.Extensions.{read_u16-At, At-u16, extensions-sized}

module _ {Text : Type 0} (from_utf8_lossy : Bytes → Text) where
  hello_fields-hello_body :
      (h : Hello)
      → IsWritable h
      → hello_fields from_utf8_lossy (hello_body h) ≡ ok (some (from_utf8_lossy h.host))
  unfolding hello_fields ◌>>=◌ bail_if
  hello_fields-hello_body h w =
      let body = hello_body h in
      let tail = sized (extension_block h) in
      let at1 =
        At-append h.opening
          (length h.session_id
            ∷ (h.session_id
                ++ part_onto h.cipher_suites (length h.compression ∷ (h.compression ++ tail))))
          34 (At-zero body) (omega (arith, w.opening_size)) in
      let at2 = At-suc 35 at1 refl in
      let i1 = 35 + length h.session_id in
      let at3 =
        At-append h.session_id
          (part_onto h.cipher_suites (length h.compression ∷ (h.compression ++ tail))) i1 at2
          refl in
      let at4 =
        At-u16 (length h.cipher_suites)
          (h.cipher_suites ++ (length h.compression ∷ (h.compression ++ tail))) (i1 + 2) at3 refl in
      let i2 = i1 + 2 + length h.cipher_suites in
      let at5 =
        At-append h.cipher_suites (length h.compression ∷ (h.compression ++ tail)) i2 at4 refl in
      let at6 = At-suc (i2 + 1) at5 refl in
      let at7 = At-append h.compression tail (i2 + 1 + length h.compression) at6 refl in
      ground (
        arith,
        At-length body _ _ at3,
        At-length body _ _ at5,
        At-length body _ _ at7,
        index-At {E = HelloError} at1,
        read_u16-At body i1 (length h.cipher_suites) _ w.ciphers_size at3,
        w.ciphers_even,
        index-At {E = HelloError} at5,
        extensions-sized from_utf8_lossy h w body (i2 + 1 + length h.compression) at7,
      )

  -- The frame of the handshake message is taken off.
  extract_sni-client_hello :
      (body : Bytes)
      → length body < 2 ^ 24
      → extract_sni from_utf8_lossy (client_hello body) ≡ hello_fields from_utf8_lossy body
  unfolding extract_sni ◌>>=◌ bail_if index
  extract_sni-client_hello body b =
      let n = length body in
      let size : n / 65536 * 65536 + n / 256 % 256 * 256 + n % 256 ≡ n = omega arith in
      let at4 : At (client_hello body) 4 (body ++ []) = record {
        inside = omega arith;
        ahead = rw append-nil;
      } in
      rw size (
        rw
          (
            le→ltb (suc (suc (suc (suc n)))) 4 (omega arith),
            le→ltb (suc (suc (suc (suc n)))) (4 + n) (omega arith),
          )
          (rw (slice-At {E = HelloError} 4 (4 + n) body [] at4 refl)))

  -- Of a ClientHello whose lengths fit their fields, the extracted name is the host name it was
  -- written with, whatever else it holds: the first entry of type `host_name` in the first extension
  -- of type `server_name`.
  pub extract_sni-write_hello :
      (h : Hello)
      → IsWritable h
      → extract_sni from_utf8_lossy (write_hello h) ≡ ok (some (from_utf8_lossy h.host))
  extract_sni-write_hello h w =
      extract_sni-client_hello (hello_body h) w.body_size ∙ hello_fields-hello_body h w
