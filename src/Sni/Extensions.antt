-- ===== src/Sni/Extensions.antt =====
-- The name is found in an extension block that it was written into.
use sni_router.Prelude.{
  ℕ, zero, suc, ◌+◌, ◌≤◌, ◌≡◌, refl, ap, List, [], ◌∷◌, ◌++◌, some, arith, length, length-append,
}
use sni_router.Prelude.BigEndian.{to_be_bytes}
use sni_router.Prelude.Cursor.{At, At-zero, At-suc, At-append, At-length, index-At, slice-At}
use sni_router.Prelude.Outcomes.{Bytes, ok, ◌>>=◌, bail_if}
use sni_router.Sni.Written.{
  sized, IsU16, part_onto, name_onto, names_onto, extension_onto, extensions_onto, Hello, name_list,
  extension_block, AreOther, IsWritable,
}
use sni_router.Sni.{HelloError, read_u16, name_loop, server_name, extension_loop, extensions}

pub read_u16-At :
    (bytes : Bytes) (i value : ℕ) (rest : Bytes)
    → IsU16 value
    → At bytes i (to_be_bytes 2 value ++ rest)
    → read_u16 bytes i ≡ ok value
unfolding read_u16 ◌>>=◌
read_u16-At bytes i value rest small at =
    rw (index-At {E = HelloError} at)
      (rw (index-At {E = HelloError} (At-suc (i + 1) at refl)) (ap ok (omega arith)))

pub At-u16 :
    {bytes : Bytes} {i : ℕ} (value : ℕ) (rest : Bytes) (j : ℕ)
    → At bytes i (to_be_bytes 2 value ++ rest)
    → j ≡ i + 2
    → At bytes j rest
At-u16 value rest j at e = At-append (to_be_bytes 2 value) rest j at e

module _ {Text : Type 0} (from_utf8_lossy : Bytes → Text) where
  host_found :
      (fuel : ℕ) (ext : Bytes) (limit k : ℕ) (host later : Bytes)
      → IsU16 (length host)
      → At ext k (name_onto (0, host) later)
      → limit ≡ length ext
      → limit ≤ k + fuel
      → name_loop from_utf8_lossy fuel ext limit k ≡ ok (some (from_utf8_lossy host))
  unfolding name_loop ◌>>=◌ bail_if
  host_found zero ext limit k host later s at e f = absurd (omega (arith, At-length ext k _ at))
  host_found (suc fuel) ext limit k host later s at e f =
      let size = At-length ext k _ at in
      let at1 = At-suc (k + 1) at refl in
      let at3 = At-u16 (length host) (host ++ later) (k + 3) at1 (omega arith) in
      ground (
        arith,
        size,
        length-append host later,
        index-At {E = HelloError} at,
        read_u16-At ext (k + 1) (length host) (host ++ later) s at1,
        slice-At {E = HelloError} (k + 3) (k + 3 + length host) host later at3 refl,
      )

  names_skipped :
      (names : List (ℕ × Bytes)) (fuel : ℕ) (ext : Bytes) (limit k : ℕ) (host later : Bytes)
      → AreOther names
      → IsU16 (length host)
      → At ext k (names_onto names (name_onto (0, host) later))
      → limit ≡ length ext
      → limit ≤ k + fuel
      → name_loop from_utf8_lossy fuel ext limit k ≡ ok (some (from_utf8_lossy host))
  unfolding name_loop ◌>>=◌ bail_if
  names_skipped [] fuel ext limit k host later o s at e f =
      host_found fuel ext limit k host later s at e f
  names_skipped (n ∷ names) zero ext limit k host later o s at e f =
      absurd (omega (arith, At-length ext k _ at))
  names_skipped ((kind, name) ∷ names) (suc fuel) ext limit k host later o s at e f =
      let rest = names_onto names (name_onto (0, host) later) in
      let size = At-length ext k _ at in
      let at1 = At-suc (k + 1) at refl in
      let at3 = At-u16 (length name) (name ++ rest) (k + 3) at1 (omega arith) in
      let at4 = At-append name rest (k + 3 + length name) at3 refl in
      ground (
        arith,
        size,
        length-append name rest,
        index-At {E = HelloError} at,
        read_u16-At ext (k + 1) (length name) (name ++ rest) o.2 at1,
        names_skipped names fuel ext limit (k + 3 + length name) host later o.3 s at4 e
            (omega arith),
      )

  -- The server_name extension of `h`.
  server_name-sized :
      (h : Hello)
      → IsWritable h
      → server_name from_utf8_lossy (sized (name_list h)) ≡ ok (some (from_utf8_lossy h.host))
  unfolding server_name ◌>>=◌ bail_if
  server_name-sized h w =
      let ext = sized (name_list h) in
      let at0 = At-zero ext in
      let at2 = At-u16 (length (name_list h)) (name_list h) 2 at0 refl in
      ground (
        arith,
        read_u16-At ext 0 (length (name_list h)) (name_list h) (omega (arith, w.list_size)) at0,
        names_skipped h.earlier_names (length ext) ext (2 + length (name_list h)) 2 h.host
            h.later_names w.other_names w.host_size at2 (omega arith) (omega arith),
      )

  name_extension_found :
      (h : Hello)
      → IsWritable h
      → (fuel : ℕ) (body : Bytes) (limit j : ℕ)
      → At body j (extension_onto (0, sized (name_list h)) h.later_extensions)
      → limit ≡ length body
      → limit ≤ j + fuel
      → extension_loop from_utf8_lossy fuel body limit j ≡ ok (some (from_utf8_lossy h.host))
  unfolding extension_loop ◌>>=◌ bail_if
  name_extension_found h w zero body limit j at e f = absurd (omega (arith, At-length body j _ at))
  name_extension_found h w (suc fuel) body limit j at e f =
      let ext = sized (name_list h) in
      let size = At-length body j _ at in
      let at2 = At-u16 0 (part_onto ext h.later_extensions) (j + 2) at refl in
      let at4 = At-u16 (length ext) (ext ++ h.later_extensions) (j + 4) at2 (omega arith) in
      ground (
        arith,
        size,
        length-append ext h.later_extensions,
        read_u16-At body j 0 (part_onto ext h.later_extensions) (omega arith) at,
        read_u16-At body (j + 2) (length ext) (ext ++ h.later_extensions)
            (omega (arith, w.list_size)) at2,
        slice-At {E = HelloError} (j + 4) (j + 4 + length ext) ext h.later_extensions at4 refl,
        server_name-sized h w,
      )

  extensions_skipped :
      (h : Hello)
      → IsWritable h
      → (es : List (ℕ × Bytes)) (fuel : ℕ) (body : Bytes) (limit j : ℕ) → AreOther es
      → At body j (extensions_onto es (extension_onto (0, sized (name_list h)) h.later_extensions))
      → limit ≡ length body
      → limit ≤ j + fuel
      → extension_loop from_utf8_lossy fuel body limit j ≡ ok (some (from_utf8_lossy h.host))
  unfolding extension_loop ◌>>=◌ bail_if
  extensions_skipped h w [] fuel body limit j o at e f =
      name_extension_found h w fuel body limit j at e f
  extensions_skipped h w (x ∷ es) zero body limit j o at e f =
      absurd (omega (arith, At-length body j _ at))
  extensions_skipped h w ((etype, ext) ∷ es) (suc fuel) body limit j o at e f =
      let rest = extensions_onto es (extension_onto (0, sized (name_list h)) h.later_extensions) in
      let size = At-length body j _ at in
      let at2 = At-u16 etype (part_onto ext rest) (j + 2) at refl in
      let at4 = At-u16 (length ext) (ext ++ rest) (j + 4) at2 (omega arith) in
      let at5 = At-append ext rest (j + 4 + length ext) at4 refl in
      ground (
        arith,
        size,
        length-append ext rest,
        read_u16-At body j etype (part_onto ext rest) o.1 at,
        read_u16-At body (j + 2) (length ext) (ext ++ rest) o.2 at2,
        extensions_skipped h w es fuel body limit (j + 4 + length ext) o.3 at5 e (omega arith),
      )

  pub extensions-sized :
      (h : Hello)
      → IsWritable h
      → (body : Bytes) (i : ℕ) → At body i (sized (extension_block h))
      → extensions from_utf8_lossy body i ≡ ok (some (from_utf8_lossy h.host))
  unfolding extensions ◌>>=◌ bail_if
  extensions-sized h w body i at =
      let size = At-length body i _ at in
      let at2 = At-u16 (length (extension_block h)) (extension_block h) (i + 2) at refl in
      ground (
        arith,
        size,
        read_u16-At body i (length (extension_block h)) (extension_block h) w.block_size at,
        extensions_skipped h w h.earlier_extensions (length body) body
            (i + 2 + length (extension_block h)) (i + 2) w.other_extensions at2 (omega arith)
            (omega arith),
      )
