-- ===== src/Handshake/Feeding.antt =====
-- What a handshake gives to rustls: whole records, one by one.
use mathlib.Core.List.{append_assoc, append-nil}
use mathlib.Core.Path.{subst}
use sni_router.Prelude.{
  ℕ, zero, suc, ◌≤◌, ◌<◌, ◌≡◌, refl, ap, sym, ◌∙◌, inl, inr, true, false, [], ◌∷◌, ◌++◌, some,
  Bool-cases, Option-cases, length, take, drop, length-drop, take-append-drop, tests, arith,
}
use sni_router.Prelude.Outcomes.{
  Bytes, Post, returns, fails, Post-bind, Post-weaken, Post-bail_if, Post-ok_or, ok_or,
}
use sni_router.Handshake.{
  Rustls, drain_plaintext, process_loop, process_tls_record, buffered_loop, write_loop,
}
use sni_router.Handshake.NextRecord.{IsRecord, tls_record_len-Post}

-- What the code relies on of rustls: a new connection is in its handshake, which does not begin again once it has ended;
-- writing does not end it, and comes to an end itself.
pub record IsRustls (rustls : Rustls) : Type 0 where
  pub new_handshakes :
      (cfg : rustls.Config) (t : rustls.Tls)
      → rustls.new cfg ≡ some t
      → rustls.is_handshaking t ≡ true
  pub read_keeps :
      (t t' : rustls.Tls) (bytes : Bytes) (n : ℕ)
      → rustls.read_tls t bytes ≡ some (n, t')
      → rustls.is_handshaking t ≡ false
      → rustls.is_handshaking t' ≡ false
  pub process_keeps :
      (t t' : rustls.Tls) (count : ℕ)
      → rustls.process_new_packets t ≡ some (count, t')
      → rustls.is_handshaking t ≡ false
      → rustls.is_handshaking t' ≡ false
  pub drain_keeps :
      (t t' : rustls.Tls) (count : ℕ) (plaintext : Bytes)
      → rustls.read_plaintext t count ≡ some (plaintext, t')
      → rustls.is_handshaking t ≡ false
      → rustls.is_handshaking t' ≡ false
  pub write_keeps :
      (t t' : rustls.Tls) (output : Bytes)
      → rustls.write_tls t ≡ some (output, t')
      → rustls.is_handshaking t' ≡ rustls.is_handshaking t
  pub write_ends :
      (t t' : rustls.Tls) (output : Bytes)
      → rustls.wants_write t ≡ true
      → rustls.write_tls t ≡ some (output, t')
      → rustls.pending t' < rustls.pending t

module _ (rustls : Rustls) where
  open rustls use {Tls, read_tls, process_new_packets, read_plaintext, wants_write, write_tls}

  -- All plaintext of a count is taken from rustls.
  pub data Drained : Tls → ℕ → Bytes → Tls → Type 0 where
    nothing : {t : Tls} → Drained t 0 [] t
    drained :
        {t t' : Tls} {count : ℕ} {plaintext : Bytes}
        → read_plaintext t (suc count) ≡ some (plaintext, t')
        → Drained t (suc count) plaintext t'

  -- rustls takes bytes to the last one, in pieces: each is read and processed, and the plaintext that this yields is
  -- taken before the next one.
  pub data Processed : Tls → Bytes → Bytes → Tls → Type 0 where
    all_taken : {t : Tls} → Processed t [] [] t
    piece :
        {t t1 t2 t3 t' : Tls} {b : ℕ} {rest more plaintext : Bytes} (n count : ℕ)
        → read_tls t (b ∷ rest) ≡ some (n, t1)
        → 1 ≤ n
        → process_new_packets t1 ≡ some (count, t2)
        → Drained t2 count more t3
        → Processed t3 (drop n (b ∷ rest)) plaintext t'
        → Processed t (b ∷ rest) (more ++ plaintext) t'

  -- The client is sent all that rustls wants to write.
  pub data Written : Tls → Bytes → Tls → Type 0 where
    all_written : {t : Tls} → wants_write t ≡ false → Written t [] t
    wrote :
        {t t1 t' : Tls} {output more : Bytes}
        → wants_write t ≡ true
        → write_tls t ≡ some (output, t1)
        → Written t1 more t'
        → Written t (output ++ more) t'

  -- From the state `t0`, with the plaintext `p0` and the bytes `sent0` sent so far, rustls has come to another state by
  -- the bytes, which are whole records, each processed to its last byte, and by replies. No plaintext is lost.
  pub data Fed (t0 : Tls) (p0 sent0 : Bytes) : Bytes → Tls → Bytes → Bytes → Type 0 where
    none_yet : Fed t0 p0 sent0 [] t0 p0 sent0
    one_more :
        {before p sent more : Bytes} {t t' : Tls} (part : Bytes)
        → Fed t0 p0 sent0 before t p sent
        → IsRecord part
        → Processed t part more t'
        → Fed t0 p0 sent0 (before ++ part) t' (p ++ more) sent
    replied :
        {before p sent output : Bytes} {t t' : Tls}
        → Fed t0 p0 sent0 before t p sent
        → Written t output t'
        → Fed t0 p0 sent0 before t' p (sent ++ output)

module _ (rustls : Rustls) (good : IsRustls rustls) where
  open rustls use {
    Tls, read_tls, process_new_packets, read_plaintext, is_handshaking, wants_write, write_tls,
    pending, takes,
  }

  drain_plaintext-Post :
      (t : Tls) (count : ℕ)
      → Post
          (λ (more, t').
            Drained rustls t count more t' × (is_handshaking t ≡ false → is_handshaking t' ≡ false))
          (drain_plaintext rustls t count)
  unfolding ok_or
  drain_plaintext-Post t zero = returns (nothing, λ h. h)
  drain_plaintext-Post t (suc count) = elim (Option-cases (read_plaintext t (suc count))) [
    | inl e ↦ rw e fails
    | inr ((more, t'), e) ↦ rw e (returns (drained e, good.drain_keeps t t' (suc count) more e))
  ]

  -- What a record does to the state and the plaintext.
  abbrev Adds : Tls → Bytes → Bytes → Tls × Bytes → Type 0
  Adds t bytes plaintext (t', p) =
      (more : Bytes) × (p ≡ plaintext ++ more)
      × Processed rustls t bytes more t'
      × (is_handshaking t ≡ false → is_handshaking t' ≡ false)

  process_loop-Post :
      (fuel : ℕ) (t : Tls) (bytes plaintext : Bytes)
      → length bytes ≤ fuel
      → Post (Adds t bytes plaintext) (process_loop rustls fuel t bytes plaintext)
  unfolding process_loop
  process_loop-Post fuel t [] plaintext enough =
      returns ([], sym (append-nil plaintext), all_taken, λ h. h)
  process_loop-Post zero t (b ∷ rest) plaintext enough = absurd (omega arith)
  process_loop-Post (suc fuel) t (b ∷ rest) plaintext enough = Post-ok_or _ _ _ λ (n, t1) e1.
      Post-bail_if _ _ _ λ some_read.
        let took : 1 ≤ n = ground (arith, some_read) in
        Post-ok_or _ _ _ λ (count, t2) e2.
          Post-bind _ _ (drain_plaintext-Post t2 count) λ (more, t3) (d, k3).
            Post-weaken
              (process_loop-Post fuel t3 (drop n (b ∷ rest)) (plaintext ++ more)
                (omega (tests, length-drop n (b ∷ rest), enough, took)))
              λ (t', p) (behind, e, taken, k). (
                more ++ behind,
                e ∙ append_assoc plaintext more behind,
                piece n count e1 took e2 d taken,
                λ h. k (
                    k3
                      (good.process_keeps t1 t2 count e2 (good.read_keeps t t1 (b ∷ rest) n e1 h))),
              )

  pub process_tls_record-Post :
      (t : Tls) (part plaintext : Bytes)
      → Post (Adds t part plaintext) (process_tls_record rustls t part plaintext)
  unfolding process_tls_record
  process_tls_record-Post t part plaintext =
      process_loop-Post (length part) t part plaintext (omega arith)

  pub write_loop-Post :
      (fuel : ℕ) (t : Tls) (sent : Bytes)
      → pending t < fuel
      → Post
          (λ (t', sent').
            (output : Bytes) × (sent' ≡ sent ++ output)
            × Written rustls t output t'
            × (is_handshaking t' ≡ is_handshaking t)
            × (wants_write t' ≡ false))
          (write_loop rustls fuel t sent)
  unfolding write_loop
  write_loop-Post zero t sent enough = absurd (omega arith)
  write_loop-Post (suc fuel) t sent enough = elim (Bool-cases (wants_write t)) [
    | inr w ↦ rw w (returns ([], sym (append-nil sent), all_written w, refl, w))
    | inl w ↦ rw w (
        Post-ok_or _ _ _ λ (output, t1) e. Post-bail_if _ _ _ λ taken.
          Post-weaken
            (write_loop-Post fuel t1 (sent ++ output)
              (omega (arith, enough, good.write_ends t t1 output w e)))
            λ (t', sent') (more, is, behind, k, off). (
              output ++ more,
              is ∙ append_assoc sent output more,
              wrote w e behind,
              k ∙ good.write_keeps t t1 output e,
              off,
            ))
  ]

  pub buffered_loop-Post :
      (fuel : ℕ) (t0 t : Tls) (p0 sent0 before bytes plaintext sent : Bytes)
      → length bytes ≤ fuel
      → Fed rustls t0 p0 sent0 before t plaintext sent
      → is_handshaking t ≡ false
      → Post
          (λ (t', p).
            Fed rustls t0 p0 sent0 (before ++ bytes) t' p sent × (is_handshaking t' ≡ false))
          (buffered_loop rustls fuel t bytes plaintext)
  unfolding buffered_loop
  buffered_loop-Post fuel t0 t p0 sent0 before [] plaintext sent enough f h =
      returns (rw (append-nil before) f, h)
  buffered_loop-Post zero t0 t p0 sent0 before (b ∷ rest) plaintext sent enough f h =
      absurd (omega arith)
  buffered_loop-Post (suc fuel) t0 t p0 sent0 before (b ∷ rest) plaintext sent enough f h =
      Post-bind _ _ (tls_record_len-Post (b ∷ rest)) λ len (header, whole).
        Post-bail_if _ _ _ λ all_there.
          let part = take len (b ∷ rest) in
          let ends : IsRecord part =
            subst (λ (x : Bytes). len ≤ length x → IsRecord (take len x)) (append-nil (b ∷ rest))
              (whole []) (omega tests) in
          Post-bind _ _ (process_tls_record-Post t part plaintext) λ (t1, p1) (more, e, taken, k).
            Post-weaken
              (buffered_loop-Post fuel t0 t1 p0 sent0 (before ++ part) (drop len (b ∷ rest)) p1 sent
                (omega (tests, length-drop len (b ∷ rest), enough))
                (rw e (one_more part f ends taken)) (k h))
              λ (t', p) (f', h'). (
                subst (λ (x : Bytes). Fed rustls t0 p0 sent0 x t' p sent)
                    (append_assoc before part (drop len (b ∷ rest))
                      ∙ ap (λ (x : Bytes). before ++ x) (take-append-drop len (b ∷ rest)))
                    f',
                h',
              )
