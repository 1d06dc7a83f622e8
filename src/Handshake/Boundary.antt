-- ===== src/Handshake/Boundary.antt =====
-- Where a handshake stops reading: behind the record that ended it, or behind what had arrived before.
use mathlib.Core.List.{append_assoc}
use sni_router.Prelude.{
  ℕ, zero, suc, ◌+◌, ◌<◌, ◌≡◌, refl, ap, ◌∙◌, ◌⊎◌, inl, inr, true, false, [], ◌++◌, some,
  Bool-cases, length, length-append, arith,
}
use sni_router.Prelude.Outcomes.{Bytes, Post, returns, Post-bind, Post-weaken, Post-ok_or}
use sni_router.Records.{Connection}
use sni_router.Records.Replay.{all_bytes}
use sni_router.Handshake.{
  Rustls, process_buffered_tls_records, after_record, handshake_loop, tls_handshake,
}
use sni_router.Handshake.NextRecord.{IsRecord, next_record-Post}
use sni_router.Handshake.Feeding.{
  IsRustls, Processed, Fed, none_yet, one_more, replied, process_tls_record-Post, write_loop-Post,
  buffered_loop-Post,
}

-- How a handshake on the connection `c`, begun in the state `t0`, ends: with the rest of the stream, the state of rustls,
-- the plaintext and what the client was sent. Before the record `last` the handshake had not ended, with it it has;
-- `buffered` are the records behind it that had been read already.
pub record Handshaken (rustls : Rustls) (c : Connection) (t0 : rustls.Tls) (stream : Bytes)
    (t : rustls.Tls) (plaintext sent : Bytes) : Type 0 where
  pub before : Bytes
  pub last : Bytes
  pub buffered : Bytes
  pub state : rustls.Tls
  pub state_plaintext : Bytes
  pub state_sent : Bytes
  pub more : Bytes
  pub state' : rustls.Tls
  pub was_fed : Fed rustls t0 [] [] before state state_plaintext state_sent
  pub not_before : rustls.is_handshaking state ≡ true
  pub last_record : IsRecord last
  pub last_taken : Processed rustls state last more state'
  pub ended : rustls.is_handshaking state' ≡ false
  pub rest_fed : Fed rustls state' (state_plaintext ++ more) state_sent buffered t plaintext sent
  pub all_sent : rustls.wants_write t ≡ false
  pub nothing_lost : before ++ last ++ buffered ++ stream ≡ all_bytes c
  pub nothing_read : buffered ≡ [] ⊎ (stream ≡ c.stream)

module _ (rustls : Rustls) where
  open rustls use {Tls}

  -- What `tls_handshake` leaves for the backend: the plaintext, and what the kernel reads from the rest of the stream.
  abbrev pub Taken : Connection → rustls.Config → Connection → Bytes → Type 0
  Taken c cfg c' sent =
      (t0 : Tls) × (t : Tls) × (stream : Bytes) × (kernel : (Bytes → Bytes)) × (rustls.new cfg
        ≡ some t0)
      × Handshaken rustls c t0 stream t c'.bytes sent
      × (rustls.enable_ktls t ≡ some kernel)
      × (c'.stream ≡ kernel stream)

module _ (rustls : Rustls) (good : IsRustls rustls) where
  open rustls use {
    Tls, read_tls, process_new_packets, read_plaintext, is_handshaking, wants_write, write_tls,
    pending, takes,
  }

  -- What holds before each round: all bytes are fed or left, and those left that were read had been read at first.
  abbrev Going : Connection → Tls → Bytes → Connection → Tls → Bytes → Bytes → Type 0
  Going c0 t0 before c t p sent =
      Fed rustls t0 [] [] before t p sent
      × (is_handshaking t ≡ true)
      × (before ++ all_bytes c ≡ all_bytes c0)
      × (c.bytes ≡ [] ⊎ (c.stream ≡ c0.stream))

  -- The same behind one record.
  left_after :
      (c0 c c1 : Connection)
      → c.bytes ≡ [] ⊎ (c.stream ≡ c0.stream)
      → c1.bytes ≡ [] ⊎ ((c1.stream ≡ c.stream) × (length c1.bytes < length c.bytes))
      → c1.bytes ≡ [] ⊎ (c1.stream ≡ c0.stream)
  left_after c0 c c1 h (inl e) = inl e
  left_after c0 c c1 (inr e) (inr (same, less)) = inr (same ∙ e)
  left_after c0 c c1 (inl e) (inr (same, less)) =
      absurd (omega (arith, ap (length {A = ℕ}) e, less))

  -- The handshake goes on, or the records behind the last one are fed.
  after_record-Post :
      (t : Tls) (bytes p sent : Bytes)
      → Post
          (λ (t', p').
            ((t' ≡ t) × (p' ≡ p) × (is_handshaking t ≡ true))
            ⊎ ((is_handshaking t ≡ false)
                × Fed rustls t p sent bytes t' p' sent
                × (is_handshaking t' ≡ false)))
          (after_record rustls t bytes p)
  unfolding process_buffered_tls_records
  after_record-Post t bytes p sent = elim (Bool-cases (is_handshaking t)) [
    | inl on ↦ rw on (returns (inl (refl, refl, refl)))
    | inr off ↦ rw off (
        Post-weaken
          (buffered_loop-Post rustls good (length bytes) t t p sent [] bytes p sent (omega arith)
            none_yet off)
          λ r (f', off'). inr (refl, f', off'))
  ]

  handshake_loop-Post :
      (fuel : ℕ) (c0 : Connection) (t0 : Tls) (before : Bytes) (c : Connection) (t : Tls)
      (p sent : Bytes)
      → length (all_bytes c) < fuel
      → Going c0 t0 before c t p sent
      → Post
          (λ (c', t', p', sent'). Handshaken rustls c0 t0 c'.stream t' p' sent')
          (handshake_loop rustls fuel c t p sent)
  unfolding handshake_loop
  handshake_loop-Post zero c0 t0 before c t p sent enough g = absurd (omega arith)
  handshake_loop-Post (suc fuel) c0 t0 before c t p sent enough (f, h, kept, left) =
      Post-bind _ _ (next_record-Post c) λ (part, c1) (ends, same, behind).
        Post-bind _ _ (process_tls_record-Post rustls good t part p)
          λ (t1, p1) (more, e1, taken, k1).
            let kept1 : (before ++ part) ++ all_bytes c1 ≡ all_bytes c0 =
              (append_assoc before part (all_bytes c1)
                ∙ ap (λ (x : Bytes). before ++ x) same
                ∙ kept) in
            let less : length (all_bytes c1) < fuel = omega (
              arith,
              enough,
              ends.0,
              ap (length {A = ℕ}) same,
              length-append part (all_bytes c1),
            ) in
            let left1 = left_after c0 c c1 left behind in
            Post-bind _ _ (after_record-Post t1 c1.bytes p1 sent) λ (t2, p2) next.
              Post-bind _ _ (write_loop-Post rustls good (suc (pending t2)) t2 sent (omega arith))
                λ (t3, sent1) (output, e3, w, k3, off3). elim next [
                  | inl (same_t, same_p, on) ↦
                      let on2 : is_handshaking t2 ≡ true = rw (same_t, on) refl in
                      let f2 : Fed rustls t0 [] [] (before ++ part) t2 p2 sent =
                        rw (same_t, same_p, e1) (one_more part f ends taken) in
                      rw (k3, on2)
                        (handshake_loop-Post fuel c0 t0 (before ++ part) c1 t3 p2 sent1 less
                          (rw e3 (replied f2 w), k3 ∙ on2, kept1, left1))
                  | inr (off1, f2, off2) ↦
                      rw (k3, off2)
                        (returns (record {
                          before = before;
                          last = part;
                          buffered = c1.bytes;
                          state = t;
                          state_plaintext = p;
                          state_sent = sent;
                          more = more;
                          state' = t1;
                          was_fed = f;
                          not_before = h;
                          last_record = ends;
                          last_taken = taken;
                          ended = off1;
                          rest_fed = rw (← e1, e3) (replied f2 w);
                          all_sent = off3;
                          nothing_lost = append_assoc (before ++ part) c1.bytes c1.stream ∙ kept1;
                          nothing_read = left1;
                        }))
                ]

  -- With a rustls that keeps the laws of `IsRustls`, a handshake on any connection ends, with success or an error,
  -- without a panic. Where it succeeds, rustls was fed whole records from the start of the connection, one by one and
  -- each to its last byte, and these and what the kernel is left with are all bytes of the connection; all plaintext
  -- that rustls had after each piece that it read stands before what the kernel decrypts; the client was sent all that
  -- rustls wanted to write; the handshake had not ended before the record that ended it, and records behind that one
  -- were fed only where they had been read before, no byte of the socket having been read.
  pub tls_handshake-Post :
      (c : Connection) (cfg : rustls.Config)
      → Post (λ (c', sent). Taken rustls c cfg c' sent) (tls_handshake rustls c cfg)
  unfolding tls_handshake
  tls_handshake-Post c cfg = Post-ok_or _ _ _ λ t0 e0.
      Post-bind _ _
        (handshake_loop-Post (suc (length c.bytes + length c.stream)) c t0 [] c t0 [] []
          (omega (arith, length-append c.bytes c.stream))
          (none_yet, good.new_handshakes cfg t0 e0, refl, inr refl))
        λ (c1, t1, p1, sent1) h.
          Post-ok_or _ _ _ λ kernel e1. returns (t0, t1, c1.stream, kernel, e0, h, e1, refl)
