-- ===== src/Tests/Handshake.antt =====
-- A handshake of two records, over a library that answers the first one with a byte and is done with the second one.
use sni_router.Prelude.{
  ℕ, suc, ◌≡◌, refl, ap, sym, arith, Bool, true, false, [], ◌∷◌, Option, none, some, length,
}
use sni_router.Prelude.Outcomes.{Bytes, ok, Post, run_steps}
use sni_router.Records.{Connection, ensure_bytes_available}
use sni_router.Handshake.{
  Rustls, tls_record_len, process_tls_record, process_buffered_tls_records, tls_handshake,
}
use sni_router.Handshake.Feeding.{IsRustls}
use sni_router.Handshake.Boundary.{Taken, tls_handshake-Post}

pub data Stage : Type 0 where
  waiting greeting replying done : Stage

abbrev read : Stage → Stage
read waiting = greeting
read greeting = greeting
read replying = done
read done = done

abbrev written : Stage → Stage
written waiting = waiting
written greeting = replying
written replying = replying
written done = done

abbrev is_on : Stage → Bool
is_on waiting = true
is_on greeting = true
is_on replying = true
is_on done = false

abbrev has_output : Stage → Bool
has_output waiting = false
has_output greeting = true
has_output replying = false
has_output done = false

abbrev outputs : Stage → ℕ
outputs waiting = 0
outputs greeting = 1
outputs replying = 0
outputs done = 0

abbrev pub toy : Rustls
toy = record {
  Config = Unit {0};
  Tls = Stage;
  new = λ cfg. some waiting;
  read_tls = λ t bytes. some (length bytes, read t);
  process_new_packets = λ t. some (0, t);
  read_plaintext = λ t count. none;
  is_handshaking = is_on;
  wants_write = has_output;
  write_tls = λ t. some (2 ∷ [], written t);
  pending = outputs;
  takes = λ sent more. true;
  enable_ktls = λ t. some (λ bytes. bytes);
}

is_on-read : (t : Stage) → is_on t ≡ false → is_on (read t) ≡ false
is_on-read waiting h = absurd (cc)
is_on-read greeting h = absurd (cc)
is_on-read replying h = refl
is_on-read done h = refl

is_on-written : (t : Stage) → is_on (written t) ≡ is_on t
is_on-written waiting = refl
is_on-written greeting = refl
is_on-written replying = refl
is_on-written done = refl

outputs-written : (t : Stage) → has_output t ≡ true → suc (outputs (written t)) ≡ outputs t
outputs-written waiting h = absurd (cc)
outputs-written greeting h = refl
outputs-written replying h = absurd (cc)
outputs-written done h = absurd (cc)

abbrev second : Option (ℕ × Stage) → Stage
second none = done
second (some (n, t)) = t

abbrev second_output : Option (Bytes × Stage) → Stage
second_output none = done
second_output (some (output, t)) = t

pub toy-IsRustls : IsRustls toy
toy-IsRustls = record {
  new_handshakes =
      λ cfg t e. ap is_on (sym (ap (λ (o : Option Stage). elim o [ none ↦ t | some s ↦ s ]) e));
  read_keeps = λ t t' bytes n e h. rw (← ap second e) (is_on-read t h);
  process_keeps = λ t t' count e h. rw (← ap second e) h;
  drain_keeps = λ t t' count plaintext e h. absurd (cc);
  write_keeps = λ t t' output e. rw (← ap second_output e) (is_on-written t);
  write_ends = λ t t' output w e. rw (← ap second_output e) (omega (arith, outputs-written t w));
}

-- Two records, of which the second one is still to arrive, and a byte behind them.
abbrev pub two_records : Connection
two_records = record { bytes = 22 ∷ 3 ∷ 3 ∷ 0 ∷ 1 ∷ 7 ∷ []; stream = 22 ∷ 3 ∷ 3 ∷ 0 ∷ 0 ∷ 23 ∷ [] }

tls_handshake-runs :
    tls_handshake toy two_records tt ≡ ok (record { bytes = []; stream = 23 ∷ [] }, 2 ∷ [])
unfolding run_steps tls_handshake ensure_bytes_available tls_record_len process_tls_record
    process_buffered_tls_records
tls_handshake-runs = refl

tls_handshake-Post_example :
    Post (λ (c', sent). Taken toy two_records tt c' sent) (tls_handshake toy two_records tt)
tls_handshake-Post_example = tls_handshake-Post toy toy-IsRustls two_records tt
