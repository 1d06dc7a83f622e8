-- ===== src/Backoff/Delays.antt =====
-- The delays of failures in a row.
use native.Mathlib.Nat.{one-le-pow, pow-succ'}
use sni_router.Prelude.{
  ℕ, zero, suc, ◌*◌, ◌^◌, ◌≡◌, refl, ap, ◌∙◌, min, List, [], ◌∷◌, Option, none, some, arith,
  if◌then◌else◌,
}
use sni_router.Backoff.{
  ErrorKind, interrupted, connection_aborted, connection_reset, invalid_data, other,
  retry_immediately, AcceptBackoff, default_backoff, failed, doubled, after_attempt,
}

-- Attempts, each with its outcome and the time of its end.
pub after_attempts : AcceptBackoff → List (Option ErrorKind × ℕ) → AcceptBackoff
after_attempts b [] = b
after_attempts b ((outcome, now) ∷ attempts) = after_attempts (after_attempt b outcome now) attempts

-- The failures that count, since the last connection.
abbrev pub counted : ℕ → List (Option ErrorKind × ℕ) → ℕ
counted n [] = n
counted n ((none, _) ∷ attempts) = counted 0 attempts
counted n ((some error, _) ∷ attempts) =
    counted (if retry_immediately error then n else suc n) attempts

abbrev pub delay_of : ℕ → ℕ
delay_of zero = 0
delay_of (suc n) = min (100 * 2 ^ n) 1000

doubled-delay_of : (n : ℕ) → doubled (delay_of n) ≡ delay_of (suc n)
doubled-delay_of zero = refl
doubled-delay_of (suc n) = omega (arith, one-le-pow n 2 (omega arith), pow-succ' 2 n)

after_attempts-from :
    (n : ℕ) (b : AcceptBackoff) (attempts : List (Option ErrorKind × ℕ))
    → b.delay ≡ delay_of n
    → (after_attempts b attempts).delay ≡ delay_of (counted n attempts)
unfolding after_attempts after_attempt failed
after_attempts-from n b [] h = h
after_attempts-from n b ((none, now) ∷ attempts) h =
    after_attempts-from 0 default_backoff attempts refl
after_attempts-from n b ((some interrupted, now) ∷ attempts) h = after_attempts-from n _ attempts h
after_attempts-from n b ((some connection_aborted, now) ∷ attempts) h =
    after_attempts-from n _ attempts h
after_attempts-from n b ((some connection_reset, now) ∷ attempts) h =
    after_attempts-from n _ attempts h
after_attempts-from n b ((some invalid_data, now) ∷ attempts) h = after_attempts-from n _ attempts h
after_attempts-from n b ((some other, now) ∷ attempts) h =
    after_attempts-from (suc n) _ attempts (ap doubled h ∙ doubled-delay_of n)

-- After any attempts the delay is 0 where no failure of the counted kinds followed the last connection, and else 100 ms,
-- doubled for each further one, but never more than a second.
pub after_attempts-delay :
    (attempts : List (Option ErrorKind × ℕ))
    → (after_attempts default_backoff attempts).delay ≡ delay_of (counted 0 attempts)
after_attempts-delay attempts = after_attempts-from 0 default_backoff attempts refl
