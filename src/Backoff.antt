-- ===== src/Backoff.antt =====
-- `AcceptBackoff` of src/main.rs: how long the TCP router waits after a failed accept. Times are in milliseconds.
pub mod Delays
use sni_router.Prelude.{
  ℕ, ◌+◌, ◌*◌, min, max, Bool, true, false, List, [], ◌∷◌, Option, none, some, if◌then◌else◌,
}

-- The kinds of an error that `failed` tells apart; an error that is no `std::io::Error` is another one.
pub data ErrorKind : Type 0 where
  interrupted connection_aborted connection_reset invalid_data other : ErrorKind

abbrev pub retry_immediately : ErrorKind → Bool
retry_immediately interrupted = true
retry_immediately connection_aborted = true
retry_immediately connection_reset = true
retry_immediately invalid_data = true
retry_immediately other = false

pub record AcceptBackoff : Type 0 where
  pub delay : ℕ
  pub retry_at : Option ℕ

abbrev pub default_backoff : AcceptBackoff
default_backoff = record { delay = 0; retry_at = none }

-- `(self.delay * 2).clamp(100 ms, 1 s)`
abbrev pub doubled : ℕ → ℕ
doubled delay = min (max (delay * 2) 100) 1000

-- The new state and the delay, from the time `now`.
unfoldable pub failed : AcceptBackoff → ErrorKind → ℕ → AcceptBackoff × ℕ
failed b error now = if retry_immediately error then (record b { retry_at = some now }, 0) else (
  record { delay = doubled b.delay; retry_at = some (now + doubled b.delay) },
  doubled b.delay,
)

-- One attempt of `accept` that ended at time `now`: a connection resets the state.
unfoldable pub after_attempt : AcceptBackoff → Option ErrorKind → ℕ → AcceptBackoff
unfolding failed
after_attempt b none now = default_backoff
after_attempt b (some error) now = (failed b error now).0
