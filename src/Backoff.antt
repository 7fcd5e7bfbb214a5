-- ===== src/Backoff.antt =====
-- crates/kubelet/src/backoff/mod.rs: the exponential backoff strategy. A duration is its number
-- of nanoseconds; a product that `Duration` cannot hold panics.
pub mod Doubling
use krustlet.Prelude.{ℕ, ◌*◌, ◌^◌, Result, ok, err, Panic, overflow, ◌>>=◌, ltb, ◌==◌, nat_eq}
use krustlet.Prelude.{if◌then◌else◌}

abbrev pub Duration : Type 0
Duration = ℕ

abbrev pub from_secs : ℕ → Duration
from_secs n = n * 1_000_000_000

-- `Duration` holds its seconds in 64 bits.
abbrev pub duration_limit : ℕ
duration_limit = 2 ^ 64 * 1_000_000_000

-- `Duration::mul`
abbrev pub checked_mul : Duration → ℕ → Result Panic Duration
checked_mul d n = if ltb (d * n) duration_limit then ok (d * n) else err overflow

pub record ExponentialBackoffStrategy : Type 0 where
  pub base_duration : Duration
  pub cap : Duration
  pub last_duration : Duration

abbrev pub default : ExponentialBackoffStrategy
default = record { base_duration = from_secs 10; cap = from_secs 300; last_duration = from_secs 0 }

unfoldable pub capped_next_duration : ExponentialBackoffStrategy → Result Panic Duration
capped_next_duration s = do
  next_duration ← if s.last_duration == 0 then ok s.base_duration else checked_mul s.last_duration 2
  ok (if ltb s.cap next_duration then s.cap else next_duration)

unfoldable pub reset : ExponentialBackoffStrategy → ExponentialBackoffStrategy
reset s = record s { last_duration = 0 }

unfoldable pub next_duration :
    ExponentialBackoffStrategy → Result Panic (ExponentialBackoffStrategy × Duration)
unfolding capped_next_duration
next_duration s = do next ← capped_next_duration s; ok (record s { last_duration = next }, next)

-- `wait` sleeps for `next_duration`; the duration that it sleeps is the result.
unfoldable pub wait :
    ExponentialBackoffStrategy → Result Panic (ExponentialBackoffStrategy × Duration)
unfolding next_duration
wait s = next_duration s
