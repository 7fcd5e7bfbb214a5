-- ===== src/Backoff/Doubling.antt =====
-- The durations that a run of waits sleeps for.
use native.Mathlib.Nat.{pow-suc}
use krustlet.Prelude.{ℕ, zero, suc, ◌*◌, ◌^◌, ◌<◌, min, ◌≡◌, Result, ok, Panic, ◌>>=◌}
use krustlet.Prelude.{nat_eq, arith}
use krustlet.Backoff.{Duration, duration_limit, ExponentialBackoffStrategy, reset, next_duration}
use krustlet.Backoff.{wait}

-- Waiting `n` times in a row.
pub waits : ℕ → ExponentialBackoffStrategy → Result Panic ExponentialBackoffStrategy
waits zero s = ok s
waits (suc n) s = do t ← waits n s; (t', d) ← wait t; ok t'

-- The strategy computes with durations that it can hold.
pub record IsUsable (s : ExponentialBackoffStrategy) : Type 0 where
  pub starts : 0 < s.base_duration
  pub capped : 0 < s.cap
  pub fits : s.cap * 2 < duration_limit

abbrev pub doubled : ExponentialBackoffStrategy → ℕ → Duration
doubled s n = min (s.base_duration * 2 ^ n) s.cap

grows : (b n : ℕ) → b * 2 ^ suc n ≡ b * 2 ^ n * 2
grows b n = rw pow-suc (omega arith)

grown_pos : (b n : ℕ) → 0 < b → 0 < b * 2 ^ n
grown_pos b zero h = omega arith
grown_pos b (suc n) h = omega (arith, grows b n, grown_pos b n h)

module _ (s : ExponentialBackoffStrategy) (u : IsUsable s) where
  next_duration-reset :
      next_duration (reset s) ≡ ok (record s { last_duration = doubled s 0 }, doubled s 0)
  unfolding next_duration reset
  next_duration-reset = ground arith

  next_duration-doubled :
      (n : ℕ)
      → next_duration (record s { last_duration = doubled s n })
        ≡ ok (record s { last_duration = doubled s (suc n) }, doubled s (suc n))
  unfolding next_duration
  next_duration-doubled n =
      ground (arith, grows s.base_duration n, grown_pos s.base_duration n u.starts)

  waits-doubled : (n : ℕ) → waits (suc n) (reset s) ≡ ok (record s { last_duration = doubled s n })
  unfolding waits wait
  waits-doubled zero = rw next_duration-reset
  waits-doubled (suc n) = rw (waits-doubled n) (rw (next_duration-doubled n))

  -- Of a strategy with a base and a cap above zero, whose cap doubled still fits a `Duration`,
  -- the waits after a reset never panic: the wait that follows `n` others sleeps for the base
  -- duration times two to the power `n`, or for the cap where that is less, and leaves the base
  -- and the cap as they were.
  pub wait-waits-reset :
      (n : ℕ)
      → (waits n (reset s) >>= wait) ≡ ok (record s { last_duration = doubled s n }, doubled s n)
  unfolding wait waits
  wait-waits-reset zero = next_duration-reset
  wait-waits-reset (suc n) = rw (waits-doubled n) (next_duration-doubled n)
