-- ===== src/Dispatch/Execute/Delay.antt =====
-- internal/dispatch/account_queue.go: how long a job waits before its next attempt. A
-- time.Duration is an int64 number of nanoseconds, and wraps.
use aquifer.Base.{
  leb, ◌==◌, not, ◌||◌, ℕ, ◌+◌, ◌-◌, ◌*◌, ◌%◌, ◌^◌, ◌≤◌, ◌<◌, ◌≡◌, Option, none, some, arith, ltb,
  if◌then◌else◌, min,
}
use aquifer.Base.Int.{ℤ, pos, negsuc, sub_ℕ, lebℤ}
use aquifer.Base.Float.{FloatArith}
use aquifer.Retry.{jitter, le-jitter, jitter-le, jitter_ceiling}

-- The int64 that a number wraps to.
abbrev pub wrap64 : ℕ → ℤ
wrap64 n = let w = n % 2 ^ 64 in if ltb w (2 ^ 63) then pos w else negsuc (2 ^ 64 - w - 1)

abbrev pub second : ℕ
second = 1_000_000_000

-- A time moved by a duration; it may lie before the epoch.
abbrev pub add_duration : ℕ → ℤ → ℤ
add_duration now (pos d) = pos (now + d)
add_duration now (negsuc d) = sub_ℕ now (d + 1)

-- The largest number of seconds that a time.Duration holds.
abbrev pub most_seconds : ℕ
most_seconds = 9_223_372_036

module _ (a : FloatArith) where
  -- `ceiling` is AQUIFER_RETRY_MAX_BACKOFF_SECONDS, in nanoseconds.
  unfoldable pub default_retry_backoff : ℕ → ℕ → ℕ → ℕ
  default_retry_backoff ceiling draw attempts =
      let backoff = second * 2 ^ min attempts 30 in
      jitter a draw (if ltb ceiling backoff then ceiling else backoff)

  -- `retry_after` is the response's Retry-After, if it has one that is an integer.
  unfoldable pub retry_delay : ℕ → ℕ → ℕ → Option ℤ → ℤ
  unfolding default_retry_backoff
  retry_delay ceiling draw attempts none = pos (default_retry_backoff ceiling draw attempts)
  retry_delay ceiling draw attempts (some (pos secs)) = wrap64 (secs * second)
  retry_delay ceiling draw attempts (some (negsuc n)) =
      pos (default_retry_backoff ceiling draw attempts)

  -- The time for the next attempt lies a Retry-After of up to 9,223,372,036 seconds after the failed
  -- one, exactly. A longer one, of less than twice that, wraps: the time lies 2^64 nanoseconds less
  -- that Retry-After before the failed attempt. So the time has come as soon as the attempt has
  -- failed exactly where the Retry-After is 0 or wraps.
  pub retry_after_kept :
      (ceiling draw attempts secs now : ℕ)
      → secs < 18_446_744_073
      → let at = add_duration now (retry_delay ceiling draw attempts (some (pos secs))) in
        (at ≡ (
          if leb secs most_seconds
          then pos (now + secs * second)
          else sub_ℕ now (2 ^ 64 - secs * second)))
        × (lebℤ at (pos now) ≡ ((secs == 0) || not (leb secs most_seconds)))
  unfolding retry_delay
  retry_after_kept ceiling draw attempts secs now h = (ground arith, ground arith)

  -- Without a Retry-After the wait doubles with each attempt, up to the ceiling, and the jitter
  -- only adds to it.
  pub backoff_bounds :
      (ceiling draw attempts : ℕ)
      → (min (second * 2 ^ min attempts 30) ceiling ≤ default_retry_backoff ceiling draw attempts)
        × (default_retry_backoff ceiling draw attempts
            ≤ min (second * 2 ^ min attempts 30) ceiling
              + jitter_ceiling a (min (second * 2 ^ min attempts 30) ceiling))
  unfolding default_retry_backoff
  backoff_bounds ceiling draw attempts = (
    ground (arith, le-jitter a draw (min (second * 2 ^ min attempts 30) ceiling)),
    ground (arith, jitter-le a draw (min (second * 2 ^ min attempts 30) ceiling)),
  )
