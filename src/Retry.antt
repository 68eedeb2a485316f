-- ===== src/Retry.antt =====
-- internal/retry/retry.go: the backoff jitter. A draw stands for `rand.Int63n`, reduced as it is.
use aquifer.Base.{ℕ, ◌+◌, ◌%◌, ◌≤◌, arith, ◌==◌, if◌then◌else◌}
use aquifer.Base.Float.{FloatArith, fmul, flit, fint, duration}

rem_bound : (n c : ℕ) → n % (c + 1) ≤ c
rem_bound n c = omega arith

module _ (a : FloatArith) where
  abbrev pub jitter_ceiling : ℕ → ℕ
  jitter_ceiling d =
      let ceiling = duration a (fmul a (fint a d) (flit a 10 2)) in
      if ceiling == 0 then 1 else ceiling

  unfoldable pub jitter : ℕ → ℕ → ℕ
  jitter draw d = if d == 0 then d else d + draw % (jitter_ceiling d + 1)

  -- The jittered delay is never shorter than the delay.
  pub le-jitter : (draw d : ℕ) → d ≤ jitter draw d
  unfolding jitter
  le-jitter draw d = ground arith

  -- The jitter is at most its ceiling.
  pub jitter-le : (draw d : ℕ) → jitter draw d ≤ d + jitter_ceiling d
  unfolding jitter
  jitter-le draw d = ground (arith, rem_bound draw (jitter_ceiling d))
