-- ===== src/Admission/Controller/Tests.antt =====
-- internal/admission/admission.go: the theorems at concrete inputs.
use aquifer.Base.{ℕ, ◌≡◌, refl, true, none, arith}
use aquifer.Admission.Controller.Defs.{
  Limits, Controller, Readings, check, sampled_get, retry_after_seconds, check_memory,
  memory_hard_limit,
}
use aquifer.Admission.Controller.RetryAfter.{retry_after_falls}

abbrev limits_at : ℕ → Limits
limits_at base = record {
  memory_limit_mb = 1000;
  max_body_bytes = 0;
  db_max_bytes = 500;
  retry_after_base = base;
  max_sync_lag_ms = 1000;
  memory_hard_limit_percent = 115;
}

abbrev at_streak : ℕ → ℕ → Controller
at_streak base streak = record {
  limits = limits_at base;
  has_db = true;
  reject_streak = streak;
  mem_sample = record { value = 0; at = none };
  db_sample = record { value = 0; at = none };
}

abbrev reading : Readings
reading = record { now = 1_000; memory_mb = 1_100; db_bytes = 10; sync_lag_ms = 5 }

-- Between the two limits the caller decides; past 1150 MB the job is refused.
soft_here : (check reading (at_streak 5 0)).1.soft ≡ true
unfolding check sampled_get check_memory memory_hard_limit
soft_here = refl

retry_after_falls_example : retry_after_seconds (at_streak 120 2) ≡ 60
retry_after_falls_example = retry_after_falls (at_streak 120 2) (omega arith)
