-- ===== src/Dispatch/Execute/Tests.antt =====
-- internal/dispatch/account_queue.go: attempts at a concrete job.
use aquifer.Base.{
  true, ◌-◌, ◌^◌, ℕ, ◌+◌, ◌*◌, ◌≤◌, ◌≡◌, refl, true, false, none, some, [], ◌∷◌, arith,
}
use aquifer.Base.Int.{pos, sub_ℕ, lebℤ}
use aquifer.Base.Float.{milli, num}
use aquifer.Jobs.Defs.{Job, queued}
use aquifer.Dispatch.Execute.Effects.{Outside}
use aquifer.Dispatch.Execute.Signals.{Readers}
use aquifer.Dispatch.Execute.Delay.{second, add_duration, retry_delay, retry_after_kept}
use aquifer.Dispatch.Execute.Defs.{Attempt, response, execute}
use aquifer.Dispatch.Execute.Attempts.{Ends, execute-Ends}
use aquifer.Dispatch.Execute.Retries.{
  RetryIsDue, execute-RetryIsDue, attempts_made, attempts_made-le,
}

abbrev readers : Readers milli.Num
readers = record {
  scan_float = λ s. num 2000;
  scan_int = λ s. (pos 4, true);
  atoi = λ s. none;
  orca_rps = λ h. none;
}

abbrev outside : Outside
outside = record { truncate = λ s. (s, false); recorder = none }

abbrev order : Job
order = record {
  id = "j1";
  user_id = "u";
  idempotent_key = "k";
  url = "https://api.example/v1";
  pool_id = "";
  method = "POST";
  body = "{}";
  webhook_url = "https://hooks.example";
  kind = "user";
  status = queued;
  created_at = 1_000;
  execute_before = 0;
  idempotency_scope = "";
  max_retries = pos 2;
  attempts = 0;
  webhook_max_retries = none;
  dedup_cache = "";
}

-- The target answers 503.
abbrev unavailable : Attempt
unavailable = record {
  started_at = 2_000_000_000;
  failed_time = 3_000_000_000;
  stopped = false;
  member = some "m1";
  answer = response 503 (λ h. "") "busy";
  streamed = false;
  draw = 0;
}

abbrev ceiling : ℕ
ceiling = 300_000_000_000

-- Ten thousand million seconds wrap.
retry_after_kept_example :
    let at = add_duration 7 (retry_delay milli ceiling 0 1 (some (pos 10_000_000_000))) in
    (at ≡ sub_ℕ 7 (2 ^ 64 - 10_000_000_000 * second)) × (lebℤ at (pos 7) ≡ true)
retry_after_kept_example = retry_after_kept milli ceiling 0 1 10_000_000_000 7 (omega arith)

execute-Ends_example :
    Ends milli readers outside ceiling unavailable order
      (execute milli readers outside ceiling unavailable order)
execute-Ends_example = execute-Ends milli readers outside ceiling unavailable order

execute-RetryIsDue_example :
    RetryIsDue unavailable.answer order
      ((execute milli readers outside ceiling unavailable order).1).retry
execute-RetryIsDue_example = execute-RetryIsDue milli readers outside ceiling unavailable order

attempts_made-le_example :
    attempts_made milli readers outside ceiling (unavailable ∷ unavailable ∷ unavailable ∷ []) order
      + order.attempts
    ≤ 2 + 1
attempts_made-le_example =
    attempts_made-le milli readers outside ceiling (unavailable ∷ unavailable ∷ unavailable ∷ [])
      order 2 refl (omega arith)
