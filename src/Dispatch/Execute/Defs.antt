-- ===== src/Dispatch/Execute/Defs.antt =====
-- internal/dispatch/account_queue.go: `execute`, one attempt at a job. The result is the effects in
-- their order and the message for the queue.
use Prim.Native.String.{String}
use aquifer.Base.{
  ℕ, ◌+◌, Bool, true, false, ◌&&◌, Option, none, some, List, [], ◌∷◌, ◌++◌, if◌then◌else◌,
}
use aquifer.Base.Int.{ℤ, pos, ltbℤ}
use aquifer.Base.Float.{FloatArith}
use aquifer.Jobs.Defs.{queued, Job, execution_expired, has_retries_left, retry_deadline}
use aquifer.Dispatch.Target.Defs.{retryable_status}
use aquifer.Dispatch.Execute.Effects.{
  Effect, FailReason, Outside, request_error, upstream_returned, retry_window_exhausted,
  execution_deadline_exceeded, dispatching, retrying, set_status, publish, record_retry,
  pool_success, pool_failure, fail_job, complete_job,
}
use aquifer.Dispatch.Execute.Delay.{retry_delay, add_duration}
use aquifer.Dispatch.Execute.Signals.{DoneMsg, empty_msg, Headers, Readers, pacing_signals}

-- What the request came to: an error, made before anything was sent (`local`) or not, or a
-- response with its body.
pub data Answer : Type 0 where
  no_answer : Bool → String → Answer
  response : ℕ → Headers → String → Answer

-- What an attempt meets: the clock when it starts and when it has failed, whether the queue was
-- stopped meanwhile (which only matters to a request that failed), the member of the pool that it
-- goes to, the request's answer, whether a stream takes the final event, and the draw of the jitter.
pub record Attempt : Type 0 where
  pub started_at : ℕ
  pub failed_time : ℕ
  pub stopped : Bool
  pub member : Option String
  pub answer : Answer
  pub streamed : Bool
  pub draw : ℕ

abbrev pub to_member : (String → Effect) → Option String → List Effect
to_member f none = []
to_member f (some m) = f m ∷ []

module _ (a : FloatArith) (r : Readers a.Num) (o : Outside) (max_backoff : ℕ) where
  abbrev pub Result : Type 0
  Result = List Effect × DoneMsg a.Num

  -- The tail of `execute`, for an attempt that failed in a way that may pass. `msg` has the
  -- response's pacing signals, if there is one.
  unfoldable pub retry_or_fail :
      Attempt → Job → FailReason → ℕ → String → Option ℤ → Bool → DoneMsg a.Num → Result
  retry_or_fail t j why code body retry_after is_local msg =
      let msg = record msg { has_failed = true; local = is_local } in
      let at =
        add_duration t.failed_time (retry_delay a max_backoff t.draw j.attempts retry_after) in
      let j' = record j { attempts = j.attempts + 1 } in
      if has_retries_left j && ltbℤ at (pos (retry_deadline j))
      then (
        to_member pool_failure t.member
            ++ (record_retry j.id (j.attempts + 1)
                ∷ publish j.id (retrying (j.attempts + 1) at why code)
                ∷ []),
        record msg { retry = some (j', at, why) },
      )
      else (
        to_member pool_failure t.member
            ++ fail_job o j (if has_retries_left j then retry_window_exhausted why else why) code
                body t.streamed,
        msg,
      )

  unfoldable pub after_response : Attempt → Job → ℕ → Headers → String → Result
  unfolding retry_or_fail pacing_signals
  after_response t j code get body =
      if retryable_status code
      then retry_or_fail t j (upstream_returned code) code body (r.atoi (get "Retry-After")) false
          (pacing_signals r get)
      else (
        to_member pool_success t.member
            ++ complete_job o j code (get "Content-Type") body t.streamed,
        record (pacing_signals r get) { reached = true },
      )

  unfoldable pub after_request : Attempt → Job → Answer → Result
  unfolding retry_or_fail after_response
  after_request t j (no_answer is_local why) =
      if t.stopped
      then (set_status j.id queued ∷ [], empty_msg a.Num)
      else retry_or_fail t j (request_error why) 0 "" none is_local (empty_msg a.Num)
  after_request t j (response code get body) = after_response t j code get body

  unfoldable pub execute : Attempt → Job → Result
  unfolding after_request
  execute t j =
      let (effects, msg) = after_request t j t.answer in
      if execution_expired j t.started_at
      then (fail_job o j execution_deadline_exceeded 0 "" t.streamed, empty_msg a.Num)
      else (publish j.id (dispatching (j.attempts + 1)) ∷ effects, msg)
