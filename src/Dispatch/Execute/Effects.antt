-- ===== src/Dispatch/Execute/Effects.antt =====
-- internal/dispatch/account_queue.go: what ending a job does to the store, the streams and the
-- webhooks, as a list of effects in the order in which the code makes them. Metrics and logs are
-- left out.
use Prim.Native.String.{String}
use aquifer.Base.{
  ℕ, ◌+◌, Bool, true, false, not, ◌&&◌, Option, none, some, List, [], ◌∷◌, ◌++◌, if◌then◌else◌,
}
use aquifer.Base.Int.{ℤ}
use aquifer.Jobs.Defs.{
  Status, completed, failed, Job, is_empty, is_webhook_delivery, webhook_retry_limit,
  execution_expired,
}

-- Why a job failed.
pub data FailReason : Type 0 where
  request_error : String → FailReason
  upstream_returned : ℕ → FailReason
  retry_window_exhausted : FailReason → FailReason
  execution_deadline_exceeded queued_ttl_exceeded internal_panic : FailReason
  target_unavailable : ℕ → FailReason

-- What a webhook carries: a reason when the job failed, the response, and the key of the stored
-- result if it was recorded. A job that failed in the queue has no response.
pub record Payload : Type 0 where
  pub payload_status : Status
  pub payload_reason : Option FailReason
  pub payload_response : Option (ℕ × String)
  pub result_key : Option String

pub data SseEvent : Type 0 where
  dispatching : ℕ → SseEvent
  completed_event : ℕ → String → SseEvent
  -- The reason, the response status and body, and the number of attempts.
  failed_event : FailReason → ℕ → String → ℕ → SseEvent
  -- A job that failed in the queue reports no attempt.
  queue_failed_event : FailReason → SseEvent
  -- The attempt, the time of the next one, the reason and the response status.
  retrying : ℕ → ℤ → FailReason → ℕ → SseEvent

pub data Effect : Type 0 where
  set_status : String → Status → Effect
  put_result : String → Status → ℕ → String → String → Bool → Effect
  record_result : String → Status → ℕ → String → String → Effect
  publish : String → SseEvent → Effect
  publish_terminal : String → SseEvent → Effect
  enqueue_webhook : String → String → String → ℤ → Payload → Effect
  record_retry : String → ℕ → Effect
  pool_success pool_failure : String → Effect
  -- The callback `onJobDone`.
  job_done : Job → Effect

-- The outside: how a body is truncated for the local result (and whether it was), and the recorder
-- of results if there is one, with the key that it answers.
pub record Outside : Type 0 where
  pub truncate : String → String × Bool
  pub recorder : Option (Job → Status → ℕ → String → String → Option String)

module _ (o : Outside) where
  unfoldable pub save_local_result : Job → Status → ℕ → String → String → List Effect
  save_local_result j s code content body =
      if is_webhook_delivery j
      then []
      else (let (kept, cut) = o.truncate body in put_result j.id s code content kept cut ∷ [])

  abbrev pub use_recorder :
      Option (Job → Status → ℕ → String → String → Option String)
      → Job
      → Status
      → ℕ
      → String
      → String
      → List Effect × Option String
  use_recorder none j s code content body = ([], none)
  use_recorder (some f) j s code content body =
      (record_result j.id s code content body ∷ [], f j s code content body)

  unfoldable pub record_job_result :
      Job → Status → ℕ → String → String → List Effect × Option String
  record_job_result j s code content body =
      if is_webhook_delivery j then ([], none) else use_recorder o.recorder j s code content body

  -- Whether a job's end is told to a webhook: `skip` is whether a stream took the final event.
  unfoldable pub wants_webhook : Job → Bool → Bool
  wants_webhook j skip = not (is_webhook_delivery j) && not (is_empty j.webhook_url) && not skip

  unfoldable pub webhook_for : Job → Bool → Payload → List Effect
  unfolding wants_webhook
  webhook_for j skip p =
      if wants_webhook j skip
      then enqueue_webhook j.id j.user_id j.webhook_url (webhook_retry_limit j) p ∷ []
      else []

  -- `failJob`; `streamed` is what `publishTerminal` answers.
  unfoldable pub fail_job : Job → FailReason → ℕ → String → Bool → List Effect
  unfolding save_local_result record_job_result webhook_for
  fail_job j why code body streamed =
      let (recorded, key) = record_job_result j failed code "" body in
      set_status j.id failed
      ∷ (save_local_result j failed code "" body
          ++ (recorded
              ++ (publish_terminal j.id (failed_event why code body (j.attempts + 1))
                  ∷ webhook_for j streamed (record {
                    payload_status = failed;
                    payload_reason = some why;
                    payload_response = some (code, body);
                    result_key = key;
                  }))))

  -- The end of a job that was answered.
  unfoldable pub complete_job : Job → ℕ → String → String → Bool → List Effect
  unfolding save_local_result record_job_result webhook_for
  complete_job j code content body streamed =
      let (recorded, key) = record_job_result j completed code content body in
      set_status j.id completed
      ∷ (save_local_result j completed code content body
          ++ (recorded
              ++ (publish_terminal j.id (completed_event code body)
                  ∷ webhook_for j streamed (record {
                    payload_status = completed;
                    payload_reason = none;
                    payload_response = some (code, body);
                    result_key = key;
                  }))))

  -- `failQueuedJob`; the webhook is handed over by a goroutine of its own.
  unfoldable pub fail_queued_job : Job → FailReason → List Effect
  unfolding save_local_result record_job_result webhook_for
  fail_queued_job j why =
      let (recorded, key) = record_job_result j failed 0 "" "" in
      set_status j.id failed
      ∷ (save_local_result j failed 0 "" ""
          ++ (recorded
              ++ (publish j.id (queue_failed_event why)
                  ∷ webhook_for j false (record {
                    payload_status = failed;
                    payload_reason = some why;
                    payload_response = none;
                    result_key = key;
                  }))))

  abbrev pub expired_reason : Bool → Option FailReason → FailReason
  expired_reason true last = execution_deadline_exceeded
  expired_reason false none = queued_ttl_exceeded
  expired_reason false (some last) = retry_window_exhausted last

  -- `failExpiredJob`; `none` is the empty last reason.
  unfoldable pub fail_expired_job : ℕ → Job → Option FailReason → List Effect
  unfolding fail_queued_job
  fail_expired_job now j last = fail_queued_job j (expired_reason (execution_expired j now) last)
