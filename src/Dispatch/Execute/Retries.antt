-- ===== src/Dispatch/Execute/Retries.antt =====
-- internal/dispatch/account_queue.go: when `execute` asks for a retry, and how often.
use Prim.Native.String.{String}
use aquifer.Base.{
  ℕ, suc, ◌+◌, ◌≤◌, ◌<◌, ◌≡◌, refl, Bool, true, ◌&&◌, Option, none, some, List, [], ◌∷◌, arith,
  by_branch, both_branches,
}
use aquifer.Base.Int.{ℤ, pos, ltbℤ, ◌<ℤ◌}
use aquifer.Base.Float.{FloatArith}
use aquifer.Jobs.Defs.{Job, execution_expired, has_retries_left, retry_deadline}
use aquifer.Dispatch.Target.Defs.{retryable_status}
use aquifer.Dispatch.Execute.Effects.{Effect, FailReason, Outside, publish, dispatching}
use aquifer.Dispatch.Execute.Delay.{retry_delay, add_duration}
use aquifer.Dispatch.Execute.Signals.{empty_msg, DoneMsg, Readers, pacing_signals}
use aquifer.Dispatch.Execute.Defs.{
  Answer, no_answer, response, Attempt, execute, after_request, after_response, retry_or_fail,
}

-- Whether an answer says that the target may do better later.
abbrev pub MayPass : Answer → Type 0
MayPass (no_answer is_local why) = Unit
MayPass (response code get body) = retryable_status code ≡ true

-- What a request for a retry of `j` at `at` promises, after an attempt with answer `w`.
pub record Retryable (w : Answer) (j : Job) (again : Job) (at : ℤ) : Type 0 where
  pub may_pass : MayPass w
  pub counted : again ≡ record j { attempts = j.attempts + 1 }
  pub allowed : has_retries_left j ≡ true
  pub in_time : at <ℤ pos (retry_deadline j)

abbrev pub RetryIsDue : Answer → Job → Option (Job × ℤ × FailReason) → Type 0
RetryIsDue w j none = Unit
RetryIsDue w j (some (again, at, why)) = Retryable w j again at

due :
    (w : Answer) (j : Job) (at : ℤ)
    → MayPass w
    → (has_retries_left j && ltbℤ at (pos (retry_deadline j))) ≡ true
    → Retryable w j (record j { attempts = j.attempts + 1 }) at
due w j at h b = record {
  may_pass = h;
  counted = refl;
  allowed = ground (arith, b);
  in_time = ground (arith, b);
}

-- A job with a limit that has retries left has made fewer attempts.
left_below :
    (j : Job) (limit : ℕ)
    → j.max_retries ≡ pos limit
    → has_retries_left j ≡ true
    → j.attempts < limit
unfolding has_retries_left
left_below j limit h k = ground arith

no_retry : (w : Answer) (j : Job) (m : Option (Job × ℤ × FailReason)) → m ≡ none → RetryIsDue w j m
no_retry w j m h = rw h tt

module _ (a : FloatArith) (r : Readers a.Num) (o : Outside) (max_backoff : ℕ) where
  record IsDue (w : Answer) (j : Job) (res : List Effect × DoneMsg a.Num) : Type 0 where
    due_if_asked : RetryIsDue w j ((res.1).retry)

  retry_or_fail-IsDue :
      (t : Attempt) (j : Job) (w : Answer) (why : FailReason) (code : ℕ) (body : String)
      (after : Option ℤ) (l : Bool) (msg : DoneMsg a.Num)
      → MayPass w
      → msg.retry ≡ none
      → IsDue w j (retry_or_fail a r o max_backoff t j why code body after l msg)
  unfolding retry_or_fail
  retry_or_fail-IsDue t j w why code body after l msg h k =
      let at = add_duration t.failed_time (retry_delay a max_backoff t.draw j.attempts after) in
      by_branch (IsDue w j) (has_retries_left j && ltbℤ at (pos (retry_deadline j)))
        (λ b. record { due_if_asked = due w j at h b })
        (λ b. record { due_if_asked = no_retry w j msg.retry k })

  after_request-IsDue :
      (t : Attempt) (j : Job) (w : Answer) → IsDue w j (after_request a r o max_backoff t j w)
  unfolding after_request after_response pacing_signals
  after_request-IsDue t j (no_answer l why) =
      both_branches (IsDue (no_answer l why) j) t.stopped (record { due_if_asked = tt })
        (retry_or_fail-IsDue t j (no_answer l why) _ _ _ _ _ (empty_msg a.Num) tt refl)
  after_request-IsDue t j (response code get body) =
      by_branch (IsDue (response code get body) j) (retryable_status code)
        (λ b.
          retry_or_fail-IsDue t j (response code get body) _ _ _ _ _ (pacing_signals r get) b refl)
        (λ b. record { due_if_asked = tt })

  dispatched-IsDue :
      (t : Attempt) (j : Job)
      → IsDue t.answer j (after_request a r o max_backoff t j t.answer)
      → IsDue t.answer j (
        publish j.id (dispatching (j.attempts + 1))
            ∷ (after_request a r o max_backoff t j t.answer).0,
        (after_request a r o max_backoff t j t.answer).1,
      )
  dispatched-IsDue t j e = record { due_if_asked = e.due_if_asked }

  -- A retry is asked for only after a request that failed or an answer that says that the target may do
  -- better later, while the job has retries left, for a time before its retry deadline; the job
  -- comes back with one attempt more and is otherwise unchanged.
  pub execute-RetryIsDue :
      (t : Attempt) (j : Job) → RetryIsDue t.answer j ((execute a r o max_backoff t j).1).retry
  unfolding execute
  execute-RetryIsDue t j =
      (both_branches (IsDue t.answer j) (execution_expired j t.started_at)
        (record { due_if_asked = tt })
        (dispatched-IsDue t j (after_request-IsDue t j t.answer))).due_if_asked

  -- The attempts made at a job, one for each entry of the list until no retry is asked for.
  unfoldable pub attempts_made : List Attempt → Job → ℕ
  attempts_made [] j = 0
  attempts_made (t ∷ ts) j = elim ((execute a r o max_backoff t j).1).retry [
    | none ↦ 1
    | some again ↦ suc (attempts_made ts again.0)
  ]

  made_after :
      (w : Answer) (ts : List Attempt) (j : Job) (limit : ℕ) (m : Option (Job × ℤ × FailReason))
      → j.max_retries ≡ pos limit
      → j.attempts ≤ limit
      → RetryIsDue w j m
      → ((k : Job)
          → k.max_retries ≡ pos limit
          → k.attempts ≤ limit
          → attempts_made ts k + k.attempts ≤ limit + 1)
      → elim m [ none ↦ 1 | some again ↦ suc (attempts_made ts again.0) ] + j.attempts ≤ limit + 1
  made_after w ts j limit none h k asked ih = omega arith
  made_after w ts j limit (some (again, at, why)) h k asked ih =
      let fewer = left_below j limit h asked.allowed in
      let limited : again.max_retries ≡ pos limit = rw asked.counted h in
      let one_more : again.attempts ≡ j.attempts + 1 = rw asked.counted refl in
      omega (arith, ih again limited (omega arith))

  -- A job that allows `limit` retries is attempted at most `limit + 1` times, however the target
  -- answers.
  pub attempts_made-le :
      (ts : List Attempt) (j : Job) (limit : ℕ)
      → j.max_retries ≡ pos limit
      → j.attempts ≤ limit
      → attempts_made ts j + j.attempts ≤ limit + 1
  unfolding attempts_made
  attempts_made-le [] j limit h k = omega arith
  attempts_made-le (t ∷ ts) j limit h k =
      made_after t.answer ts j limit _ h k (execute-RetryIsDue t j)
        (λ k'. attempts_made-le ts k' limit)
