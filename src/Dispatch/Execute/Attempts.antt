-- ===== src/Dispatch/Execute/Attempts.antt =====
-- internal/dispatch/account_queue.go: every attempt ends one way, and when a job is retried.
use Prim.Native.String.{String}
use aquifer.Base.{
  ℕ, ◌+◌, ◌≡◌, refl, Bool, true, false, ◌&&◌, Option, none, some, List, ◌∷◌, ◌++◌, if◌then◌else◌,
  arith, both_branches,
}
use aquifer.Base.Int.{ℤ}
use aquifer.Base.Float.{FloatArith}
use aquifer.Jobs.Defs.{Job, execution_expired}
use aquifer.Dispatch.Target.Defs.{retryable_status}
use aquifer.Dispatch.Execute.Effects.{
  Effect, FailReason, Outside, pool_success, pool_failure, wants_webhook, publish, dispatching,
}
use aquifer.Dispatch.Execute.Signals.{empty_msg, DoneMsg, Headers, Readers, pacing_signals}
use aquifer.Dispatch.Execute.Defs.{
  Answer, no_answer, response, Attempt, to_member, execute, after_request, after_response,
  retry_or_fail,
}
use aquifer.Dispatch.Execute.Endings.{tally, ended, fail_job-tally, complete_job-tally}

abbrev pub retries : Option (Job × ℤ × FailReason) → ℕ
retries none = 0
retries (some r) = 1

abbrev pub members : Option String → ℕ
members none = 0
members (some m) = 1

-- Whether an answer says that the target may do better later.
abbrev pub may_pass : Answer → Bool
may_pass (no_answer is_local why) = true
may_pass (response code get body) = retryable_status code

module _ (a : FloatArith) (r : Readers a.Num) (o : Outside) (max_backoff : ℕ) where
  -- What may be said of an attempt's effects, by tally, and of its message: `m` is the member of the
  -- pool that it went to.
  pub record OneEnd (m : Option String) (streamed : Bool) (j : Job)
      (res : List Effect × DoneMsg a.Num) : Type 0 where
    pub once : (tally res.0).finished + (tally res.0).requeued + retries (res.1).retry ≡ 1
    pub telling :
        (tally res.0).told ≡ (if wants_webhook o j streamed then (tally res.0).finished else 0)
    pub credit : (tally res.0).credited ≡ (if (res.1).reached then members m else 0)
    pub blame : (tally res.0).blamed ≡ (if (res.1).has_failed then members m else 0)
    pub apart : ((res.1).reached && (res.1).has_failed) ≡ false

  blamed_end :
      (m : Option String) (streamed : Bool) (j : Job) (es : List Effect) (msg : DoneMsg a.Num)
      → msg.has_failed ≡ true
      → OneEnd none streamed j (es, msg)
      → OneEnd m streamed j (to_member pool_failure m ++ es, msg)
  blamed_end none streamed j es msg h e = e
  blamed_end (some m) streamed j es msg h e = record {
    once = e.once;
    telling = e.telling;
    credit = ground (arith, e.credit, e.apart);
    blame = ground (arith, e.blame);
    apart = e.apart;
  }

  credited_end :
      (m : Option String) (streamed : Bool) (j : Job) (es : List Effect) (msg : DoneMsg a.Num)
      → msg.reached ≡ true
      → OneEnd none streamed j (es, msg)
      → OneEnd m streamed j (to_member pool_success m ++ es, msg)
  credited_end none streamed j es msg h e = e
  credited_end (some m) streamed j es msg h e = record {
    once = e.once;
    telling = e.telling;
    credit = ground (arith, e.credit, e.apart);
    blame = ground (arith, e.blame, e.apart);
    apart = e.apart;
  }

  ended_end :
      (streamed : Bool) (j : Job) (es : List Effect) (msg : DoneMsg a.Num)
      → tally es ≡ ended o j streamed
      → msg.retry ≡ none
      → (msg.reached && msg.has_failed) ≡ false
      → OneEnd none streamed j (es, msg)
  ended_end streamed j es msg h k l = record {
    once = rw h (rw k refl);
    telling = rw h refl;
    credit = rw h (ground arith);
    blame = rw h (ground arith);
    apart = l;
  }

  spared_end :
      (m : Option String) (streamed : Bool) (j : Job) (es : List Effect) (msg : DoneMsg a.Num)
      → msg.reached ≡ false
      → msg.has_failed ≡ false
      → OneEnd none streamed j (es, msg)
      → OneEnd m streamed j (es, msg)
  spared_end m streamed j es msg h k e = record {
    once = e.once;
    telling = e.telling;
    credit = ground (arith, e.credit, h);
    blame = ground (arith, e.blame, k);
    apart = e.apart;
  }

  dispatched_end :
      (m : Option String) (streamed : Bool) (j : Job) (es : List Effect) (msg : DoneMsg a.Num)
      → OneEnd m streamed j (es, msg)
      → OneEnd m streamed j (publish j.id (dispatching (j.attempts + 1)) ∷ es, msg)
  dispatched_end m streamed j es msg e = record {
    once = e.once;
    telling = e.telling;
    credit = e.credit;
    blame = e.blame;
    apart = e.apart;
  }

  abbrev pub Ends : Attempt → Job → List Effect × DoneMsg a.Num → Type 0
  Ends t j res = OneEnd t.member t.streamed j res

  retry_or_fail-Ends :
      (t : Attempt) (j : Job) (why : FailReason) (code : ℕ) (body : String) (after : Option ℤ)
      (l : Bool) (msg : DoneMsg a.Num)
      → msg.reached ≡ false
      → msg.retry ≡ none
      → Ends t j (retry_or_fail a r o max_backoff t j why code body after l msg)
  unfolding retry_or_fail
  retry_or_fail-Ends t j why code body after l msg h k =
      both_branches (Ends t j) _
        (blamed_end t.member t.streamed j _ _ refl (record {
          once = refl;
          telling = ground arith;
          credit = ground arith;
          blame = refl;
          apart = rw h refl;
        }))
        (blamed_end t.member t.streamed j _ _ refl
          (ended_end t.streamed j _ _ (fail_job-tally o j _ _ _ _) k (rw h refl)))

  after_response-Ends :
      (t : Attempt) (j : Job) (code : ℕ) (get : Headers) (body : String)
      → Ends t j (after_response a r o max_backoff t j code get body)
  unfolding after_response pacing_signals
  after_response-Ends t j code get body =
      both_branches (Ends t j) (retryable_status code)
        (retry_or_fail-Ends t j _ _ _ _ _ (pacing_signals r get) refl refl)
        (credited_end t.member t.streamed j _ _ refl
          (ended_end t.streamed j _ _ (complete_job-tally o j _ _ _ _) refl refl))

  after_request-Ends :
      (t : Attempt) (j : Job) (w : Answer) → Ends t j (after_request a r o max_backoff t j w)
  unfolding after_request
  after_request-Ends t j (no_answer l why) =
      both_branches (Ends t j) t.stopped
        (record { once = refl; telling = ground arith; credit = refl; blame = refl; apart = refl })
        (retry_or_fail-Ends t j _ _ _ _ _ (empty_msg a.Num) refl refl)
  after_request-Ends t j (response code get body) = after_response-Ends t j code get body

  -- Every attempt ends in exactly one way: the job's status is made final, or it goes back to queued,
  -- or the queue is asked to retry it. The end is handed to a webhook exactly when it is final, the
  -- job has a webhook, is not a delivery itself and no stream took the final event. A pool's member
  -- is credited exactly when the target was reached and blamed exactly when the attempt failed.
  pub execute-Ends : (t : Attempt) (j : Job) → Ends t j (execute a r o max_backoff t j)
  unfolding execute
  execute-Ends t j =
      both_branches (Ends t j) (execution_expired j t.started_at)
        (spared_end t.member t.streamed j _ (empty_msg a.Num) refl refl
          (ended_end t.streamed j _ _ (fail_job-tally o j _ _ _ _) refl refl))
        (dispatched_end t.member t.streamed j _ _ (after_request-Ends t j t.answer))
