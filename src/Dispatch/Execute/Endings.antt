-- ===== src/Dispatch/Execute/Endings.antt =====
-- internal/dispatch/account_queue.go: how an attempt may end.
use Prim.Native.String.{String}
use aquifer.Base.{
  ℕ, suc, ◌≡◌, refl, ap, ◌∙◌, Bool, true, false, Option, none, some, List, [], ◌∷◌, ◌++◌,
  if◌then◌else◌, both_branches,
}
use aquifer.Jobs.Defs.{
  Status, queued, in_flight, completed, failed, Job, is_webhook_delivery, webhook_retry_limit,
}
use aquifer.Dispatch.Execute.Effects.{
  Effect, FailReason, Outside, Payload, set_status, enqueue_webhook, pool_success, pool_failure,
  fail_job, complete_job, save_local_result, record_job_result, use_recorder, wants_webhook,
  webhook_for,
}

-- What an effect means for the job's end: `finishing` makes its status final, `requeueing` puts it
-- back, `telling` hands the end to its webhook.
pub data Meaning : Type 0 where
  finishing requeueing telling crediting blaming neutral : Meaning

abbrev pub meaning : Effect → Meaning
meaning (set_status i queued) = requeueing
meaning (set_status i in_flight) = neutral
meaning (set_status i completed) = finishing
meaning (set_status i failed) = finishing
meaning (enqueue_webhook i u w n p) = telling
meaning (pool_success m) = crediting
meaning (pool_failure m) = blaming
meaning _ = neutral

-- How many effects of each meaning there are.
pub record Tally : Type 0 where
  pub finished : ℕ
  pub requeued : ℕ
  pub told : ℕ
  pub credited : ℕ
  pub blamed : ℕ

abbrev pub tally_one : Meaning → Tally → Tally
tally_one finishing t = record t { finished = suc t.finished }
tally_one requeueing t = record t { requeued = suc t.requeued }
tally_one telling t = record t { told = suc t.told }
tally_one crediting t = record t { credited = suc t.credited }
tally_one blaming t = record t { blamed = suc t.blamed }
tally_one neutral t = t

-- Counted onto `t`.
abbrev pub tally_onto : Tally → List Effect → Tally
tally_onto t [] = t
tally_onto t (e ∷ es) = tally_one (meaning e) (tally_onto t es)

abbrev pub zero_tally : Tally
zero_tally = record { finished = 0; requeued = 0; told = 0; credited = 0; blamed = 0 }

abbrev pub tally : List Effect → Tally
tally = tally_onto zero_tally

tally_if :
    (b : Bool) (j : Job) (p : Payload)
    → tally_one finishing (
        tally (
          if b
          then enqueue_webhook j.id j.user_id j.webhook_url (webhook_retry_limit j) p ∷ []
          else []))
      ≡ record { finished = 1; requeued = 0; told = if b then 1 else 0; credited = 0; blamed = 0 }
tally_if true j p = refl
tally_if false j p = refl

tally-append :
    (t : Tally) (xs ys : List Effect) → tally_onto t (xs ++ ys) ≡ tally_onto (tally_onto t ys) xs
tally-append t [] ys = refl
tally-append t (x ∷ xs) ys = ap (tally_one (meaning x)) (tally-append t xs ys)

module _ (o : Outside) where
  save_quiet :
      (t : Tally) (j : Job) (s : Status) (code : ℕ) (c b : String)
      → tally_onto t (save_local_result o j s code c b) ≡ t
  unfolding save_local_result
  save_quiet t j s code c b =
      both_branches (λ (es : List Effect). tally_onto t es ≡ t) (is_webhook_delivery j) refl refl

  recorder_quiet :
      (t : Tally) (f : Option (Job → Status → ℕ → String → String → Option String)) (j : Job)
      (s : Status) (code : ℕ) (c b : String)
      → tally_onto t ((use_recorder o f j s code c b).0) ≡ t
  recorder_quiet t none j s code c b = refl
  recorder_quiet t (some f) j s code c b = refl

  record_quiet :
      (t : Tally) (j : Job) (s : Status) (code : ℕ) (c b : String)
      → tally_onto t ((record_job_result o j s code c b).0) ≡ t
  unfolding record_job_result
  record_quiet t j s code c b =
      both_branches (λ (r : List Effect × Option String). tally_onto t r.0 ≡ t)
        (is_webhook_delivery j) refl (recorder_quiet t o.recorder j s code c b)

  stored_quiet :
      (t : Tally) (j : Job) (s : Status) (code : ℕ) (c b : String) (rest : List Effect)
      → tally_onto t
          (save_local_result o j s code c b ++ ((record_job_result o j s code c b).0 ++ rest))
        ≡ tally_onto t rest
  stored_quiet t j s code c b rest =
      tally-append t (save_local_result o j s code c b)
        ((record_job_result o j s code c b).0 ++ rest)
      ∙ save_quiet (tally_onto t ((record_job_result o j s code c b).0 ++ rest)) j s code c b
      ∙ tally-append t ((record_job_result o j s code c b).0) rest
      ∙ record_quiet (tally_onto t rest) j s code c b

  -- What the end of a job counts to.
  abbrev pub ended : Job → Bool → Tally
  ended j streamed = record {
    finished = 1;
    requeued = 0;
    told = if wants_webhook o j streamed then 1 else 0;
    credited = 0;
    blamed = 0;
  }

  webhook_tally :
      (j : Job) (skip : Bool) (p : Payload)
      → tally_one finishing (tally (webhook_for o j skip p)) ≡ ended j skip
  unfolding webhook_for
  webhook_tally j skip p = tally_if (wants_webhook o j skip) j p

  pub fail_job-tally :
      (j : Job) (why : FailReason) (code : ℕ) (body : String) (streamed : Bool)
      → tally (fail_job o j why code body streamed) ≡ ended j streamed
  unfolding fail_job
  fail_job-tally j why code body streamed =
      ap (tally_one finishing) (stored_quiet zero_tally j failed code "" body _)
      ∙ webhook_tally j streamed _

  pub complete_job-tally :
      (j : Job) (code : ℕ) (c body : String) (streamed : Bool)
      → tally (complete_job o j code c body streamed) ≡ ended j streamed
  unfolding complete_job
  complete_job-tally j code c body streamed =
      ap (tally_one finishing) (stored_quiet zero_tally j completed code c body _)
      ∙ webhook_tally j streamed _
