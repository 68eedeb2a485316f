-- ===== src/Dispatch/Queue/Defs.antt =====
-- internal/dispatch/account_queue.go (the parts of `run` that a job leaves the queue by),
-- internal/dispatch/dead_target.go (failDeadTarget) and internal/dispatch/paged_recovery.go (hold,
-- drop). Jobs on disk are not modelled: `spills` is empty. Times are nanoseconds.
use Prim.Native.String.{String}
use text.Mathlib.Text.{◌==◌ as str_eq}
use aquifer.Base.{
  ℕ, ◌-◌, ◌/◌, Bool, true, false, not, ◌&&◌, ◌||◌, Option, none, some, List, [], ◌∷◌, ◌++◌, ltb,
  leb, ◌==◌, if◌then◌else◌,
}
use aquifer.Base.Int.{ℤ}
use aquifer.Jobs.Defs.{Job, queue_deadline, queue_expired, unix_milli}
use aquifer.Dispatch.Target.Defs.{Counters, Health, release_backlog, mark_served, failing_for}
use aquifer.Dispatch.Execute.Effects.{
  Effect, FailReason, Outside, target_unavailable, job_done, fail_expired_job, fail_queued_job,
}

pub record WaitingJob : Type 0 where
  pub held : Job
  pub at : ℤ
  pub reason : FailReason

-- What a job touches when it leaves: the counters, the target's health and the ids in memory.
pub record Ledger : Type 0 where
  pub counters : Counters
  pub health : Health
  pub present : List String

unfoldable pub is_present : String → List String → Bool
is_present i [] = false
is_present i (x ∷ xs) = str_eq i x || is_present i xs

abbrev pub erase_id : String → List String → List String
erase_id i [] = []
erase_id i (x ∷ xs) = if str_eq i x then erase_id i xs else x ∷ erase_id i xs

unfoldable pub hold : Job → Ledger → Ledger
unfolding is_present
hold j l = if is_present j.id l.present then l else record l { present = j.id ∷ l.present }

unfoldable pub drop : Job → Ledger → Ledger
drop j l = record l { present = erase_id j.id l.present }

-- A job leaves for good.
unfoldable pub leave : Job → Ledger → Ledger
unfolding drop release_backlog mark_served
leave j l =
    let (c, h) = mark_served (release_backlog l.counters) l.health in
    record (drop j l) { counters = c; health = h }

-- What a sweep of a list keeps, and what it did.
pub record Swept (A : Type 0) : Type 0 where
  pub kept : List A
  pub ledger : Ledger
  pub effects : List Effect

abbrev pub is_nil : {A : Type 0} → List A → Bool
is_nil [] = true
is_nil (x ∷ xs) = false

-- `nextDeadline` with one job more: the earliest deadline, 0 if there is none.
unfoldable pub track_deadline : Job → ℕ → ℕ
track_deadline j next =
    let d = queue_deadline j in if ltb 0 d && (next == 0 || ltb d next) then d else next

unfoldable pub track_all : List Job → ℕ → ℕ
unfolding track_deadline
track_all [] next = next
track_all (j ∷ js) next = track_all js (track_deadline j next)

-- Whether the last look at a dead target was less than deadTargetSweepEvery ago.
abbrev pub looked_recently : ℕ → Option ℕ → Bool
looked_recently now none = false
looked_recently now (some last) = ltb (now - last) 2_000_000_000

module _ (o : Outside) where
  -- The bodies of the loops of `dropExpiredJobs` and `dropExpiredWaiting` at an expired job.
  unfoldable pub expire : ℕ → Job → Option FailReason → Ledger → Ledger × List Effect
  unfolding leave fail_expired_job
  expire now j last l = (leave j l, fail_expired_job o now j last ++ (job_done j ∷ []))

  -- The loop that keeps part of a list and lets each job of the rest go, with what letting one go does.
  unfoldable pub sweep :
      {A : Type 0} → (A → Bool) → (A → Ledger → Ledger × List Effect) → List A → Ledger → Swept A
  sweep gone go [] l = record { kept = []; ledger = l; effects = [] }
  sweep gone go (x ∷ xs) l =
      let (l', es) = (if gone x then go x l else (l, [])) in
      let rest = sweep gone go xs l' in
      record {
        kept = if gone x then rest.kept else x ∷ rest.kept;
        ledger = rest.ledger;
        effects = es ++ rest.effects;
      }

  unfoldable pub drop_expired_waiting : ℕ → List WaitingJob → Ledger → Swept WaitingJob
  unfolding sweep expire
  drop_expired_waiting now =
      sweep (λ w. queue_expired w.held now) (λ w. expire now w.held (some w.reason))

  -- A queue of jobs and its `nextDeadline` after `dropExpiredJobs`.
  unfoldable pub drop_expired_jobs : ℕ → List Job → ℕ → Ledger → ℕ × Swept Job
  unfolding sweep expire track_deadline
  drop_expired_jobs now js next l =
      let same : Swept Job = record { kept = js; ledger = l; effects = [] } in
      let swept = sweep (λ j. queue_expired j now) (λ j. expire now j none) js l in
      if is_nil js
      then (0, same)
      else if next == 0 || ltb (unix_milli now) next
      then (next, same)
      else (track_all swept.kept 0, swept)

  -- `fail` of `failDeadTarget`.
  unfoldable pub fail_dead : FailReason → Job → Ledger → Ledger × List Effect
  unfolding leave fail_queued_job
  fail_dead why j l = (leave j l, fail_queued_job o j why ++ (job_done j ∷ []))

  -- Whether a job has waited since the time `cutoff`, in Unix milliseconds.
  abbrev pub is_old : ℕ → Job → Bool
  is_old cutoff j = ltb 0 j.created_at && leb j.created_at cutoff

  -- Whether `failDeadTarget` looks at its jobs: `limit` is AQUIFER_DEAD_TARGET_FAIL_AFTER_SECONDS, in
  -- nanoseconds, and `last` the time of the last look.
  unfoldable pub dead_sweep_is_due : ℕ → ℕ → Option ℕ → Health → Bool
  unfolding failing_for
  dead_sweep_is_due limit now last h =
      not (limit == 0) && leb limit (failing_for now h) && not (looked_recently now last)

  unfoldable pub fail_dead_target :
      ℕ → ℕ → List Job → List WaitingJob → Ledger → Swept Job × Swept WaitingJob
  unfolding sweep fail_dead failing_for
  fail_dead_target limit now js ws l =
      let cutoff = unix_milli (now - limit) in
      let why = target_unavailable (failing_for now l.health / 1_000_000_000) in
      let queue = sweep (is_old cutoff) (fail_dead why) js l in
      (queue, sweep (λ w. is_old cutoff w.held) (λ w. fail_dead why w.held) ws queue.ledger)
