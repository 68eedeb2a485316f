-- ===== src/Dispatch/Queue/Select.antt =====
-- internal/dispatch/account_queue.go: the cases of the run loop's select, Enqueue and Throttle.
use Prim.Native.String.{String}
use aquifer.Base.{
  ℕ, zero, suc, ◌+◌, ◌-◌, Bool, not, ◌&&◌, Option, none, some, List, [], ◌∷◌, ◌++◌, ◌==◌,
  if◌then◌else◌, length,
}
use aquifer.Base.Int.{ℤ, pos, ltbℤ}
use aquifer.Base.Float.{FloatArith, Float}
use aquifer.Jobs.Defs.{Job}
use aquifer.Dispatch.Target.Defs.{reserve_backlog, clear_backlog, failed_at, answered}
use aquifer.Dispatch.Execute.Effects.{Effect, FailReason, Outside, job_done}
use aquifer.Dispatch.Execute.Signals.{DoneMsg, Readers, empty_msg}
use aquifer.Dispatch.Queue.Defs.{
  WaitingJob, Ledger, hold, is_present, leave, track_deadline, track_all,
}
use aquifer.Dispatch.Queue.Rate.{next_rps, next_max_concurrent}
use aquifer.Dispatch.Queue.Loop.{
  Queue, Settings, Output, slow_start_signal, max_backlog_signal, account_queue_signal, position,
  does_all, drop_expired,
}

abbrev pub signal : {A : Type 0} → (A → Output) → Option A → List Output
signal f none = []
signal f (some x) = f x ∷ []

-- The retry of a message, or the end of its job.
unfoldable pub put_back :
    Job
    → Option (Job × ℤ × FailReason)
    → List WaitingJob
    → Ledger
    → (List WaitingJob × Ledger) × List Effect
unfolding leave
put_back j none ws l = ((ws, leave j l), job_done j ∷ [])
put_back j (some (again, at, why)) ws l =
    ((ws ++ (record { held = again; at = at; reason = why } ∷ []), l), [])

-- The jobs whose time has come, and the others.
abbrev pub due : ℕ → List WaitingJob → List Job
due now [] = []
due now (w ∷ ws) = if ltbℤ (pos now) w.at then due now ws else w.held ∷ due now ws

abbrev pub not_due : ℕ → List WaitingJob → List WaitingJob
not_due now [] = []
not_due now (w ∷ ws) = if ltbℤ (pos now) w.at then w ∷ not_due now ws else not_due now ws

-- The positions sent to the jobs that have a subscriber.
abbrev pub positions : (String → Bool) → ℕ → List Job → List Output
positions subscribed i [] = []
positions subscribed i (j ∷ js) =
    if subscribed j.id
    then position j.id (i + 1) ∷ positions subscribed (i + 1) js
    else positions subscribed (i + 1) js

-- A job that is flying, and the others.
abbrev pub pick_at : ℕ → List Job → Option (Job × List Job)
pick_at i [] = none
pick_at zero (j ∷ js) = some (j, js)
pick_at (suc i) (j ∷ js) = elim (pick_at i js) [ none ↦ none | some p ↦ some (p.0, j ∷ p.1) ]

module _ (a : FloatArith) (r : Readers a.Num) (o : Outside) (s : Settings a.Num) where
  -- `Enqueue`: the job is counted before it is handed over.
  unfoldable pub enqueue : Job → Queue a.Num → Queue a.Num
  unfolding reserve_backlog
  enqueue j q = record q {
    cmds = q.cmds ++ (j ∷ []);
    books = record (q.books) { counters = reserve_backlog (q.books).counters };
  }

  -- A job from `cmds`. With no jobs on disk `acceptHandoff` only asks whether it is held.
  unfoldable pub receive_from : List Job → Queue a.Num → Queue a.Num
  unfolding hold track_deadline is_present
  receive_from [] q = q
  receive_from (j ∷ js) q =
      if is_present j.id q.books.present then record q { cmds = js } else record q {
        cmds = js;
        queue = q.queue ++ (j ∷ []);
        books = hold j q.books;
        next_deadline = track_deadline j q.next_deadline;
      }

  unfoldable pub receive : Queue a.Num → Queue a.Num
  unfolding receive_from
  receive q = receive_from q.cmds q

  -- What a message does to the target's health.
  unfoldable pub report_health : ℕ → DoneMsg a.Num → Ledger → Ledger
  unfolding failed_at answered
  report_health now msg l = record l {
    health =
        if msg.has_failed && not msg.local
        then failed_at now l.health
        else if msg.reached
        then answered l.health
        else l.health;
  }

  -- The part of the case `<-q.done` that every message passes.
  unfoldable pub follow : ℕ → DoneMsg a.Num → Queue a.Num → Queue a.Num × List Output
  unfolding report_health next_rps next_max_concurrent
  follow now msg q = (
    record q {
      books = report_health now msg q.books;
      rate = next_rps a s.configured_rps q.rate msg;
      max_conc = next_max_concurrent a s.configured_max_conc q.max_conc msg.max_concurrent;
    },
    signal slow_start_signal msg.slow_start
        ++ (signal max_backlog_signal msg.max_backlog
            ++ signal account_queue_signal msg.account_queue),
  )

  -- The case `<-q.done` for the message of a job, with the jobs that stay in flight.
  unfoldable pub finish_job :
      ℕ → Job → List Job → DoneMsg a.Num → Queue a.Num → Queue a.Num × List Output
  unfolding put_back follow
  finish_job now j js msg q =
      let ((ws, l), es) = put_back j msg.retry q.waiting q.books in
      let q' = record q { flying = js; in_flight = q.in_flight - 1; waiting = ws; books = l } in
      let (q'', out) = follow now msg q' in (q'', does_all es ++ out)

  -- `Throttle`: a message without a job.
  unfoldable pub throttle : ℕ → Float a.Num → Queue a.Num → Queue a.Num × List Output
  unfolding follow
  throttle now rps q = follow now (record (empty_msg a.Num) { rps = some rps }) q

  unfoldable pub retries_fire : ℕ → Queue a.Num → Queue a.Num
  unfolding track_all
  retries_fire now q = record q {
    queue = q.queue ++ due now q.waiting;
    waiting = not_due now q.waiting;
    next_deadline = track_all (due now q.waiting) q.next_deadline;
  }

  unfoldable pub tick : (String → Bool) → ℕ → Queue a.Num → Queue a.Num × List Output
  unfolding drop_expired
  tick subscribed now q =
      let (q', es) = drop_expired a o s now q in
      (q', does_all es ++ positions subscribed 0 q'.queue)

  -- The case `<-q.stop`.
  unfoldable pub stop : Queue a.Num → Queue a.Num
  unfolding clear_backlog
  stop q = record q { books = record (q.books) { counters = clear_backlog (q.books).counters } }

  -- Whether the loop ends when its idle timer fires.
  unfoldable pub ends_idle : Queue a.Num → Bool
  ends_idle q = length q.queue == 0 && q.in_flight == 0 && length q.waiting == 0
