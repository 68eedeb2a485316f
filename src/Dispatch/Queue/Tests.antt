-- ===== src/Dispatch/Queue/Tests.antt =====
-- internal/dispatch/account_queue.go: a queue that serves a concrete job.
use text.Mathlib.Text.{◌==◌ as str_eq}
use aquifer.Base.{
  ℕ, ◌-◌, if◌then◌else◌, ◌+◌, ◌*◌, ◌/◌, ◌≡◌, refl, inr, true, false, none, some, List, [], ◌∷◌,
  arith,
}
use aquifer.Base.Int.{pos}
use aquifer.Base.Float.{milli, milli_laws, nan, num, interval}
use aquifer.Jobs.Defs.{Job, queued, queue_deadline, queue_expired}
use aquifer.Dispatch.SharedPace.Defs.{reserve}
use aquifer.Dispatch.Execute.Effects.{Outside}
use aquifer.Dispatch.Execute.Signals.{Readers, DoneMsg, empty_msg, signalled_rps}
use aquifer.Dispatch.Execute.Defs.{Attempt, response}
use aquifer.Dispatch.Queue.Loop.{
  Queue, Settings, Reading, Readings, new_queue, dispatch, pass, drop_expired, drop_waiting,
  drop_dead, turn, sends, nothing_to_send, send_head, too_soon,
}
use aquifer.Dispatch.Queue.Defs.{
  is_present, sweep, drop_expired_jobs, drop_expired_waiting, dead_sweep_is_due,
}
use aquifer.Dispatch.Queue.Select.{enqueue, follow}
use aquifer.Dispatch.Queue.Run.{Step, enqueues, rounds, receives, completes, wakes, run}
use aquifer.Dispatch.Queue.RateBounds.{RateLaws, InRange, NumberIfAny}
use aquifer.Dispatch.Queue.RateRuns.{AllSay, run-InRange, nan_unpaces}
use aquifer.Dispatch.Queue.Turns.{Dispatched, dispatch-Dispatched}
use aquifer.Dispatch.Queue.Invariant.{Good}
use aquifer.Dispatch.Queue.Runs.{enqueued, run-Good}

abbrev readers : Readers milli.Num
readers = record {
  scan_float = λ s. if str_eq s "nan" then nan else num 2000;
  scan_int = λ s. (pos 4, true);
  atoi = λ s. none;
  orca_rps = λ h. none;
}

abbrev outside : Outside
outside = record { truncate = λ s. (s, false); recorder = none }

-- 20 requests a second, 4 at a time.
abbrev settings : Settings milli.Num
settings = record {
  configured_rps = num 20_000;
  configured_max_conc = 4;
  dead_after = 0;
  max_backoff = 300_000_000_000;
  me = 0;
}

abbrev task : Job
task = record {
  id = "j1";
  user_id = "u";
  idempotent_key = "k";
  url = "https://api.example/v1";
  pool_id = "";
  method = "POST";
  body = "{}";
  webhook_url = "";
  kind = "user";
  status = queued;
  created_at = 1_000;
  execute_before = 0;
  idempotency_scope = "";
  max_retries = pos 2;
  attempts = 0;
  webhook_max_retries = none;
  dedup_cache = "";
}

-- A tenth of a second passes between the turns of the dispatch loop, of which the first leaves fuel for two.
abbrev turn_at : ℕ → Reading milli.Num
turn_at fuel = record {
  now = 2_000_000_000 + (2 - fuel) * 100_000_000;
  target_rate = num 20_000;
  picked = none;
}

abbrev at_two : Readings milli.Num
at_two = record {
  swept_at = 2_000_000_000;
  capacity = none;
  turns = turn_at;
  selected_at = 2_000_000_000;
}

abbrev fresh : Queue milli.Num
fresh =
    new_queue milli outside settings true
      (record { backlog = pos 0; served = 0; active_queues = pos 0; target_backlog = pos 0 })
      (record { failing_since = 0; target_served = 0 }) none

abbrev answered_ok : Attempt
answered_ok = record {
  started_at = 2_000_000_000;
  failed_time = 2_000_000_000;
  stopped = false;
  member = none;
  answer = response 200 (λ h. if str_eq h "X-Aqueduct-Rps" then "2" else "") "done";
  streamed = false;
  draw = 0;
}

abbrev steps : List (Step milli.Num)
steps =
    enqueues task
    ∷ rounds at_two receives
    ∷ rounds at_two (completes 0 answered_ok)
    ∷ rounds at_two wakes
    ∷ []

milli_rate_laws : RateLaws milli
milli_rate_laws = record {
  order = milli_laws;
  halved = λ x h. (x * 1000 / 2000, ground arith, ground arith);
  raised = λ x h. (x * 1050 / 1000, ground arith, ground arith);
}

run-Good_example :
    Good milli outside settings
      (0 + enqueued milli readers outside settings steps)
      (run milli readers outside settings steps fresh).0
unfolding new_queue enqueue pass drop_expired drop_expired_jobs drop_waiting drop_expired_waiting
    sweep drop_dead dead_sweep_is_due dispatch turn is_present
run-Good_example =
    run-Good milli readers outside settings steps 0 fresh (refl, (tt, (tt, tt)))
      (record {
        balanced = record { counted = refl; accounted = refl };
        flights = refl;
        tracked = tt;
        max_ok = omega arith;
        in_flight_ok = omega arith;
      })

-- The only rate that an answer signals is 2.
all_say : AllSay milli readers (NumberIfAny milli) steps
unfolding signalled_rps
all_say = (tt, (tt, (tt, (tt, (tt, (tt, tt))))))

run-InRange_example : InRange milli 20_000 (run milli readers outside settings steps fresh).0.rate
unfolding new_queue
run-InRange_example =
    run-InRange milli milli_rate_laws readers outside settings 20_000 refl (ground arith) steps
      fresh all_say (refl, refl)

-- Two jobs in a queue at 20 requests a second.
abbrev two_jobs : Queue milli.Num
two_jobs = record fresh {
  queue = task ∷ record task { id = "t2" } ∷ [];
  rate = num 20_000;
  next_deadline = 86_401_000;
}

dispatch-Dispatched_example :
    Dispatched milli outside settings two_jobs (dispatch milli outside settings 3 turn_at two_jobs)
unfolding new_queue queue_deadline
dispatch-Dispatched_example =
    dispatch-Dispatched milli outside settings 3 turn_at two_jobs (omega arith)
      (inr (omega arith, omega arith), (inr (omega arith, omega arith), tt))

both_are_sent : (dispatch milli outside settings 3 turn_at two_jobs).1 ≡ (
  sends task 2_000_000_000 none ∷ sends (record task { id = "t2" }) 2_100_000_000 none ∷ [],
  nothing_to_send,
)
unfolding new_queue dispatch turn send_head queue_expired queue_deadline reserve drop_expired
both_are_sent = refl

-- An answer with `X-Aqueduct-Rps: nan`.
abbrev says_nan : DoneMsg milli.Num
says_nan = record (empty_msg milli.Num) { rps = some nan; reached = true }

-- Then a job comes in, is taken and wakes the loop.
abbrev quiet_steps : List (Step milli.Num)
quiet_steps = enqueues task ∷ rounds at_two receives ∷ rounds at_two wakes ∷ []

nan_unpaces_example :
    let rps =
      (run milli readers outside settings quiet_steps
        (follow milli readers outside settings 5 says_nan fresh).0).0.rate in
    (rps ≡ nan) × (too_soon 5 (some 5) (interval milli rps) ≡ false)
nan_unpaces_example =
    nan_unpaces milli milli_rate_laws readers outside settings 20_000 refl (ground arith) 5 5
      (some 5) says_nan quiet_steps fresh refl refl refl (refl, (tt, (refl, (tt, tt))))
