-- ===== src/Dispatch/Queue/Runs.antt =====
-- internal/dispatch/account_queue.go: every case of the select keeps the invariant, and so does a run.
use Prim.Native.String.{String}
use aquifer.Base.{
  ℕ, zero, suc, ◌+◌, ◌-◌, ◌≤◌, ◌≡◌, refl, ap, sym, false, Option, none, some, List, [], ◌∷◌, arith,
  length, length-append, All-append,
}
use aquifer.Base.Int.{ℤ, pos, negsuc, ◌+ℤ◌}
use aquifer.Base.Float.{FloatArith}
use aquifer.Jobs.Defs.{Job}
use aquifer.Dispatch.Target.Defs.{reserve_backlog}
use aquifer.Dispatch.Execute.Effects.{FailReason, Outside}
use aquifer.Dispatch.Execute.Signals.{DoneMsg, Readers, empty_msg}
use aquifer.Dispatch.Execute.Defs.{Attempt, execute}
use aquifer.Dispatch.Queue.Defs.{Ledger, WaitingJob, is_present}
use aquifer.Dispatch.Queue.Rate.{next_max_concurrent}
use aquifer.Dispatch.Queue.Loop.{Queue, Settings, pass}
use aquifer.Dispatch.Queue.Select.{
  enqueue, receive, receive_from, put_back, follow, finish_job, throttle, retries_fire, tick, due,
  not_due, pick_at,
}
use aquifer.Dispatch.Queue.Run.{
  Case, receives, completes, panics, throttles, ticks, fires, wakes, Step, enqueues, pace_moves,
  rounds, complete_at, panic_at, select, step, run,
}
use aquifer.Dispatch.Queue.Deadlines.{
  track_deadline-Covers, track_deadline-keeps_all, track_all-Tracks, track_all-keeps_all,
}
use aquifer.Dispatch.Queue.Invariant.{Good, pass-Good, pace-Good, drop_expired-Good}
use aquifer.Dispatch.Queue.Counts.{Balanced, rebalance, leave-Balanced}

-- The job that comes from `cmds` is not in memory yet.
abbrev pub IsNew : {N : Type 0} → List Job → Queue N → Type 0
IsNew [] q = Unit
IsNew (j ∷ js) q = is_present j.id q.books.present ≡ false

present-Balanced :
    (l : Ledger) (ids : List String) (n t : ℕ)
    → Balanced n t l
    → Balanced n t (record l { present = ids })
present-Balanced l ids n t b = record { counted = b.counted; accounted = b.accounted }

-- A job that was flying, and those that still are.
abbrev pub Picked : List Job → Option (Job × List Job) → Type 0
Picked js none = Unit
Picked js (some p) = length js ≡ suc (length p.1)

pick_at-Picked : (i : ℕ) (js : List Job) → Picked js (pick_at i js)
pick_at-Picked i [] = tt
pick_at-Picked zero (j ∷ js) = refl
pick_at-Picked (suc i) (j ∷ js) = picked_under (pick_at i js) (pick_at-Picked i js)
  where
    picked_under :
        (m : Option (Job × List Job))
        → Picked js m
        → Picked (j ∷ js) (elim m [ none ↦ none | some p ↦ some (p.0, j ∷ p.1) ])
    picked_under none h = tt
    picked_under (some p) h = ap suc h

due_split :
    (now : ℕ) (ws : List WaitingJob) → length (due now ws) + length (not_due now ws) ≡ length ws
due_split now [] = refl
due_split now (w ∷ ws) = ground (arith, due_split now ws)

module _ (a : FloatArith) (r : Readers a.Num) (o : Outside) (s : Settings a.Num) where
  enqueue-Good :
      (j : Job) (t : ℕ) (q : Queue a.Num)
      → Good a o s t q
      → Good a o s (suc t) (enqueue a r o s j q)
  unfolding enqueue reserve_backlog ◌+ℤ◌
  enqueue-Good j t q g = record {
    balanced = record {
      counted = rw g.balanced.counted (ground (arith, length-append q.cmds (j ∷ [])));
      accounted = omega (arith, g.balanced.accounted, length-append q.cmds (j ∷ []));
    };
    flights = g.flights;
    tracked = g.tracked;
    max_ok = g.max_ok;
    in_flight_ok = g.in_flight_ok;
  }

  receive_from-Good :
      (js : List Job) (t : ℕ) (q : Queue a.Num)
      → q.cmds ≡ js
      → IsNew js q
      → Good a o s t q
      → Good a o s t (receive_from a r o s js q)
  unfolding receive_from
  receive_from-Good [] t q e new g = g
  receive_from-Good (j ∷ js) t q e new g = rw new (record {
    balanced =
        rebalance _ _ t _ (rw e (omega (arith, length-append q.queue (j ∷ []))))
          (present-Balanced q.books _ _ t g.balanced);
    flights = g.flights;
    tracked =
        All-append _ q.queue (j ∷ []) (track_deadline-keeps_all j q.queue q.next_deadline g.tracked)
          (track_deadline-Covers j q.next_deadline, tt);
    max_ok = g.max_ok;
    in_flight_ok = g.in_flight_ok;
  })

  next_max-le : (c m : ℕ) (n : Option ℤ) → m ≤ c → next_max_concurrent a c m n ≤ c
  unfolding next_max_concurrent
  next_max-le c m none h = h
  next_max-le c m (some (negsuc n)) h = h
  next_max-le c m (some (pos n)) h = ground arith

  follow-Good :
      (now t : ℕ) (msg : DoneMsg a.Num) (q : Queue a.Num)
      → Good a o s t q
      → Good a o s t (follow a r o s now msg q).0
  unfolding follow
  follow-Good now t msg q g = record {
    balanced = record { counted = g.balanced.counted; accounted = g.balanced.accounted };
    flights = g.flights;
    tracked = g.tracked;
    max_ok = next_max-le s.configured_max_conc q.max_conc msg.max_concurrent g.max_ok;
    in_flight_ok = g.in_flight_ok;
  }

  -- The queue when a job has landed and its message is not followed yet.
  landed :
      (now t : ℕ) (j : Job) (js : List Job) (again : Option (Job × ℤ × FailReason))
      (q : Queue a.Num)
      → length q.flying ≡ suc (length js)
      → Good a o s t q
      → let ((ws, l), es) = put_back j again q.waiting q.books in
        Good a o s t
          (record q { flying = js; in_flight = q.in_flight - 1; waiting = ws; books = l })
  unfolding put_back
  landed now t j js none q e g = record {
    balanced = leave-Balanced j q.books _ t (rebalance _ _ t q.books (omega (arith, e)) g.balanced);
    flights = omega (arith, e, g.flights);
    tracked = g.tracked;
    max_ok = g.max_ok;
    in_flight_ok = omega (arith, g.in_flight_ok);
  }
  landed now t j js (some (again, at, why)) q e g = record {
    balanced =
        rebalance _ _ t q.books
          (omega (
            arith,
            e,
            length-append q.waiting (record { held = again; at = at; reason = why } ∷ []),
          ))
          g.balanced;
    flights = omega (arith, e, g.flights);
    tracked = g.tracked;
    max_ok = g.max_ok;
    in_flight_ok = omega (arith, g.in_flight_ok);
  }

  finish_job-Good :
      (now t : ℕ) (j : Job) (js : List Job) (msg : DoneMsg a.Num) (q : Queue a.Num)
      → length q.flying ≡ suc (length js)
      → Good a o s t q
      → Good a o s t (finish_job a r o s now j js msg q).0
  unfolding finish_job
  finish_job-Good now t j js msg q e g = follow-Good now t msg _ (landed now t j js msg.retry q e g)

  retries_fire-Good :
      (now t : ℕ) (q : Queue a.Num) → Good a o s t q → Good a o s t (retries_fire a r o s now q)
  unfolding retries_fire
  retries_fire-Good now t q g = record {
    balanced =
        rebalance _ _ t q.books
          (omega (arith, length-append q.queue (due now q.waiting), due_split now q.waiting))
          g.balanced;
    flights = g.flights;
    tracked =
        All-append _ q.queue (due now q.waiting)
          (track_all-keeps_all (due now q.waiting) q.queue q.next_deadline g.tracked)
          (track_all-Tracks (due now q.waiting) q.next_deadline);
    max_ok = g.max_ok;
    in_flight_ok = g.in_flight_ok;
  }

  complete_at-Good :
      (now t : ℕ) (w : Attempt) (m : Option (Job × List Job)) (q : Queue a.Num)
      → Picked q.flying m
      → Good a o s t q
      → Good a o s t (complete_at a r o s now w m q).0
  unfolding complete_at
  complete_at-Good now t w none q h g = g
  complete_at-Good now t w (some (j, js)) q h g =
      finish_job-Good now t j js (execute a r o s.max_backoff w j).1 q h g

  panic_at-Good :
      (now t : ℕ) (m : Option (Job × List Job)) (q : Queue a.Num)
      → Picked q.flying m
      → Good a o s t q
      → Good a o s t (panic_at a r o s now m q).0
  unfolding panic_at
  panic_at-Good now t none q h g = g
  panic_at-Good now t (some (j, js)) q h g = finish_job-Good now t j js (empty_msg a.Num) q h g

  -- A job that is received is not in memory yet.
  abbrev pub ReceivesNew : Case a.Num → Queue a.Num → Type 0
  ReceivesNew receives q = IsNew q.cmds q
  ReceivesNew _ q = Unit

  select-Good :
      (now t : ℕ) (c : Case a.Num) (q : Queue a.Num)
      → ReceivesNew c q
      → Good a o s t q
      → Good a o s t (select a r o s now c q).0
  unfolding select receive throttle tick
  select-Good now t receives q h g = receive_from-Good q.cmds t q refl h g
  select-Good now t (completes i w) q h g =
      complete_at-Good now t w (pick_at i q.flying) q (pick_at-Picked i q.flying) g
  select-Good now t (panics i) q h g =
      panic_at-Good now t (pick_at i q.flying) q (pick_at-Picked i q.flying) g
  select-Good now t (throttles x) q h g =
      follow-Good now t (record (empty_msg a.Num) { rps = some x }) q g
  select-Good now t (ticks f) q h g = drop_expired-Good a o s now t q g
  select-Good now t fires q h g = retries_fire-Good now t q g
  select-Good now t wakes q h g = g

  -- Along the run, no job is received that is in memory.
  abbrev pub AllNew : List (Step a.Num) → Queue a.Num → Type 0
  AllNew [] q = Unit
  AllNew (enqueues j ∷ es) q = AllNew es (enqueue a r o s j q)
  AllNew (pace_moves p ∷ es) q = AllNew es (record q { pace = p })
  AllNew (rounds rd c ∷ es) q =
      ReceivesNew c (pass a o s rd q).0 × AllNew es (step a r o s (rounds rd c) q).0

  abbrev pub enqueued : List (Step a.Num) → ℕ
  enqueued [] = 0
  enqueued (enqueues j ∷ es) = suc (enqueued es)
  enqueued (pace_moves p ∷ es) = enqueued es
  enqueued (rounds rd c ∷ es) = enqueued es

  retotal : (n m : ℕ) (q : Queue a.Num) → n ≡ m → Good a o s n q → Good a o s m q
  retotal n m q e g = rw (sym e) g

  -- Whatever a queue meets, the jobs that it counts as its backlog are exactly those that it holds
  -- (in the channel, queued, waiting to be retried or in flight), and the jobs that it served and
  -- those that it holds are together all that were ever enqueued: none is lost and none is counted
  -- twice. As many goroutines are in flight as it counts, never more than it was configured for,
  -- and the deadline that it keeps is right. A job that it receives must not be in its memory.
  pub run-Good :
      (es : List (Step a.Num)) (t : ℕ) (q : Queue a.Num)
      → AllNew es q
      → Good a o s t q
      → Good a o s (t + enqueued es) (run a r o s es q).0
  unfolding run step
  run-Good [] t q new g = retotal t (t + 0) q (omega arith) g
  run-Good (enqueues j ∷ es) t q new g =
      retotal (suc t + enqueued es) (t + suc (enqueued es)) _ (omega arith)
        (run-Good es (suc t) _ new (enqueue-Good j t q g))
  run-Good (pace_moves p ∷ es) t q new g = run-Good es t _ new (pace-Good a o s t q p g)
  run-Good (rounds rd c ∷ es) t q new g =
      run-Good es t _ new.1
        (select-Good rd.selected_at t c (pass a o s rd q).0 new.0 (pass-Good a o s rd t q g))
