-- ===== src/Dispatch/Queue/Run.antt =====
-- internal/dispatch/account_queue.go: runs of a queue. A round of the loop is a pass and one case of
-- its select; other goroutines enqueue jobs and take slots of the shared pace in between.
use Prim.Native.String.{String}
use aquifer.Base.{ℕ, Bool, false, Option, none, some, List, [], ◌∷◌, ◌++◌}
use aquifer.Base.Float.{FloatArith, Float}
use aquifer.Jobs.Defs.{Job, failed}
use aquifer.Dispatch.SharedPace.Defs.{SharedPace}
use aquifer.Dispatch.Execute.Effects.{Outside, set_status, internal_panic, webhook_for}
use aquifer.Dispatch.Execute.Signals.{Readers, empty_msg}
use aquifer.Dispatch.Execute.Defs.{Attempt, execute}
use aquifer.Dispatch.Queue.Loop.{Queue, Settings, Readings, Output, does_all, pass}
use aquifer.Dispatch.Queue.Select.{
  enqueue, receive, finish_job, throttle, retries_fire, tick, pick_at,
}

-- A case of the select: the numbers are places in `flying`. `wakes` is the dispatch timer's or
-- that of `spillWake`.
pub data Case (N : Type 0) : Type 0 where
  receives : Case N
  completes : ℕ → Attempt → Case N
  panics : ℕ → Case N
  throttles : Float N → Case N
  ticks : (String → Bool) → Case N
  fires wakes : Case N

pub data Step (N : Type 0) : Type 0 where
  enqueues : Job → Step N
  pace_moves : Option SharedPace → Step N
  rounds : Readings N → Case N → Step N

module _ (a : FloatArith) (r : Readers a.Num) (o : Outside) (s : Settings a.Num) where
  -- The goroutine of a dispatched job hands its message over.
  unfoldable pub complete_at :
      ℕ → Attempt → Option (Job × List Job) → Queue a.Num → Queue a.Num × List Output
  unfolding finish_job execute
  complete_at now t none q = (q, [])
  complete_at now t (some (j, js)) q =
      let (es, msg) = execute a r o s.max_backoff t j in
      let (q', out) = finish_job a r o s now j js msg q in (q', does_all es ++ out)

  -- The deferred function of that goroutine.
  unfoldable pub panic_at : ℕ → Option (Job × List Job) → Queue a.Num → Queue a.Num × List Output
  unfolding finish_job webhook_for
  panic_at now none q = (q, [])
  panic_at now (some (j, js)) q =
      let (q', out) = finish_job a r o s now j js (empty_msg a.Num) q in
      (
        q',
        does_all (
              set_status j.id failed
              ∷ webhook_for o j false (record {
                payload_status = failed;
                payload_reason = some internal_panic;
                payload_response = none;
                result_key = none;
              }))
            ++ out,
      )

  unfoldable pub select : ℕ → Case a.Num → Queue a.Num → Queue a.Num × List Output
  unfolding complete_at panic_at receive throttle retries_fire tick
  select now receives q = (receive a r o s q, [])
  select now (completes i t) q = complete_at now t (pick_at i q.flying) q
  select now (panics i) q = panic_at now (pick_at i q.flying) q
  select now (throttles rps) q = throttle a r o s now rps q
  select now (ticks subscribed) q = tick a r o s subscribed now q
  select now fires q = (retries_fire a r o s now q, [])
  select now wakes q = (q, [])

  unfoldable pub step : Step a.Num → Queue a.Num → Queue a.Num × List Output
  unfolding select pass enqueue
  step (enqueues j) q = (enqueue a r o s j q, [])
  step (pace_moves p) q = (record q { pace = p }, [])
  step (rounds rd c) q =
      let (q', (out, why)) = pass a o s rd q in
      let (q'', out') = select rd.selected_at c q' in (q'', out ++ out')

  unfoldable pub run : List (Step a.Num) → Queue a.Num → Queue a.Num × List Output
  unfolding step
  run [] q = (q, [])
  run (e ∷ es) q = let (q', out) = step e q in let (q'', out') = run es q' in (q'', out ++ out')
