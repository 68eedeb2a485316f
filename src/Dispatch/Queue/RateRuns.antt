-- ===== src/Dispatch/Queue/RateRuns.antt =====
-- internal/dispatch/account_queue.go: the pace of a queue over its whole run.
use Prim.Native.String.{String}
use aquifer.Base.{
  ℕ, zero, suc, ◌+◌, ◌≡◌, refl, ap, ◌∙◌, Bool, true, false, not, ◌&&◌, Option, none, some, List, [],
  ◌∷◌, ◌++◌, ltb, both_branches, length,
}
use aquifer.Base.Float.{FloatArith, F, nan, num, interval}
use aquifer.Base.Int.{ℤ, pos, ltbℤ}
use aquifer.Jobs.Defs.{Job, queue_expired, execution_expired, has_retries_left, retry_deadline}
use aquifer.Dispatch.SharedPace.Defs.{reserve}
use aquifer.Dispatch.Target.Defs.{retryable_status}
use aquifer.Dispatch.Execute.Effects.{Effect, FailReason, Outside}
use aquifer.Dispatch.Execute.Delay.{add_duration, retry_delay}
use aquifer.Dispatch.Execute.Signals.{DoneMsg, Readers, empty_msg, pacing_signals, signalled_rps}
use aquifer.Dispatch.Execute.Defs.{
  Answer, no_answer, response, Attempt, execute, after_request, after_response, retry_or_fail,
}
use aquifer.Dispatch.Queue.Rate.{next_rps, pool_rps}
use aquifer.Dispatch.Queue.RateBounds.{
  RateLaws, InRange, NumberIfAny, next_rps-InRange, pool_rps-InRange, nan_kept, nan_follows,
  nan_pool, never_soon,
}
use aquifer.Dispatch.Queue.Defs.{dead_sweep_is_due, is_present}
use aquifer.Dispatch.Queue.Loop.{
  Queue, Settings, Reading, Readings, Output, Stop, Turn, stops, goes_on, turn, dispatch,
  drop_expired, drop_waiting, drop_dead, send_head, pass, too_soon, no_member,
}
use aquifer.Dispatch.Queue.Select.{
  enqueue, receive, receive_from, follow, finish_job, throttle, retries_fire, tick, pick_at,
}
use aquifer.Dispatch.Queue.Run.{
  Case, receives, completes, panics, throttles, ticks, fires, wakes, Step, enqueues, pace_moves,
  rounds, complete_at, panic_at, select, step, run,
}

module _ (a : FloatArith) (o : Outside) (s : Settings a.Num) where
  abbrev TurnRate : F a → Turn a.Num → Type 0
  TurnRate x (stops q why) = q.rate ≡ x
  TurnRate x (goes_on q out) = q.rate ≡ x

  turn-rate :
      (r : Reading a.Num) (q : Queue a.Num) (js : List Job) → TurnRate q.rate (turn a o s r q js)
  unfolding turn send_head drop_expired
  turn-rate r q [] = refl
  turn-rate r q (j ∷ js) =
      let (p, wait) = reserve a r.target_rate s.me r.now q.pace in
      both_branches (TurnRate q.rate) (not (ltb q.in_flight q.max_conc)) refl (
        both_branches (TurnRate q.rate) (queue_expired j r.now) refl (
          both_branches (TurnRate q.rate) (too_soon r.now q.last_request (interval a q.rate)) refl (
            both_branches (TurnRate q.rate) (ltb 0 wait) refl
              (both_branches (TurnRate q.rate) (no_member r.picked) refl refl))))

  abbrev RateEnd : F a → Queue a.Num × (List Output × Stop) → Type 0
  RateEnd x res = (res.0).rate ≡ x

  after_turn-rate :
      (fuel : ℕ) (r : ℕ → Reading a.Num) (x : F a) (v : Turn a.Num)
      → TurnRate x v
      → ((q' : Queue a.Num) → (dispatch a o s fuel r q').0.rate ≡ q'.rate)
      → RateEnd x (elim v [
        | stops q' why ↦ (q', ([], why))
        | goes_on q' out ↦
            let rest = dispatch a o s fuel r q' in (rest.0, (out ++ (rest.1).0, (rest.1).1))
      ])
  after_turn-rate fuel r x (stops q' why) v ih = v
  after_turn-rate fuel r x (goes_on q' out) v ih = ih q' ∙ v

  dispatch-rate :
      (fuel : ℕ) (r : ℕ → Reading a.Num) (q : Queue a.Num)
      → (dispatch a o s fuel r q).0.rate ≡ q.rate
  unfolding dispatch
  dispatch-rate zero r q = refl
  dispatch-rate (suc fuel) r q =
      after_turn-rate fuel r q.rate (turn a o s (r fuel) q q.queue) (turn-rate (r fuel) q q.queue)
        (dispatch-rate fuel r)

  drop_dead-rate : (now : ℕ) (q : Queue a.Num) → (drop_dead a o s now q).0.rate ≡ q.rate
  unfolding drop_dead
  drop_dead-rate now q =
      both_branches (λ (res : Queue a.Num × List Effect). (res.0).rate ≡ q.rate)
        (dead_sweep_is_due o s.dead_after now q.last_dead_sweep q.books.health) refl refl

  pub pass-rate :
      (r : Readings a.Num) (q : Queue a.Num)
      → (pass a o s r q).0.rate ≡ pool_rps a s.configured_rps q.rate r.capacity
  unfolding pass drop_expired drop_waiting
  pass-rate r q =
      let q₂ = (drop_waiting a o s r.swept_at (drop_expired a o s r.swept_at q).0).0 in
      let q₃ = (drop_dead a o s r.swept_at q₂).0 in
      let q₄ = record q₃ { rate = pool_rps a s.configured_rps q₃.rate r.capacity } in
      dispatch-rate (length q₄.queue + 1) r.turns q₄
      ∙ ap (λ x. pool_rps a s.configured_rps x r.capacity) (drop_dead-rate r.swept_at q₂)

module _ (a : FloatArith) (r : Readers a.Num) where
  -- What the answer of an attempt signals satisfies `P`.
  abbrev pub AnswerSays : (Option (F a) → Type 0) → Answer → Type 0
  AnswerSays P (no_answer l why) = Unit
  AnswerSays P (response code get body) = P (signalled_rps r get)

  -- So does what a case of the select brings in, and what all steps of a run do.
  abbrev pub CaseSays : (Option (F a) → Type 0) → Case a.Num → Type 0
  CaseSays P (completes i t) = AnswerSays P t.answer
  CaseSays P (throttles x) = P (some x)
  CaseSays P _ = Unit

  abbrev pub AllSay : (Option (F a) → Type 0) → List (Step a.Num) → Type 0
  AllSay P [] = Unit
  AllSay P (enqueues j ∷ es) = AllSay P es
  AllSay P (pace_moves p ∷ es) = AllSay P es
  AllSay P (rounds rd k ∷ es) = P rd.capacity × (CaseSays P k × AllSay P es)

  module _ (o : Outside) (max_backoff : ℕ) (P : Option (F a) → Type 0) (silent : P none) where
    abbrev Says : List Effect × DoneMsg a.Num → Type 0
    Says res = P ((res.1).rps)

    retry_or_fail-Says :
        (t : Attempt) (j : Job) (why : FailReason) (code : ℕ) (body : String) (after : Option ℤ)
        (l : Bool) (msg : DoneMsg a.Num)
        → P msg.rps
        → Says (retry_or_fail a r o max_backoff t j why code body after l msg)
    unfolding retry_or_fail
    retry_or_fail-Says t j why code body after l msg h =
        let at = add_duration t.failed_time (retry_delay a max_backoff t.draw j.attempts after) in
        both_branches Says (has_retries_left j && ltbℤ at (pos (retry_deadline j))) h h

    after_request-Says :
        (t : Attempt) (j : Job) (w : Answer)
        → AnswerSays P w
        → Says (after_request a r o max_backoff t j w)
    unfolding after_request after_response pacing_signals
    after_request-Says t j (no_answer l why) h =
        both_branches Says t.stopped silent
          (retry_or_fail-Says t j _ _ _ _ _ (empty_msg a.Num) silent)
    after_request-Says t j (response code get body) h =
        both_branches Says (retryable_status code)
          (retry_or_fail-Says t j _ _ _ _ _ (pacing_signals r get) h) h

    pub execute-Says :
        (t : Attempt) (j : Job) → AnswerSays P t.answer → Says (execute a r o max_backoff t j)
    unfolding execute
    execute-Says t j h =
        both_branches Says (execution_expired j t.started_at) silent
          (after_request-Says t j t.answer h)

-- A property of the pace that every message whose rate satisfies `P` keeps, and every capacity of the
-- pool that does.
module _ (a : FloatArith) (r : Readers a.Num) (o : Outside) (s : Settings a.Num)
    (P : Option (F a) → Type 0) (silent : P none) (Q : F a → Type 0)
    (at_message : (x : F a) (msg : DoneMsg a.Num)
      → Q x
      → P msg.rps
      → Q (next_rps a s.configured_rps x msg))
    (at_pass : (x : F a) (cap : Option (F a))
      → Q x
      → P cap
      → Q (pool_rps a s.configured_rps x cap)) where
  abbrev Paced : Queue a.Num → Type 0
  Paced q = Q q.rate

  follow-Paced :
      (now : ℕ) (msg : DoneMsg a.Num) (q : Queue a.Num)
      → P msg.rps
      → Paced q
      → Paced (follow a r o s now msg q).0
  unfolding follow
  follow-Paced now msg q n h = at_message q.rate msg h n

  complete_at-Paced :
      (now : ℕ) (t : Attempt) (m : Option (Job × List Job)) (q : Queue a.Num)
      → AnswerSays a r P t.answer
      → Paced q
      → Paced (complete_at a r o s now t m q).0
  unfolding complete_at finish_job follow
  complete_at-Paced now t none q n h = h
  complete_at-Paced now t (some (j, js)) q n h =
      follow-Paced now (execute a r o s.max_backoff t j).1 q
        (execute-Says a r o s.max_backoff P silent t j n) h

  panic_at-Paced :
      (now : ℕ) (m : Option (Job × List Job)) (q : Queue a.Num)
      → Paced q
      → Paced (panic_at a r o s now m q).0
  unfolding panic_at finish_job follow
  panic_at-Paced now none q h = h
  panic_at-Paced now (some (j, js)) q h = follow-Paced now (empty_msg a.Num) q silent h

  receive_from-Paced :
      (js : List Job) (q : Queue a.Num) → Paced q → Paced (receive_from a r o s js q)
  unfolding receive_from
  receive_from-Paced [] q h = h
  receive_from-Paced (j ∷ js) q h = both_branches Paced (is_present j.id q.books.present) h h

  select-Paced :
      (now : ℕ) (k : Case a.Num) (q : Queue a.Num)
      → CaseSays a r P k
      → Paced q
      → Paced (select a r o s now k q).0
  unfolding select receive throttle retries_fire tick drop_expired
  select-Paced now receives q n h = receive_from-Paced q.cmds q h
  select-Paced now (completes i t) q n h = complete_at-Paced now t (pick_at i q.flying) q n h
  select-Paced now (panics i) q n h = panic_at-Paced now (pick_at i q.flying) q h
  select-Paced now (throttles x) q n h =
      follow-Paced now (record (empty_msg a.Num) { rps = some x }) q n h
  select-Paced now (ticks f) q n h = h
  select-Paced now fires q n h = h
  select-Paced now wakes q n h = h

  pub run-Paced :
      (es : List (Step a.Num)) (q : Queue a.Num)
      → AllSay a r P es
      → Q q.rate
      → Q (run a r o s es q).0.rate
  unfolding run step enqueue
  run-Paced [] q n h = h
  run-Paced (enqueues j ∷ es) q n h = run-Paced es _ n h
  run-Paced (pace_moves p ∷ es) q n h = run-Paced es _ n h
  run-Paced (rounds rd k ∷ es) q n h = run-Paced es _ n.1.1 (
      select-Paced rd.selected_at k (pass a o s rd q).0 n.1.0
        (rw (pass-rate a o s rd q) (at_pass q.rate rd.capacity h n.0)))

module _ (a : FloatArith) (laws : RateLaws a) (r : Readers a.Num) (o : Outside) (s : Settings a.Num)
    (c : a.Num) (configured : s.configured_rps ≡ num c)
    (at_least : a.leb_num (a.lit 5 1) c ≡ true) where
  -- The pace of a queue stays between MinRPS and the configured rate, which is at least MinRPS,
  -- over its whole run, failures and the target's signals included, as long as no rate that an
  -- answer signals, no throttle and no capacity of the pool is NaN.
  pub run-InRange :
      (es : List (Step a.Num)) (q : Queue a.Num)
      → AllSay a r (NumberIfAny a) es
      → InRange a c q.rate
      → InRange a c (run a r o s es q).0.rate
  run-InRange es q n h =
      run-Paced a r o s (NumberIfAny a) tt (InRange a c)
        (λ x msg h' n'. rw configured (next_rps-InRange a laws c x msg at_least h' n'))
        (λ x cap h' n'. rw configured (pool_rps-InRange a laws c x cap at_least h' n')) es q n h

  -- A message that is no failure and carries a rate of NaN, as the answer of a target may, ends the
  -- queue's own pacing: the pace is NaN over every run from then on, failures included, in which no
  -- answer signals a rate, nobody throttles the queue and it has no pool; and no dispatch has to wait
  -- for it.
  pub nan_unpaces :
      (now later : ℕ) (last : Option ℕ) (msg : DoneMsg a.Num) (es : List (Step a.Num))
      (q : Queue a.Num)
      → msg.has_failed ≡ false
      → msg.rps ≡ some nan
      → a.neg_inf c ≡ false
      → AllSay a r (λ x. x ≡ none) es
      → let rps = (run a r o s es (follow a r o s now msg q).0).0.rate in
        (rps ≡ nan) × (too_soon later last (interval a rps) ≡ false)
  unfolding follow
  nan_unpaces now later last msg es q ok h hc none_left =
      let begun : next_rps a s.configured_rps q.rate msg ≡ nan =
        rw configured (nan_follows a laws c q.rate msg ok h hc) in
      let stuck : (run a r o s es (follow a r o s now msg q).0).0.rate ≡ nan =
        run-Paced a r o s (λ x. x ≡ none) refl (λ x. x ≡ nan)
          (λ x m e n. rw e (nan_kept a laws s.configured_rps m n))
          (λ x cap e n. rw (e, n) (nan_pool a laws s.configured_rps)) es
          (follow a r o s now msg q).0 none_left begun in
      (stuck, rw stuck (never_soon a laws later last))
