-- ===== src/Dispatch/Worker/Tests.antt =====
-- internal/dispatch/url_worker.go: a worker at concrete calls.
use aquifer.Base.{ℕ, refl, true, false, none, [], ◌∷◌, arith}
use aquifer.Base.Float.{milli, num, flit, F}
use aquifer.Admission.Fair.Milli.{milli_fair}
use aquifer.Dispatch.Worker.Defs.{Worker, pending, pending_of, release, release_on}
use aquifer.Dispatch.Worker.Backlog.{IsBounded}
use aquifer.Dispatch.Worker.Calls.{
  asks, leaves, moves_budget, call_worker, call_all, call_all-IsBounded,
}

abbrev below_one : F milli
below_one = num 999

-- Two tenants with 30 jobs and one, and the budget given.
abbrev holding : ℕ → Worker
holding budget = record {
  queues = ("big", 30) ∷ ("small", 1) ∷ [];
  backlog = 31;
  max_backlog = budget;
  shrink_floor = 0;
  account_queue_mode = true;
  node_default = true;
  sender_opt_in = false;
  destination_mode = none;
  breaker_until = none;
  breaker_kind = "";
  is_stopped = false;
}

call_all-IsBounded_example : IsBounded (
    call_all milli 1_000_000 milli_fair below_one
      (leaves "big" ∷ asks "small" (flit milli 5 1) ∷ moves_budget 10 ∷ [])
      (holding 100))
unfolding pending pending_of call_worker release release_on
call_all-IsBounded_example =
    call_all-IsBounded milli 1_000_000 milli_fair below_one
      (leaves "big" ∷ asks "small" (flit milli 5 1) ∷ moves_budget 10 ∷ []) (holding 100)
      (
        omega arith,
        (record { small_budget = omega arith; small_work = omega arith }, (omega arith, tt)),
      )
      (record { has_budget = omega arith; summed = refl; bounded = omega arith })
