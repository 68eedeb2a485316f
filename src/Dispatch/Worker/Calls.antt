-- ===== src/Dispatch/Worker/Calls.antt =====
-- internal/dispatch/url_worker.go: the backlog of a target over any calls of its worker.
use Prim.Native.String.{String}
use aquifer.Base.{ℕ, ◌<◌, true, List, [], ◌∷◌}
use aquifer.Base.Float.{FloatArith, F}
use aquifer.Admission.Fair.Bounds.{FairLaws}
use aquifer.Dispatch.Worker.Defs.{Worker, set_max_backlog, pending_of, reserve, release}
use aquifer.Dispatch.Worker.Backlog.{
  IsBounded, IsSmall, set_max_backlog-IsBounded, release-IsBounded, reserve-IsBounded,
}

-- A job asks for a place, with the draw that admission makes; a job of the queue with a key leaves; the
-- target moves its budget.
pub data WorkerCall (N : Type 0) : Type 0 where
  asks : String → N → WorkerCall N
  leaves : String → WorkerCall N
  moves_budget : ℕ → WorkerCall N

module _ (a : FloatArith) (bound : ℕ) (laws : FairLaws a bound) (below_one : F a) where
  unfoldable pub call_worker : WorkerCall (F a) → Worker → Worker
  unfolding reserve release set_max_backlog
  call_worker (asks tenant draw) w = (reserve a below_one tenant draw true w).0
  call_worker (leaves key) w = release key w
  call_worker (moves_budget v) w = set_max_backlog v w

  unfoldable pub call_all : List (WorkerCall (F a)) → Worker → Worker
  unfolding call_worker
  call_all [] w = w
  call_all (c ∷ cs) w = call_all cs (call_worker c w)

  -- A job leaves a queue that has one, and a budget is not taken away.
  abbrev pub IsSound : WorkerCall (F a) → Worker → Type 0
  IsSound (asks tenant draw) w = IsSmall bound w
  IsSound (leaves key) w = 0 < pending_of key w.queues
  IsSound (moves_budget v) w = 0 < v

  abbrev pub AllSound : List (WorkerCall (F a)) → Worker → Type 0
  AllSound [] w = Unit
  AllSound (c ∷ cs) w = IsSound c w × AllSound cs (call_worker c w)

  call_worker-IsBounded :
      (c : WorkerCall (F a)) (w : Worker) → IsSound c w → IsBounded w → IsBounded (call_worker c w)
  unfolding call_worker
  call_worker-IsBounded (asks tenant draw) w s b =
      reserve-IsBounded a bound laws below_one tenant draw w s b
  call_worker-IsBounded (leaves key) w s b = release-IsBounded key w s b
  call_worker-IsBounded (moves_budget v) w s b = set_max_backlog-IsBounded v w s b

  -- However jobs ask and leave and the target moves its budget, the backlog that admission lets a
  -- worker hold stays within five quarters of the budget or of the floor, which is the backlog
  -- held when the budget shrank, and it is the sum of the queues' backlogs. A job leaves a queue
  -- that has one, no budget is 0, and the numbers are small enough for a float64.
  pub call_all-IsBounded :
      (cs : List (WorkerCall (F a))) (w : Worker)
      → AllSound cs w
      → IsBounded w
      → IsBounded (call_all cs w)
  unfolding call_all
  call_all-IsBounded [] w s b = b
  call_all-IsBounded (c ∷ cs) w s b =
      call_all-IsBounded cs (call_worker c w) s.1 (call_worker-IsBounded c w s.0 b)
