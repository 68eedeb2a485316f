-- ===== src/Dispatch/Target/Tests.antt =====
-- internal/dispatch/account_queue.go: the counters at a concrete history.
use aquifer.Base.{refl, List, [], ◌∷◌, arith}
use aquifer.Base.Int.{pos, ◌+ℤ◌, ◌-ℤ◌}
use aquifer.Dispatch.Target.Defs.{reserve_backlog, release_backlog, clear_backlog}
use aquifer.Dispatch.Target.Counters.{
  Shared, Call, reserves, releases, clears, at_queue, call, calls, AddsUp, calls-AddsUp,
}

abbrev two_queues : Shared
two_queues = record { backlogs = pos 0 ∷ pos 0 ∷ []; active = pos 0; total = pos 0 }

abbrev history : List Call
history = reserves 0 ∷ reserves 1 ∷ reserves 1 ∷ releases 0 ∷ clears 1 ∷ []

calls-AddsUp_example : AddsUp 0 0 (calls two_queues history)
unfolding call at_queue reserve_backlog release_backlog clear_backlog ◌+ℤ◌ ◌-ℤ◌
calls-AddsUp_example =
    calls-AddsUp two_queues history (omega arith)
      (record { nonneg = omega arith; counted = refl; summed = refl })
