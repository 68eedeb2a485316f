-- ===== src/Websocket/Scheduler/Tests.antt =====
-- internal/websocket/queue.go: runs of the scheduler, and its theorems at concrete inputs.
use mathlib.Core.List.{Sublist}
use aquifer.Base.{◌+◌, ◌≤◌, ◌≡◌, refl, ap, false, List, [], ◌∷◌, ◌++◌, arith, length}
use aquifer.Base.Int.{◌+ℤ◌, ◌-ℤ◌}
use aquifer.Base.Float.{milli, flit, interval}
use aquifer.Retry.{jitter}
use aquifer.Websocket.Scheduler.Defs.{
  SchedulerConfig, new_scheduler, enqueue_upstream, effective_max, effective_rps, grant_ready,
  release_upstream, cancel, publish_from, publish_one, remove,
}
use aquifer.Websocket.Scheduler.Invariant.{
  Inv, Event, enqueues, releases, cancels, step, run, run-Inv,
}
use aquifer.Websocket.Scheduler.Order.{entered, run-order}
use aquifer.Websocket.Scheduler.Pacing.{Grants-spaced}

abbrev small : SchedulerConfig milli
small = record {
  cfg_clients = 2;
  cfg_upstreams = 1;
  cfg_waiting = 3;
  cfg_connect_rps = flit milli 20 0;
  cfg_slow_start_rps = flit milli 1 0;
}

abbrev asking : List (Event milli)
asking = enqueues ∷ enqueues ∷ enqueues ∷ cancels 1 ∷ []

-- Two wait, the third of them at place 2; a second later the first is served.
asking_queue : (run milli (new_scheduler milli small) asking).waiters ≡ 0 ∷ 2 ∷ []
unfolding run step new_scheduler enqueue_upstream cancel remove
asking_queue = refl

asking_position : ((run milli (new_scheduler milli small) asking).store 2).position ≡ 2
unfolding run step new_scheduler enqueue_upstream cancel remove publish_from publish_one
asking_position = refl

run-Inv_example : Inv milli (run milli (new_scheduler milli small) asking)
run-Inv_example = run-Inv milli small asking

run-order_example :
    Sublist
      (run milli (new_scheduler milli small) asking).waiters
      ((new_scheduler milli small).waiters ++ entered milli (new_scheduler milli small) asking)
run-order_example = run-order milli (new_scheduler milli small) asking

Grants-spaced_example :
    5 + interval milli (effective_rps milli (run milli (new_scheduler milli small) asking))
    ≤ 1_000_000_005
unfolding run step new_scheduler enqueue_upstream cancel remove publish_from publish_one grant_ready
    effective_max effective_rps release_upstream jitter ◌+ℤ◌ ◌-ℤ◌
Grants-spaced_example =
    Grants-spaced milli (run milli (new_scheduler milli small) asking) 5 0 (releases false ∷ [])
      1_000_000_005 0 (run-Inv milli small asking) (λ e. omega (arith, ap length e))
      (λ e. omega (arith, ap length e))
