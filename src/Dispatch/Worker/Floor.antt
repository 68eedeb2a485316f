-- ===== src/Dispatch/Worker/Floor.antt =====
-- internal/dispatch/url_worker.go: what a target that shrinks its budget does to the small queues.
use Prim.Native.String.{String}
use aquifer.Base.{ℕ, ◌+◌, ◌*◌, ◌≤◌, ◌<◌, ◌≡◌, refl, Bool, true, false, arith, if◌then◌else◌}
use aquifer.Base.Float.{FloatArith, F}
use aquifer.Admission.Fair.Bounds.{FairLaws, fair_share_admitted}
use aquifer.Dispatch.Worker.Defs.{
  Worker, moved_floor, set_max_backlog, pending, queue_pending, active_queues, queue_key,
  live_floor, decision, reserve, refused_by_share, taken, take_place,
}
use aquifer.Dispatch.Worker.Backlog.{IsSmall, share_small, total_small, live_floor-le}

floor_after_shrink :
    (v : ℕ) (w : Worker)
    → v < w.max_backlog
    → v < pending w.queues
    → w.backlog ≡ pending w.queues
    → live_floor (set_max_backlog v w) ≡ pending w.queues
unfolding live_floor set_max_backlog moved_floor
floor_after_shrink v w shrinks over summed = ground (arith, summed)

module _ (a : FloatArith) (bound : ℕ) (laws : FairLaws a bound) (below_one : F a) where
  reserve_ends :
      (tenant : String) (draw : F a) (w : Worker) (admitted : Bool)
      → w.is_stopped ≡ false
      → (decision a below_one (queue_key tenant w) draw w).fair_allowed ≡ admitted
      → (reserve a below_one tenant draw true w).1 ≡ (if admitted then taken else refused_by_share)
  unfolding reserve take_place
  reserve_ends tenant draw w true running e = rw (running, e) refl
  reserve_ends tenant draw w false running e = rw (running, e) refl

  -- After a target shrinks its budget below the backlog that it holds, a queue within its share of
  -- the new budget still gets a place, whatever the draw, as long as four jobs or more are held,
  -- several queues are active and the worker is not stopped.
  pub shrunk_budget_admits :
      (tenant : String) (draw : F a) (v : ℕ) (w : Worker)
      → v < w.max_backlog
      → v < pending w.queues
      → w.backlog ≡ pending w.queues
      → 4 ≤ pending w.queues
      → w.is_stopped ≡ false
      → IsSmall bound (set_max_backlog v w)
      → 1 < active_queues (queue_key tenant (set_max_backlog v w)) (set_max_backlog v w)
      → (queue_pending (queue_key tenant (set_max_backlog v w)) (set_max_backlog v w) + 1)
          * active_queues (queue_key tenant (set_max_backlog v w)) (set_max_backlog v w)
        ≤ v
      → (reserve a below_one tenant draw true (set_max_backlog v w)).1 ≡ taken
  unfolding decision set_max_backlog
  shrunk_budget_admits tenant draw v w shrinks over summed enough running small several share =
      let w' = set_max_backlog v w in
      let key = queue_key tenant w' in
      let floor = floor_after_shrink v w shrinks over summed in
      reserve_ends tenant draw w' true running (
        fair_share_admitted a bound laws below_one (queue_pending key w') (pending w'.queues)
          (active_queues key w') w'.max_backlog (live_floor w') draw (total_small bound w' small)
          (omega (arith, small.small_budget, live_floor-le w')) (share_small bound key w' small)
          several share (ground (arith, floor)))
