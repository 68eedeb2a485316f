-- ===== src/Admission/Fair/Defs.antt =====
-- internal/admission/fair.go. A budget of 0 or less is none and is 0 here; a draw is a float in
-- [0, 1) that comes from outside.
use aquifer.Base.{ℕ, ◌+◌, Bool, true, false, ◌&&◌, ltb, ◌==◌, if◌then◌else◌, max}
use aquifer.Base.Float.{FloatArith, F, flit, fint, fsub, fmul, fdiv, fle, flt, fmax, fmin}
use aquifer.Admission.Controller.Defs.{Reason, no_reason, upstream_queue, queue_fair_share}

module _ (a : FloatArith) where
  pub record QueueSnapshot : Type 0 where
    pub active_queues : ℕ
    pub upstream_backlog : ℕ
    pub queue_backlog : ℕ
    pub max_backlog : ℕ
    pub admission_pressure : F a
    pub rejection_probability : F a

  pub record FairDecision : Type 0 where
    pub fair_allowed : Bool
    pub fair_reason : Reason
    pub fair_snapshot : QueueSnapshot

  unfoldable pub clamp : F a → F a → F a → F a
  clamp value low high = fmax a low (fmin a value high)

  abbrev pub snapshot_of : ℕ → ℕ → ℕ → ℕ → QueueSnapshot
  snapshot_of queue total active budget = record {
    active_queues = active;
    upstream_backlog = total;
    queue_backlog = queue;
    max_backlog = budget;
    admission_pressure = flit a 0 0;
    rejection_probability = flit a 0 0;
  }

  abbrev pub admit : QueueSnapshot → FairDecision
  admit s = record { fair_allowed = true; fair_reason = no_reason; fair_snapshot = s }

  abbrev pub turn_away : Reason → QueueSnapshot → FairDecision
  turn_away why s = record { fair_allowed = false; fair_reason = why; fair_snapshot = s }

  abbrev pub fair_share : ℕ → ℕ → F a
  fair_share budget active = fdiv a (fint a budget) (fint a active)

  -- The branch of a backlog past the budget; `queue` and `total` count the request.
  unfoldable pub past_budget : ℕ → ℕ → ℕ → ℕ → ℕ → FairDecision
  past_budget queue total active budget floor =
      let s = record (snapshot_of queue total active budget) { admission_pressure = flit a 1 0 } in
      if ltb 1 active
        && fle a (fint a queue) (fair_share budget active)
        && fle a (fint a total) (fmul a (flit a 125 2) (fint a (max budget floor)))
      then admit s
      else turn_away upstream_queue (record s { rejection_probability = flit a 1 0 })

  abbrev pub pressure_at : ℕ → ℕ → F a
  pressure_at total budget =
      let start = fmul a (flit a 7 1) (fint a budget) in
      clamp (fdiv a (fsub a (fint a total) start) (fsub a (fint a budget) start)) (flit a 0 0)
        (flit a 1 0)

  abbrev pub excess_at : ℕ → ℕ → ℕ → F a
  excess_at queue active budget =
      let share = fair_share budget active in
      clamp (fdiv a (fsub a (fint a queue) share) share) (flit a 0 0) (flit a 1 0)

  -- The branch of a backlog within the budget, with several active queues. `below_one` is
  -- `math.Nextafter(1, 0)`.
  unfoldable pub within_budget : F a → ℕ → ℕ → ℕ → ℕ → F a → FairDecision
  within_budget below_one queue total active budget draw =
      let pressure = pressure_at total budget in
      let probability = fmul a pressure (excess_at queue active budget) in
      let s = record (snapshot_of queue total active budget) {
        admission_pressure = pressure;
        rejection_probability = probability;
      } in
      if flt a (flit a 0 0) probability && flt a (clamp draw (flit a 0 0) below_one) probability
      then turn_away queue_fair_share s
      else admit s

  -- The decision for a request that makes the queue's backlog `queue` and the target's `total`.
  unfoldable pub decide : F a → ℕ → ℕ → ℕ → ℕ → ℕ → F a → FairDecision
  unfolding past_budget within_budget
  decide below_one queue total active budget floor draw =
      if budget == 0
      then admit (snapshot_of queue total active budget)
      else if ltb budget total
      then past_budget queue total active budget floor
      else if active == 1
      then admit (snapshot_of queue total active budget)
      else within_budget below_one queue total active budget draw

  unfoldable pub decide_fair_with_floor : F a → ℕ → ℕ → ℕ → ℕ → ℕ → F a → FairDecision
  unfolding decide
  decide_fair_with_floor below_one queue_pending total_pending active budget floor draw =
      decide below_one (queue_pending + 1) (total_pending + 1) (max active 1) budget floor draw

  unfoldable pub decide_fair : F a → ℕ → ℕ → ℕ → ℕ → F a → FairDecision
  unfolding decide_fair_with_floor
  decide_fair below_one queue_pending total_pending active budget draw =
      decide_fair_with_floor below_one queue_pending total_pending active budget 0 draw
