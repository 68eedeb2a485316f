-- ===== src/Dispatch/Worker/Backlog.antt =====
-- internal/dispatch/url_worker.go: the backlog of a target stays within its budget.
use Prim.Native.String.{String}
use native.Mathlib.Nat.{mul-le-mul}
use text.Mathlib.Text.{◌==◌ as str_eq}
use aquifer.Base.{
  ℕ, ◌+◌, ◌*◌, ◌≤◌, ◌<◌, ◌≡◌, refl, true, List, [], ◌∷◌, max, arith, length, inl, inr, by_branch,
  both_branches,
}
use aquifer.Base.Float.{FloatArith, F}
use aquifer.Admission.Fair.Bounds.{FairLaws, fair_admits_within}
use aquifer.Dispatch.Worker.Defs.{
  Worker, moved_floor, set_max_backlog, pending, busy_queues, pending_of, reserve_on, queue_key,
  Reserved, live_floor, queue_pending, active_queues, take_place, decision, reserve, release_on,
  release,
}

pub pending-reserve_on :
    (key : String) (qs : List (String × ℕ)) → pending (reserve_on key qs) ≡ pending qs + 1
unfolding pending reserve_on
pending-reserve_on key [] = refl
pending-reserve_on key ((k, n) ∷ qs) =
    both_branches (λ (r : List (String × ℕ)). pending r ≡ n + pending qs + 1) (str_eq k key)
      (omega arith) (omega (arith, pending-reserve_on key qs))

pub pending-release_on :
    (key : String) (qs : List (String × ℕ))
    → 0 < pending_of key qs
    → pending (release_on key qs) + 1 ≡ pending qs
unfolding pending release_on pending_of
pending-release_on key [] h = absurd (omega arith)
pending-release_on key ((k, n) ∷ qs) h = ground (arith, pending-release_on key qs)

pending_of-le : (key : String) (qs : List (String × ℕ)) → pending_of key qs ≤ pending qs
unfolding pending pending_of
pending_of-le key [] = omega arith
pending_of-le key ((k, n) ∷ qs) = ground (arith, pending_of-le key qs)

busy_queues-le : (qs : List (String × ℕ)) → busy_queues qs ≤ length qs
unfolding busy_queues
busy_queues-le [] = omega arith
busy_queues-le ((k, n) ∷ qs) = ground (arith, busy_queues-le qs)

-- The worker's counter is the backlog of its queues, and that is within five quarters of the budget or
-- of the floor.
pub record IsBounded (w : Worker) : Type 0 where
  pub has_budget : 0 < w.max_backlog
  pub summed : w.backlog ≡ pending w.queues
  pub bounded : 4 * w.backlog ≤ 5 * max w.max_backlog w.shrink_floor

-- The numbers of the worker are far from the bound up to which the floats are exact.
pub record IsSmall (bound : ℕ) (w : Worker) : Type 0 where
  pub small_budget : max w.max_backlog w.shrink_floor < bound
  pub small_work : (pending w.queues + 1) * (length w.queues + 1) < bound

pub set_max_backlog-IsBounded :
    (v : ℕ) (w : Worker) → 0 < v → IsBounded w → IsBounded (set_max_backlog v w)
unfolding set_max_backlog moved_floor
set_max_backlog-IsBounded v w h b = record {
  has_budget = h;
  summed = b.summed;
  bounded = ground (arith, b.bounded);
}

pub release-IsBounded :
    (key : String) (w : Worker)
    → 0 < pending_of key w.queues
    → IsBounded w
    → IsBounded (release key w)
unfolding release
release-IsBounded key w h b = record {
  has_budget = b.has_budget;
  summed = omega (arith, b.summed, pending-release_on key w.queues h);
  bounded = ground (arith, b.bounded);
}

pub live_floor-le : (w : Worker) → live_floor w ≤ w.shrink_floor
unfolding live_floor
live_floor-le w = ground arith

-- Dropping a floor that is not needed keeps the bound.
live_floor-IsBounded :
    (w : Worker) → IsBounded w → IsBounded (record w { shrink_floor = live_floor w })
unfolding live_floor
live_floor-IsBounded w b = record {
  has_budget = b.has_budget;
  summed = b.summed;
  bounded = ground (arith, b.bounded, b.summed);
}

queue_pending-le : (key : String) (w : Worker) → queue_pending key w ≤ pending w.queues
unfolding queue_pending
queue_pending-le key w = ground (arith, pending_of-le key w.queues)

active_queues-le : (key : String) (w : Worker) → active_queues key w ≤ length w.queues + 1
unfolding active_queues
active_queues-le key w = ground (arith, busy_queues-le w.queues)

pub share_small :
    (bound : ℕ) (key : String) (w : Worker)
    → IsSmall bound w
    → (queue_pending key w + 1) * active_queues key w < bound
share_small bound key w s =
    let q : queue_pending key w + 1 ≤ pending w.queues + 1 =
      omega (arith, queue_pending-le key w) in
    omega (arith, mul-le-mul q (active_queues-le key w), s.small_work)

pub total_small : (bound : ℕ) (w : Worker) → IsSmall bound w → pending w.queues + 1 < bound
total_small bound w s =
    let one : 1 ≤ length w.queues + 1 = omega arith in
    let same : pending w.queues + 1 ≤ pending w.queues + 1 = omega arith in
    omega (arith, mul-le-mul same one, s.small_work)

take_place-IsBounded :
    (key : String) (w : Worker)
    → IsBounded w
    → 4 * (pending w.queues + 1) ≤ 5 * max w.max_backlog w.shrink_floor
    → IsBounded (take_place key w).0
unfolding take_place
take_place-IsBounded key w b h = record {
  has_budget = b.has_budget;
  summed = omega (arith, b.summed, pending-reserve_on key w.queues);
  bounded = omega (arith, b.summed, h);
}

module _ (a : FloatArith) (bound : ℕ) (laws : FairLaws a bound) (below_one : F a) where
  admitted_fits :
      (key : String) (draw : F a) (w : Worker)
      → IsSmall bound w
      → IsBounded w
      → (decision a below_one key draw w).fair_allowed ≡ true
      → 4 * (pending w.queues + 1) ≤ 5 * max w.max_backlog (live_floor w)
  unfolding decision
  admitted_fits key draw w s b e =
      let budget : max w.max_backlog (live_floor w) < bound =
        omega (arith, s.small_budget, live_floor-le w) in
      elim (fair_admits_within a bound laws below_one (queue_pending key w) (pending w.queues)
        (active_queues key w) w.max_backlog (live_floor w) draw (total_small bound w s) budget
        (share_small bound key w s) b.has_budget e) [ inl within ↦ omega arith | inr past ↦ past.2 ]

  -- Admission keeps the bound; only a caller that does not ask for it may go past.
  pub reserve-IsBounded :
      (tenant : String) (draw : F a) (w : Worker)
      → IsSmall bound w
      → IsBounded w
      → IsBounded (reserve a below_one tenant draw true w).0
  unfolding reserve
  reserve-IsBounded tenant draw w s b =
      both_branches (λ (r : Worker × Reserved). IsBounded r.0) w.is_stopped b
        (by_branch (λ (r : Worker × Reserved). IsBounded r.0)
          ((decision a below_one (queue_key tenant w) draw w).fair_allowed)
          (λ e.
            take_place-IsBounded (queue_key tenant w) _ (live_floor-IsBounded w b)
              (admitted_fits (queue_key tenant w) draw w s b e))
          (λ e. live_floor-IsBounded w b))
