-- ===== src/Dispatch/Queue/Invariant.antt =====
-- internal/dispatch/account_queue.go: what holds of a queue at every point of its run.
use aquifer.Base.{
  ℕ, zero, suc, ◌+◌, ◌≤◌, ◌≡◌, refl, true, not, Option, List, [], ◌∷◌, ◌++◌, ltb, arith,
  both_branches, by_branch, length,
}
use aquifer.Base.Float.{FloatArith, Float, interval}
use aquifer.Jobs.Defs.{Job, queue_expired}
use aquifer.Dispatch.SharedPace.Defs.{SharedPace, reserve}
use aquifer.Dispatch.Execute.Effects.{Effect, Outside}
use aquifer.Dispatch.Queue.Defs.{Ledger, dead_sweep_is_due}
use aquifer.Dispatch.Queue.Loop.{
  Queue, Settings, Reading, Readings, Output, Stop, Turn, stops, goes_on, turn, dispatch,
  drop_expired, drop_waiting, drop_dead, send_head, pass, too_soon, take_head, no_member,
}
use aquifer.Dispatch.Queue.Deadlines.{Tracks, drop_expired_jobs-Tracks}
use aquifer.Dispatch.Queue.Counts.{
  Balanced, rebalance, drop_expired_jobs-Balanced, drop_expired_waiting-Balanced,
  fail_dead_target-Balanced, fail_dead_target-All,
}

-- The jobs of a queue, wherever they are.
abbrev pub held_jobs : {N : Type 0} → Queue N → ℕ
held_jobs q = length q.queue + (length q.waiting + (length q.flying + length q.cmds))

-- `total` jobs were counted so far.
pub record Inv {N : Type 0} (configured : ℕ) (total : ℕ) (q : Queue N) : Type 0 where
  pub balanced : Balanced (held_jobs q) total q.books
  pub flights : q.in_flight ≡ length q.flying
  pub tracked : Tracks q.next_deadline q.queue
  pub max_ok : q.max_conc ≤ configured
  pub in_flight_ok : q.in_flight ≤ configured

module _ (a : FloatArith) (o : Outside) (s : Settings a.Num) where
  abbrev pub Good : ℕ → Queue a.Num → Type 0
  Good t q = Inv s.configured_max_conc t q

  pub drop_expired-Good :
      (now t : ℕ) (q : Queue a.Num) → Good t q → Good t (drop_expired a o s now q).0
  unfolding drop_expired
  drop_expired-Good now t q g = record {
    balanced = drop_expired_jobs-Balanced o now q.queue q.next_deadline q.books _ t g.balanced;
    flights = g.flights;
    tracked = drop_expired_jobs-Tracks o now q.queue q.next_deadline q.books g.tracked;
    max_ok = g.max_ok;
    in_flight_ok = g.in_flight_ok;
  }

  swapped : (x y m t : ℕ) (l : Ledger) → Balanced (x + (y + m)) t l → Balanced (y + (x + m)) t l
  swapped x y m t l b = rebalance _ _ t l (omega arith) b

  drop_waiting-Good : (now t : ℕ) (q : Queue a.Num) → Good t q → Good t (drop_waiting a o s now q).0
  unfolding drop_waiting
  drop_waiting-Good now t q g = record {
    balanced =
        swapped _ _ _ t _ (
          drop_expired_waiting-Balanced o now q.waiting q.books _ t (swapped _ _ _ t _ g.balanced));
    flights = g.flights;
    tracked = g.tracked;
    max_ok = g.max_ok;
    in_flight_ok = g.in_flight_ok;
  }

  drop_dead-Good : (now t : ℕ) (q : Queue a.Num) → Good t q → Good t (drop_dead a o s now q).0
  unfolding drop_dead
  drop_dead-Good now t q g =
      both_branches (λ (r : Queue a.Num × List Effect). Good t r.0)
        (dead_sweep_is_due o s.dead_after now q.last_dead_sweep q.books.health)
        (record {
          balanced =
              fail_dead_target-Balanced o s.dead_after now q.queue q.waiting q.books _ t g.balanced;
          flights = g.flights;
          tracked = fail_dead_target-All o _ s.dead_after now q.queue q.waiting q.books g.tracked;
          max_ok = g.max_ok;
          in_flight_ok = g.in_flight_ok;
        })
        g

  abbrev TurnGood : ℕ → Turn a.Num → Type 0
  TurnGood t (stops q why) = Good t q
  TurnGood t (goes_on q out) = Good t q

  taken-Good :
      (r : Reading a.Num) (t : ℕ) (j : Job) (js : List Job) (q : Queue a.Num)
      → q.queue ≡ j ∷ js
      → ltb q.in_flight q.max_conc ≡ true
      → Good t q
      → Good t (take_head a o s r j js q)
  taken-Good r t j js q e free g = record {
    balanced = rebalance _ _ t q.books (rw e (omega arith)) g.balanced;
    flights = omega (arith, g.flights);
    tracked = (rw e at g.tracked).1;
    max_ok = g.max_ok;
    in_flight_ok = ground (arith, free, g.max_ok);
  }

  pub pace-Good :
      (t : ℕ) (q : Queue a.Num) (p : Option SharedPace) → Good t q → Good t (record q { pace = p })
  pace-Good t q p g = record {
    balanced = g.balanced;
    flights = g.flights;
    tracked = g.tracked;
    max_ok = g.max_ok;
    in_flight_ok = g.in_flight_ok;
  }

  send_head-Good :
      (r : Reading a.Num) (t : ℕ) (j : Job) (js : List Job) (q : Queue a.Num)
      → q.queue ≡ j ∷ js
      → ltb q.in_flight q.max_conc ≡ true
      → Good t q
      → TurnGood t (send_head a o s r j js q)
  unfolding send_head
  send_head-Good r t j js q e free g =
      let (p, wait) = reserve a r.target_rate s.me r.now q.pace in
      let g' = pace-Good t q p g in
      both_branches (TurnGood t) (too_soon r.now q.last_request (interval a q.rate)) g (
        both_branches (TurnGood t) (ltb 0 wait) g' (
          both_branches (TurnGood t) (no_member r.picked) g'
            (taken-Good r t j js (record q { pace = p }) e free g')))

  turn-Good :
      (r : Reading a.Num) (t : ℕ) (q : Queue a.Num) (js : List Job)
      → q.queue ≡ js
      → Good t q
      → TurnGood t (turn a o s r q js)
  unfolding turn
  turn-Good r t q [] e g = g
  turn-Good r t q (j ∷ js) e g =
      by_branch (TurnGood t) (not (ltb q.in_flight q.max_conc)) (λ k. g)
        (λ free.
          both_branches (TurnGood t) (queue_expired j r.now) (drop_expired-Good r.now t q g)
            (send_head-Good r t j js q e (ground (arith, free)) g))

  abbrev GoodEnd : ℕ → Queue a.Num × (List Output × Stop) → Type 0
  GoodEnd t res = Good t res.0

  after_turn-Good :
      (fuel : ℕ) (r : ℕ → Reading a.Num) (t : ℕ) (v : Turn a.Num)
      → TurnGood t v
      → ((q' : Queue a.Num) → Good t q' → Good t (dispatch a o s fuel r q').0)
      → GoodEnd t (elim v [
        | stops q' why ↦ (q', ([], why))
        | goes_on q' out ↦
            let rest = dispatch a o s fuel r q' in (rest.0, (out ++ (rest.1).0, (rest.1).1))
      ])
  after_turn-Good fuel r t (stops q' why) v ih = v
  after_turn-Good fuel r t (goes_on q' out) v ih = ih q' v

  dispatch-Good :
      (fuel : ℕ) (r : ℕ → Reading a.Num) (t : ℕ) (q : Queue a.Num)
      → Good t q
      → Good t (dispatch a o s fuel r q).0
  unfolding dispatch
  dispatch-Good zero r t q g = g
  dispatch-Good (suc fuel) r t q g =
      after_turn-Good fuel r t (turn a o s (r fuel) q q.queue)
        (turn-Good (r fuel) t q q.queue refl g) (λ q'. dispatch-Good fuel r t q')

  rate-Good :
      (t : ℕ) (q : Queue a.Num) (x : Float a.Num) → Good t q → Good t (record q { rate = x })
  rate-Good t q x g = record {
    balanced = g.balanced;
    flights = g.flights;
    tracked = g.tracked;
    max_ok = g.max_ok;
    in_flight_ok = g.in_flight_ok;
  }

  pub pass-Good :
      (r : Readings a.Num) (t : ℕ) (q : Queue a.Num) → Good t q → Good t (pass a o s r q).0
  unfolding pass
  pass-Good r t q g =
      let q₁ = (drop_expired a o s r.swept_at q).0 in
      let q₂ = (drop_waiting a o s r.swept_at q₁).0 in
      let q₃ = (drop_dead a o s r.swept_at q₂).0 in
      let g₁ = drop_expired-Good r.swept_at t q g in
      let g₂ = drop_waiting-Good r.swept_at t q₁ g₁ in
      let g₃ = drop_dead-Good r.swept_at t q₂ g₂ in
      dispatch-Good _ r.turns t _ (rate-Good t q₃ _ g₃)
