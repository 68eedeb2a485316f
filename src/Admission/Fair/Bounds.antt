-- ===== src/Admission/Fair/Bounds.antt =====
-- internal/admission/fair.go: who is admitted, in whole numbers.
use aquifer.Base.{
  ℕ, ◌+◌, ◌*◌, ◌≤◌, ◌<◌, ◌≡◌, ◌↔◌, refl, ◌⊎◌, inl, inr, true, false, arith, ltb, ◌==◌, max,
  Bool-cases,
}
use aquifer.Base.Float.{FloatArith, FloatLaws, num, nan, F, flit, fint, fsub, fmul, fdiv, fle, flt}
use aquifer.Admission.Fair.Defs.{
  FairDecision, clamp, fair_share, past_budget, within_budget, decide, decide_fair_with_floor,
  pressure_at,
}

-- Facts of IEEE 754 that the decision rests on: counts below `bound` and their shares and five
-- quarters compare as the exact numbers do, a constant and a count keep their order, a difference
-- of a smaller and a larger value is not above 0, nor is its quotient by a positive value, nor a
-- product with a zero. (Comparisons with NaN are false.)
pub record FairLaws (a : FloatArith) (bound : ℕ) : Type 0 where
  pub order : FloatLaws a
  pub zero_le_one : a.leb_num (a.lit 0 0) (a.lit 1 0) ≡ true
  pub count_pos : (n : ℕ) → 0 < n → flt a (flit a 0 0) (fint a n) ≡ true
  pub share_exact :
      (queue budget active : ℕ)
      → budget < bound
      → queue * active < bound
      → 0 < active
      → (fle a (fint a queue) (fair_share a budget active) ≡ true) ↔ (queue * active ≤ budget)
  pub ceiling_exact :
      (total held : ℕ)
      → total < bound
      → held < bound
      → (fle a (fint a total) (fmul a (flit a 125 2) (fint a held)) ≡ true) ↔ (4 * total ≤ 5 * held)
  pub sub_not_above : (x y : F a) → fle a x y ≡ true → flt a (flit a 0 0) (fsub a x y) ≡ false
  pub div_not_above :
      (x y : F a)
      → flt a (flit a 0 0) x ≡ false
      → flt a (flit a 0 0) y ≡ true
      → flt a (flit a 0 0) (fdiv a x y) ≡ false
  pub mul_zero :
      (x : F a) (z : a.Num)
      → a.leb_num z (a.lit 0 0) ≡ true
      → a.leb_num (a.lit 0 0) z ≡ true
      → flt a (flit a 0 0) (fmul a x (num z)) ≡ false

module _ (a : FloatArith) (bound : ℕ) (laws : FairLaws a bound) where
  -- A value that is not above 0 times a pressure, clamped, is not above 0.
  no_excess :
      (pressure v : F a)
      → flt a (flit a 0 0) v ≡ false
      → flt a (flit a 0 0) (fmul a pressure (clamp a v (flit a 0 0) (flit a 1 0))) ≡ false
  unfolding clamp
  no_excess nan v h = refl
  no_excess (num p) nan h = ground (arith, laws.order.lit_finite 0 0, laws.order.lit_finite 1 0)
  no_excess (num p) (num v) h =
      let o = a.lit 0 0 in
      let i = a.lit 1 0 in
      let below : a.leb_num v o ≡ true = ground arith in
      let small = laws.order.le_transitive v o i below laws.zero_le_one in
      let again = Le-refl o in
      rw small (elim (Bool-cases (a.leb_num o v)) [
        | inl le ↦ rw le (laws.mul_zero (num p) v below le)
        | inr gt ↦ rw gt (laws.mul_zero (num p) o again again)
      ])
    where
      Le-refl : (x : a.Num) → a.leb_num x x ≡ true
      Le-refl x = elim (laws.order.le_total x x) [ inl e ↦ e | inr e ↦ e ]

  share_pos : (n : ℕ) (s : F a) → 0 < n → fle a (fint a n) s ≡ true → flt a (flit a 0 0) s ≡ true
  share_pos n nan h e = cc
  share_pos n (num s) h e = elim (Bool-cases (a.leb_num s (a.lit 0 0))) [
    | inl le ↦
        let again = laws.order.le_transitive (a.of_int n) s (a.lit 0 0) e le in
        ground (arith, again, laws.count_pos n h)
    | inr gt ↦ rw gt
  ]

  -- A queue within its share has no excess, so the draw is not looked at.
  within_share_admits :
      (below_one : F a) (queue total active budget : ℕ) (draw : F a)
      → 0 < queue
      → fle a (fint a queue) (fair_share a budget active) ≡ true
      → (within_budget a below_one queue total active budget draw).fair_allowed ≡ true
  unfolding within_budget
  within_share_admits below_one queue total active budget draw h e =
      let share = fair_share a budget active in
      let v = fdiv a (fsub a (fint a queue) share) share in
      rw (
        no_excess (pressure_at a total budget) v (
          laws.div_not_above _ share (laws.sub_not_above (fint a queue) share e)
            (share_pos queue share h e)))

  past_iff :
      (queue total active budget floor : ℕ)
      → ((past_budget a queue total active budget floor).fair_allowed ≡ true) ↔ (
          (1 < active)
          × (fle a (fint a queue) (fair_share a budget active) ≡ true)
          × (fle a (fint a total) (fmul a (flit a 125 2) (fint a (max budget floor))) ≡ true))
  unfolding past_budget
  past_iff queue total active budget floor =
      (λ e. (ground arith, ground arith, ground arith), λ h. ground (arith, h.1))

  decide_past :
      (below_one : F a) (queue total active budget floor : ℕ) (draw : F a)
      → 0 < budget
      → budget < total
      → decide a below_one queue total active budget floor draw
        ≡ past_budget a queue total active budget floor
  unfolding decide
  decide_past below_one queue total active budget floor draw h k =
      let e : (budget == 0) ≡ false = ground arith in
      let l : ltb budget total ≡ true = ground arith in rw (e, l)

  decide_within :
      (below_one : F a) (queue total active budget floor : ℕ) (draw : F a)
      → 0 < budget
      → total ≤ budget
      → 1 < active
      → decide a below_one queue total active budget floor draw
        ≡ within_budget a below_one queue total active budget draw
  unfolding decide
  decide_within below_one queue total active budget floor draw h k m =
      let e : (budget == 0) ≡ false = ground arith in
      let l : ltb budget total ≡ false = ground arith in
      let o : (active == 1) ≡ false = ground arith in rw (e, l, o)

  module _ (below_one : F a) (queue_pending total_pending active budget floor : ℕ) (draw : F a)
      (small_total : total_pending + 1 < bound) (small_budget : max budget floor < bound)
      (small_share : (queue_pending + 1) * active < bound) where
    -- The decision.
    abbrev pub decided : FairDecision a
    decided =
        decide_fair_with_floor a below_one queue_pending total_pending active budget floor draw

    -- With a budget, a request that is admitted leaves the target's backlog within the budget, or
    -- comes from a queue that is within its share of the budget while several queues are active,
    -- and leaves the backlog within five quarters of the budget or of the floor.
    pub fair_admits_within :
        0 < budget
        → decided.fair_allowed ≡ true
        → (total_pending + 1 ≤ budget)
          ⊎ ((1 < active)
              × ((queue_pending + 1) * active ≤ budget)
              × (4 * (total_pending + 1) ≤ 5 * max budget floor))
    unfolding decide_fair_with_floor
    fair_admits_within h e = elim (Bool-cases (ltb budget (total_pending + 1))) [
      | inr within ↦ inl (ground arith)
      | inl past ↦
          let total = total_pending + 1 in
          let over : budget < total = ground arith in
          let d =
            decide_past below_one (queue_pending + 1) total (max active 1) budget floor draw h
              over in
          let (several, share, ceiling) =
            (past_iff (queue_pending + 1) total (max active 1) budget floor).0 (rw d at e) in
          let alone : max active 1 ≡ active = omega arith in
          inr (
            omega arith,
            (laws.share_exact (queue_pending + 1) budget active (omega arith) small_share
                  (omega arith)).0
                (rw alone at share),
            (laws.ceiling_exact total (max budget floor) small_total small_budget).0 ceiling,
          )
    ]

    -- A queue within its share of the budget is never refused, whatever the draw, as long as the
    -- backlog stays within the budget or, with several queues active, within five quarters of it
    -- or of the floor.
    pub fair_share_admitted :
        1 < active
        → (queue_pending + 1) * active ≤ budget
        → 4 * (total_pending + 1) ≤ 5 * max budget floor
        → decided.fair_allowed ≡ true
    unfolding decide_fair_with_floor
    fair_share_admitted h share ceiling =
        let total = total_pending + 1 in
        let queue = queue_pending + 1 in
        let alone : max active 1 ≡ active = omega arith in
        let has_budget : 0 < budget = grind arith in
        let fits =
          (laws.share_exact queue budget active (omega arith) small_share (omega arith)).1 share in
        rw alone (elim (Bool-cases (ltb budget total)) [
          | inl past ↦
              rw
                (decide_past below_one queue total active budget floor draw has_budget
                  (ground arith))
                ((past_iff queue total active budget floor).1 (
                  h,
                  fits,
                  (laws.ceiling_exact total (max budget floor) small_total small_budget).1 ceiling,
                ))
          | inr within ↦
              rw
                (decide_within below_one queue total active budget floor draw has_budget
                  (ground arith) h)
                (within_share_admits below_one queue total active budget draw (omega arith) fits)
        ])
