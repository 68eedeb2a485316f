-- ===== src/Dispatch/Queue/RateBounds.antt =====
-- internal/dispatch/account_queue.go: the bounds of a queue's pace.
use aquifer.Base.{
  ℕ, ◌≡◌, refl, Bool, true, false, Option, none, some, arith, both_branches, by_branch, inl, inr,
}
use aquifer.Base.Float.{FloatArith, FloatLaws, F, nan, num, flit, flt, fmax, fmin}
use aquifer.Dispatch.SharedPace.Defs.{min_rps}
use aquifer.Dispatch.Execute.Signals.{DoneMsg}
use aquifer.Dispatch.Queue.Rate.{next_rps, rps_after_failure, rps_after_answer, pool_rps, start_rps}
use aquifer.Dispatch.Queue.Loop.{too_soon}

-- What the code relies on of the float's arithmetic: halving a pace of at least MinRPS does not raise
-- it, and 1.05 times such a pace is not less.
pub record RateLaws (a : FloatArith) : Type 0 where
  pub order : FloatLaws a
  pub halved :
      (x : a.Num)
      → a.leb_num (a.lit 5 1) x ≡ true
      → (y : a.Num) × (a.div x (a.lit 2 0) ≡ num y) × (a.leb_num y x ≡ true)
  pub raised :
      (x : a.Num)
      → a.leb_num (a.lit 5 1) x ≡ true
      → (y : a.Num) × (a.mul x (a.lit 105 2) ≡ num y) × (a.leb_num x y ≡ true)

module _ (a : FloatArith) where
  -- Between MinRPS and `c`; NaN is not.
  abbrev pub InRange : a.Num → F a → Type 0
  InRange c nan = true ≡ false
  InRange c (num x) = (a.leb_num (a.lit 5 1) x ≡ true) × (a.leb_num x c ≡ true)

  abbrev pub IsNumber : F a → Type 0
  IsNumber nan = true ≡ false
  IsNumber (num x) = Unit

  abbrev pub NumberIfAny : Option (F a) → Type 0
  NumberIfAny none = Unit
  NumberIfAny (some x) = IsNumber x

module _ (a : FloatArith) (laws : RateLaws a) where
  abbrev least : a.Num
  least = a.lit 5 1

  le_refl : (x : a.Num) → a.leb_num x x ≡ true
  le_refl x = elim (laws.order.le_total x x) [ inl h ↦ h | inr h ↦ h ]

  le_of_not : (x y : a.Num) → a.leb_num x y ≡ false → a.leb_num y x ≡ true
  le_of_not x y h = elim (laws.order.le_total x y) [
    | inl k ↦ absurd (ground (arith, h, k))
    | inr k ↦ k
  ]

  floor_range :
      (c w : a.Num)
      → a.leb_num least c ≡ true
      → a.leb_num w c ≡ true
      → InRange a c (fmax a (num w) (min_rps a))
  floor_range c w hc h =
      by_branch (InRange a c) (a.leb_num w least) (λ k. (le_refl least, hc))
        (λ k. (le_of_not w least k, h))

  -- Floored, the smaller of two values of which one is at most `c`.
  min_range_left :
      (c y z : a.Num)
      → a.leb_num least c ≡ true
      → a.leb_num y c ≡ true
      → InRange a c (fmax a (fmin a (num y) (num z)) (min_rps a))
  min_range_left c y z hc h =
      by_branch (λ (x : F a). InRange a c (fmax a x (min_rps a))) (a.leb_num y z)
        (λ k. floor_range c y hc h)
        (λ k. floor_range c z hc (laws.order.le_transitive z y c (le_of_not y z k) h))

  min_range_right :
      (c z : a.Num)
      → a.leb_num least c ≡ true
      → InRange a c (fmax a (fmin a (num z) (num c)) (min_rps a))
  min_range_right c z hc =
      by_branch (λ (x : F a). InRange a c (fmax a x (min_rps a))) (a.leb_num z c)
        (λ k. floor_range c z hc k) (λ k. floor_range c c hc (le_refl c))

  failure_range :
      (c x : a.Num) (r : Option (F a))
      → a.leb_num least c ≡ true
      → InRange a c (num x)
      → NumberIfAny a r
      → InRange a c (rps_after_failure a (num x) r)
  failure_range c x none hc h n =
      let (y, e, le) = laws.halved x h.0 in
      rw e (floor_range c y hc (laws.order.le_transitive y x c le h.1))
  failure_range c x (some nan) hc h n = absurd (ground (arith, n))
  failure_range c x (some (num z)) hc h n =
      let (y, e, le) = laws.halved x h.0 in
      rw e (min_range_left c y z hc (laws.order.le_transitive y x c le h.1))

  answer_range :
      (c x : a.Num) (r : Option (F a))
      → a.leb_num least c ≡ true
      → InRange a c (num x)
      → NumberIfAny a r
      → InRange a c (rps_after_answer a (num c) (num x) r)
  answer_range c x none hc h n =
      let (y, e, le) = laws.raised x h.0 in
      both_branches (InRange a c) (flt a (num x) (num c))
        (rw e (
          by_branch (InRange a c) (a.leb_num y c)
            (λ k. (laws.order.le_transitive least x y h.0 le, k)) (λ k. (hc, le_refl c))))
        h
  answer_range c x (some nan) hc h n = absurd (ground (arith, n))
  answer_range c x (some (num z)) hc h n = min_range_right c z hc

  -- A pace between MinRPS and the configured one stays there at every message, failures and
  -- signals included, as long as a rate that the message carries is a number.
  pub next_rps-InRange :
      (c : a.Num) (rps : F a) (msg : DoneMsg a.Num)
      → a.leb_num least c ≡ true
      → InRange a c rps
      → NumberIfAny a msg.rps
      → InRange a c (next_rps a (num c) rps msg)
  unfolding next_rps
  next_rps-InRange c nan msg hc h n = absurd (ground (arith, h))
  next_rps-InRange c (num x) msg hc h n =
      both_branches (InRange a c) msg.has_failed (failure_range c x msg.rps hc h n)
        (answer_range c x msg.rps hc h n)

  pub pool_rps-InRange :
      (c : a.Num) (rps : F a) (cap : Option (F a))
      → a.leb_num least c ≡ true
      → InRange a c rps
      → NumberIfAny a cap
      → InRange a c (pool_rps a (num c) rps cap)
  unfolding pool_rps
  pool_rps-InRange c rps none hc h n = h
  pool_rps-InRange c rps (some nan) hc h n = h
  pool_rps-InRange c rps (some (num z)) hc h n =
      both_branches (InRange a c) (flt a (flit a 0 0) (num z)) (min_range_right c z hc) h

  pub start_rps-InRange :
      (c : a.Num) (slow : Bool) → a.leb_num least c ≡ true → InRange a c (start_rps a slow (num c))
  unfolding start_rps
  start_rps-InRange c slow hc = both_branches (InRange a c) slow (le_refl least, hc) (hc, le_refl c)

  pub nan_kept : (c : F a) (msg : DoneMsg a.Num) → msg.rps ≡ none → next_rps a c nan msg ≡ nan
  unfolding next_rps
  nan_kept c msg h =
      both_branches (λ (x : F a). x ≡ nan) msg.has_failed
        (rw (h, (laws.order.lit_finite 5 1).0) refl) (rw h refl)

  pub nan_follows :
      (c : a.Num) (x : F a) (msg : DoneMsg a.Num)
      → msg.has_failed ≡ false
      → msg.rps ≡ some nan
      → a.neg_inf c ≡ false
      → next_rps a (num c) x msg ≡ nan
  unfolding next_rps
  nan_follows c x msg ok h hc = rw (ok, h, hc, (laws.order.lit_finite 5 1).0) refl

  pub never_soon : (now : ℕ) (last : Option ℕ) → too_soon now last 0 ≡ false
  never_soon now none = refl
  never_soon now (some last) = ground arith

  pub nan_pool : (c : F a) → pool_rps a c nan none ≡ nan
  unfolding pool_rps
  nan_pool c = refl
