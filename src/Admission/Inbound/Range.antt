-- ===== src/Admission/Inbound/Range.antt =====
-- internal/admission/inbound_rate.go: the bounds of the advertised rate.
use aquifer.Base.{
  ℕ, ◌≡◌, Bool, true, false, not, ◌&&◌, List, [], ◌∷◌, if◌then◌else◌, arith, both_branches,
  by_branch, inl, inr,
}
use aquifer.Base.Float.{FloatArith, FloatLaws, F, nan, num, flit, fmul, fle, fmax, fmin}
use aquifer.Admission.Inbound.Defs.{
  InboundRate, Reading, Signals, Adjustment, is_healthy, signals_of, observe, age, may_cut, cut,
  grow, adjust, tick,
}

-- Facts of IEEE 754: a rate of at least the floor, times a factor of the code that is above 0, is a
-- number; times 0.7 it is not more, and times 1.05 or 1.5 it is not less.
pub record GrowthLaws (a : FloatArith) (low : a.Num) : Type 0 where
  pub order : FloatLaws a
  pub cut_down :
      (x : a.Num)
      → a.leb_num low x ≡ true
      → (y : a.Num) × (a.mul x (a.lit 7 1) ≡ num y) × (a.leb_num y x ≡ true)
  pub careful :
      (x : a.Num)
      → a.leb_num low x ≡ true
      → (y : a.Num) × (a.mul x (a.lit 105 2) ≡ num y) × (a.leb_num x y ≡ true)
  pub fast :
      (x : a.Num)
      → a.leb_num low x ≡ true
      → (y : a.Num) × (a.mul x (a.lit 15 1) ≡ num y) × (a.leb_num x y ≡ true)

module _ (a : FloatArith) (low high : a.Num) (laws : GrowthLaws a low)
    (ordered : a.leb_num low high ≡ true) where
  abbrev pub Between : F a → Type 0
  Between nan = true ≡ false
  Between (num x) = (a.leb_num low x ≡ true) × (a.leb_num x high ≡ true)

  -- The rate lies between the controller's floor and its ceiling.
  pub record InRange (c : InboundRate a) : Type 0 where
    pub at_floor : c.floor ≡ num low
    pub at_ceiling : c.ceiling ≡ num high
    pub between : Between c.inbound_rate

  le_refl : (x : a.Num) → a.leb_num x x ≡ true
  le_refl x = elim (laws.order.le_total x x) [ inl h ↦ h | inr h ↦ h ]

  le_of_not : (x y : a.Num) → a.leb_num x y ≡ false → a.leb_num y x ≡ true
  le_of_not x y h = elim (laws.order.le_total x y) [
    | inl k ↦ absurd (ground (arith, h, k))
    | inr k ↦ k
  ]

  cut-Between : (x : F a) → Between x → Between (fmax a (fmul a x (flit a 7 1)) (num low))
  cut-Between nan h = absurd (ground (arith, h))
  cut-Between (num x) h =
      let (y, e, le) = laws.cut_down x h.0 in
      rw e (
        by_branch Between (a.leb_num y low) (λ k. (le_refl low, ordered))
          (λ k. (le_of_not y low k, laws.order.le_transitive y x high le h.1)))

  grown :
      (x y : a.Num) → Between (num x) → a.leb_num x y ≡ true → Between (fmin a (num y) (num high))
  grown x y h le =
      by_branch Between (a.leb_num y high) (λ k. (laws.order.le_transitive low x y h.0 le, k))
        (λ k. (ordered, le_refl high))

  grow-Between :
      (x : F a) (is_careful : Bool)
      → Between x
      → Between (fmin a (fmul a x (if is_careful then flit a 105 2 else flit a 15 1)) (num high))
  grow-Between nan b h = absurd (ground (arith, h))
  grow-Between (num x) true h = let (y, e, le) = laws.careful x h.0 in rw e (grown x y h le)
  grow-Between (num x) false h = let (y, e, le) = laws.fast x h.0 in rw e (grown x y h le)

  cut-InRange : (c : InboundRate a) → InRange c → InRange (cut a c)
  cut-InRange c r = record {
    at_floor = r.at_floor;
    at_ceiling = r.at_ceiling;
    between = rw r.at_floor (cut-Between c.inbound_rate r.between);
  }

  grow-InRange : (c : InboundRate a) → InRange c → InRange (grow a c)
  grow-InRange c r = record {
    at_floor = r.at_floor;
    at_ceiling = r.at_ceiling;
    between =
        rw r.at_ceiling (grow-Between c.inbound_rate (fle a c.threshold c.inbound_rate) r.between);
  }

  record Ends (res : InboundRate a × Adjustment) : Type 0 where
    ends : InRange res.0

  end_at : (c : InboundRate a) (what : Adjustment) → InRange c → Ends (c, what)
  end_at c what r = record { ends = r }

  adjust-Ends : (s : Signals) (c : InboundRate a) → InRange c → Ends (adjust a s c)
  unfolding adjust
  adjust-Ends s c r =
      both_branches Ends (not (is_healthy s) && may_cut a c) (end_at (cut a c) _ (cut-InRange c r))
        (both_branches Ends (not (is_healthy s)) (end_at c _ r) (
          both_branches Ends s.backlog_growing (end_at c _ r) (
            both_branches Ends s.overshoot (end_at c _ r)
              (both_branches Ends s.used (end_at (grow a c) _ (grow-InRange c r)) (end_at c _ r)))))

  observe-InRange :
      (limit : ℕ) (r : Reading) (c : InboundRate a) → InRange c → InRange (observe a limit r c)
  unfolding observe age
  observe-InRange limit r c h = record {
    at_floor = h.at_floor;
    at_ceiling = h.at_ceiling;
    between = h.between;
  }

  unfoldable pub ticks : ℕ → List Reading → InboundRate a → InboundRate a
  unfolding tick
  ticks limit [] c = c
  ticks limit (r ∷ rs) c = ticks limit rs (tick a limit r c).0

  -- Whatever the readings, the advertised rate stays between the controller's floor and its ceiling.
  pub ticks-InRange :
      (limit : ℕ) (rs : List Reading) (c : InboundRate a) → InRange c → InRange (ticks limit rs c)
  unfolding ticks tick
  ticks-InRange limit [] c h = h
  ticks-InRange limit (r ∷ rs) c h =
      ticks-InRange limit rs _
        (adjust-Ends (signals_of a limit r c) (observe a limit r c)
          (observe-InRange limit r c h)).ends
