-- ===== src/Admission/Inbound/Cuts.antt =====
-- internal/admission/inbound_rate.go: how often the rate is cut.
use aquifer.Base.{
  ℕ, ◌+◌, ◌-◌, ◌*◌, ◌≤◌, ◌≡◌, refl, true, false, not, ◌&&◌, List, [], ◌∷◌, arith, both_branches,
  by_branch, length,
}
use aquifer.Base.Float.{FloatArith}
use aquifer.Admission.Inbound.Defs.{
  observe, InboundRate, Reading, Signals, Adjustment, cut_latency, cut_disk, cut_backlog,
  hold_last_cut, is_healthy, cut_reason, signals_of, age, may_cut, cut, grow, adjust, tick,
}

abbrev pub is_cut : Adjustment → ℕ
is_cut cut_latency = 1
is_cut cut_disk = 1
is_cut cut_backlog = 1
is_cut _ = 0

module _ (a : FloatArith) (limit : ℕ) where
  unfoldable pub cuts : List Reading → InboundRate a → ℕ
  unfolding tick
  cuts [] c = 0
  cuts (r ∷ rs) c = let (c', what) = tick a limit r c in is_cut what + cuts rs c'

  -- A tick cuts only when the cooldown is over, and then starts it anew.
  record Spaced (cooldown : ℕ) (res : InboundRate a × Adjustment) : Type 0 where
    gap : 3 * is_cut res.1 + cooldown ≤ (res.0).cooldown + 1
    short : cooldown ≤ 3 → (res.0).cooldown ≤ 3

  kept_cooldown :
      (cooldown : ℕ) (c : InboundRate a) (what : Adjustment)
      → is_cut what ≡ 0
      → c.cooldown ≡ cooldown - 1
      → Spaced cooldown (c, what)
  kept_cooldown cooldown c what none_cut e = record {
    gap = omega (arith, none_cut, e);
    short = λ h. omega (arith, e);
  }

  cut_reason-cuts : (s : Signals) → is_cut (cut_reason s) ≡ 1
  cut_reason-cuts s =
      both_branches (λ (x : Adjustment). is_cut x ≡ 1) (not s.latency_healthy) refl
        (both_branches (λ (x : Adjustment). is_cut x ≡ 1) s.disk_behind refl refl)

  new_cooldown :
      (cooldown : ℕ) (c : InboundRate a) (what : Adjustment)
      → is_cut what ≡ 1
      → cooldown - 1 ≡ 0
      → c.cooldown ≡ 3
      → Spaced cooldown (c, what)
  new_cooldown cooldown c what one_cut over e = record {
    gap = omega (arith, one_cut, over, e);
    short = λ h. omega (arith, e);
  }

  adjust-Spaced :
      (s : Signals) (cooldown : ℕ) (c : InboundRate a)
      → c.cooldown ≡ cooldown - 1
      → Spaced cooldown (adjust a s c)
  unfolding adjust
  adjust-Spaced s cooldown c e =
      by_branch (Spaced cooldown) (not (is_healthy s) && may_cut a c)
        (λ h.
          new_cooldown cooldown (cut a c) (cut_reason s) (cut_reason-cuts s) (ground (arith, h, e))
            refl)
        (λ h.
          both_branches (Spaced cooldown) (not (is_healthy s)) (kept_cooldown cooldown c _ refl e) (
            both_branches (Spaced cooldown) s.backlog_growing (kept_cooldown cooldown c _ refl e) (
              both_branches (Spaced cooldown) s.overshoot (kept_cooldown cooldown c _ refl e) (
                both_branches (Spaced cooldown) s.used (kept_cooldown cooldown (grow a c) _ refl e)
                  (kept_cooldown cooldown c _ refl e)))))

  tick-Spaced : (r : Reading) (c : InboundRate a) → Spaced c.cooldown (tick a limit r c)
  unfolding tick observe age
  tick-Spaced r c = adjust-Spaced (signals_of a limit r c) c.cooldown (observe a limit r c) refl

  -- However the signals come, the rate is cut at most once in three ticks: `n` ticks make at most
  -- `(n + 3) / 3` cuts, and fewer while the cooldown of an earlier cut lasts.
  pub cuts_spaced :
      (rs : List Reading) (c : InboundRate a)
      → c.cooldown ≤ 3
      → 3 * cuts rs c + c.cooldown ≤ length rs + 3
  unfolding cuts
  cuts_spaced [] c h = omega arith
  cuts_spaced (r ∷ rs) c h =
      let now = tick-Spaced r c in
      omega (arith, now.gap, cuts_spaced rs (tick a limit r c).0 (now.short h))

  -- Along the run every tick is unhealthy.
  abbrev pub AllUnhealthy : List Reading → InboundRate a → Type 0
  AllUnhealthy [] c = Unit
  AllUnhealthy (r ∷ rs) c =
      (is_healthy (signals_of a limit r c) ≡ false) × AllUnhealthy rs (tick a limit r c).0

  record Aged (episode : ℕ) (res : InboundRate a × Adjustment) : Type 0 where
    aged : 10 * is_cut res.1 + (res.0).episode ≤ episode + 1
    still : (res.0).congested ≡ true

  cut-Aged :
      (episode : ℕ) (c : InboundRate a) (what : Adjustment)
      → is_cut what ≡ 1
      → 10 ≤ episode + 1
      → c.episode ≡ 0
      → c.congested ≡ true
      → Aged episode (c, what)
  cut-Aged episode c what one_cut old e h = record {
    aged = omega (arith, one_cut, old, e);
    still = h;
  }

  kept-Aged :
      (episode : ℕ) (c : InboundRate a) (what : Adjustment)
      → is_cut what ≡ 0
      → c.episode ≡ episode + 1
      → c.congested ≡ true
      → Aged episode (c, what)
  kept-Aged episode c what none_cut e h = record { aged = omega (arith, none_cut, e); still = h }

  adjust-Aged :
      (s : Signals) (episode : ℕ) (c : InboundRate a)
      → is_healthy s ≡ false
      → c.congested ≡ true
      → c.episode ≡ episode + 1
      → Aged episode (adjust a s c)
  unfolding adjust
  adjust-Aged s episode c bad h e =
      by_branch (Aged episode) (not (is_healthy s) && may_cut a c)
        (λ k.
          cut-Aged episode (cut a c) (cut_reason s) (cut_reason-cuts s) (ground (arith, h, k, e))
            refl refl)
        (λ k.
          by_branch (Aged episode) (not (is_healthy s))
            (λ unhealthy. kept-Aged episode c hold_last_cut refl e h)
            (λ healthy. absurd (ground (arith, bad, healthy))))

  tick-Aged :
      (r : Reading) (c : InboundRate a)
      → is_healthy (signals_of a limit r c) ≡ false
      → c.congested ≡ true
      → Aged c.episode (tick a limit r c)
  unfolding tick observe age
  tick-Aged r c bad h =
      adjust-Aged (signals_of a limit r c) c.episode (observe a limit r c) bad (rw (h, bad) refl)
        (rw (h, bad) refl)

  -- While an episode of congestion lasts, the rate is cut at most once in ten ticks: `n` unhealthy
  -- ticks make at most `(n + episode) / 10` cuts, by the age of the episode when they start.
  pub episode_cuts :
      (rs : List Reading) (c : InboundRate a)
      → c.congested ≡ true
      → AllUnhealthy rs c
      → 10 * cuts rs c ≤ length rs + c.episode
  unfolding cuts
  episode_cuts [] c h bad = omega arith
  episode_cuts (r ∷ rs) c h bad =
      let now = tick-Aged r c bad.0 h in
      omega (arith, now.aged, episode_cuts rs (tick a limit r c).0 now.still bad.1)
