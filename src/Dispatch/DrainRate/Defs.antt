-- ===== src/Dispatch/DrainRate/Defs.antt =====
-- internal/dispatch/drain_rate.go. Times are nanoseconds; `served` never falls, and time does not
-- run back.
use aquifer.Base.{
  ℕ, ◌-◌, ◌/◌, ◌%◌, Bool, true, false, not, ◌&&◌, Option, none, some, ◌==◌, if◌then◌else◌,
}
use aquifer.Base.Float.{FloatArith, F, flit, fint, fadd, fmul, fdiv, fle, flt}

pub record DrainTracker (a : FloatArith) : Type 0 where
  pub last_at : Option ℕ
  pub last_served : ℕ
  pub drain_rate : F a
  pub sampled : Bool

module _ (a : FloatArith) where
  -- `Duration.Seconds`
  abbrev pub seconds : ℕ → F a
  seconds d =
      fadd a (fint a (d / 1_000_000_000))
        (fdiv a (fint a (d % 1_000_000_000)) (flit a 1_000_000_000 0))

  abbrev pub restart : ℕ → ℕ → DrainTracker a → DrainTracker a
  restart now served d = record d { last_at = some now; last_served = served; sampled = false }

  abbrev pub smoothed : F a → F a → F a
  smoothed rate instant = fadd a (fmul a (flit a 7 1) rate) (fmul a (flit a 3 1) instant)

  -- The part of `sampleDrain` after its first test.
  unfoldable pub sample_since : ℕ → ℕ → ℕ → DrainTracker a → DrainTracker a
  sample_since last now served d =
      let dt = seconds (now - last) in
      let instant = fdiv a (fint a (served - d.last_served)) dt in
      if fle a dt (flit a 0 0) then d else record {
        last_at = some now;
        last_served = served;
        drain_rate = if d.sampled then smoothed d.drain_rate instant else instant;
        sampled = true;
      }

  -- `sampleDrain`, by the time of the last sample.
  unfoldable pub sample_from : Option ℕ → ℕ → ℕ → ℕ → DrainTracker a → DrainTracker a
  unfolding sample_since
  sample_from none now served backlog d = restart now served d
  sample_from (some last) now served backlog d =
      if backlog == 0 then restart now served d else sample_since last now served d

  unfoldable pub sample_drain : ℕ → ℕ → ℕ → DrainTracker a → DrainTracker a
  unfolding sample_from
  sample_drain now served backlog d = sample_from d.last_at now served backlog d

  unfoldable pub backlog_stuck : ℕ → ℕ → DrainTracker a → Bool
  backlog_stuck backlog limit d =
      not (backlog == 0)
      && not (limit == 0)
      && d.sampled
      && flt a (fmul a d.drain_rate (seconds limit)) (fint a backlog)
