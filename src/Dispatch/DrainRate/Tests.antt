-- ===== src/Dispatch/DrainRate/Tests.antt =====
-- internal/dispatch/drain_rate.go: a tracker at concrete samples.
use aquifer.Base.{ℕ, ◌+◌, ◌*◌, ◌/◌, ◌<◌, ◌≡◌, false, none, List, [], ◌∷◌, arith}
use aquifer.Base.Float.{FloatArith, milli, num, fle, flit}
use aquifer.Dispatch.DrainRate.Defs.{DrainTracker, seconds}
use aquifer.Dispatch.DrainRate.Samples.{Sample}

-- Numbers in thousandths, where the quotient of two counts is rounded up, so that none is 0.
abbrev up : FloatArith
up = record milli { div = λ x y. num (x * 1000 / y + 1) }

abbrev unmeasured : DrainTracker up
unmeasured = record { last_at = none; last_served = 0; drain_rate = num 0; sampled = false }

abbrev samples : List Sample
samples =
    record { now = 6_000_000_000; served = 4; backlog = 0 }
    ∷ record { now = 3_000_000_000; served = 1; backlog = 5 }
    ∷ []

positive_seconds : (d : ℕ) → 0 < d → fle up (seconds up d) (flit up 0 0) ≡ false
positive_seconds d h = ground arith
