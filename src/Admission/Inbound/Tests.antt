-- ===== src/Admission/Inbound/Tests.antt =====
-- internal/admission/inbound_rate.go: a controller at concrete readings.
use aquifer.Base.{◌+◌, ◌*◌, ◌/◌, ◌≤◌, refl, true, none, some, List, [], ◌∷◌, arith, length}
use aquifer.Base.Float.{milli, milli_laws, flit}
use aquifer.Admission.Inbound.Defs.{InboundRate, Reading, new_inbound_rate}
use aquifer.Admission.Inbound.Cuts.{cuts, cuts_spaced}
use aquifer.Admission.Inbound.Range.{GrowthLaws, InRange, ticks, ticks-InRange}

milli_growth : GrowthLaws milli 1_000
milli_growth = record {
  order = milli_laws;
  cut_down = λ x h. (x * 700 / 1000, refl, ground arith);
  careful = λ x h. (x * 1050 / 1000, refl, ground arith);
  fast = λ x h. (x * 1500 / 1000, refl, ground arith);
}

abbrev started : InboundRate milli
started = new_inbound_rate milli (flit milli 400 0) (flit milli 40 0)

-- The disk is a second behind.
abbrev disk_behind : Reading
disk_behind = record {
  inserts = 100;
  samples = 100;
  p95 = 1_000_000;
  backlog = none;
  sync_lag = some 1_000_000_000;
}

abbrev readings : List Reading
readings = disk_behind ∷ disk_behind ∷ []

cuts_spaced_example :
    3 * cuts milli 500_000_000 readings started + started.cooldown ≤ length readings + 3
unfolding new_inbound_rate
cuts_spaced_example = cuts_spaced milli 500_000_000 readings started (omega arith)

abbrev in_episode : InboundRate milli
in_episode = record started { congested = true; episode = 4; cooldown = 1 }

ticks-InRange_example :
    InRange milli 1_000 4_000_000 milli_growth refl
      (ticks milli 1_000 4_000_000 milli_growth refl 500_000_000 readings started)
unfolding new_inbound_rate
ticks-InRange_example =
    ticks-InRange milli 1_000 4_000_000 milli_growth refl 500_000_000 readings started
      (record { at_floor = refl; at_ceiling = refl; between = (refl, refl) })
