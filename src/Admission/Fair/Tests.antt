-- ===== src/Admission/Fair/Tests.antt =====
-- internal/admission/fair.go: the theorems at concrete inputs, over numbers in thousandths.
use aquifer.Base.{◌≡◌, refl, false}
use aquifer.Base.Float.{num, F, milli, flit}
use aquifer.Admission.Fair.Defs.{decide_fair_with_floor, decide, past_budget}

-- Four queues and a budget of 100: a queue of 30 is over its share, one of 10 is within.
abbrev below_one : F milli
below_one = num 999

refused_over_share :
    (decide_fair_with_floor milli below_one 30 105 4 100 0 (flit milli 5 1)).fair_allowed ≡ false
unfolding decide_fair_with_floor decide past_budget
refused_over_share = refl
