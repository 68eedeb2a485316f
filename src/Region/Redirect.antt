-- ===== src/Region/Redirect.antt =====
-- internal/region/redirect.go: the gate, and the candidates of a tour. SHA-256 of a candidate and a
-- key is `score`, the number that the hex digits of `Score` spell (they are equally many, so they
-- compare as numbers); the clock and the settings are arguments.
use Prim.Native.String.{String}
use text.Mathlib.Text.{◌==◌ as str_eq}
use aquifer.Base.{
  ℕ, ◌+◌, Bool, false, not, ◌||◌, Option, some, List, [], ◌∷◌, ltb, if◌then◌else◌, if_some,
}

-- The time until which the gate is closed; none is the zero time.
pub record Gate : Type 0 where
  pub until : Option ℕ

-- `Open` is true while redirects are skipped.
unfoldable pub gate_open : ℕ → Gate → Bool
gate_open now g = if_some g.until false (λ t. ltb now t)

unfoldable pub trip : ℕ → ℕ → Gate → Gate
trip now cooldown g = record { until = some (now + cooldown) }

abbrev pub contains : String → List String → Bool
contains r [] = false
contains r (x ∷ xs) = str_eq x r || contains r xs

unfoldable pub better : (String → ℕ) → String → String → String
better score best c = if ltb (score best) (score c) then c else best

unfoldable pub pick_from : (String → ℕ) → String → List String → String
unfolding better
pick_from score best [] = best
pick_from score best (c ∷ cs) = pick_from score (better score best c) cs

unfoldable pub pick : (String → ℕ) → List String → String
unfolding pick_from
pick score [] = ""
pick score (c ∷ cs) = pick_from score c cs

unfoldable pub eligible : List String → String → List String → List String
eligible visited self [] = []
eligible visited self (r ∷ rs) =
    if str_eq r self || contains r visited
    then eligible visited self rs
    else r ∷ eligible visited self rs

unfoldable pub others : String → List String → List String
others preferred [] = []
others preferred (r ∷ rs) =
    if not (str_eq r preferred) then r ∷ others preferred rs else others preferred rs

unfoldable pub led_by_pick : (String → ℕ) → List String → List String
unfolding pick others
led_by_pick score [] = []
led_by_pick score (r ∷ rs) =
    let preferred = pick score (r ∷ rs) in preferred ∷ others preferred (r ∷ rs)

unfoldable pub ordered_candidates :
    (String → String → ℕ) → List String → List String → String → String → List String
unfolding led_by_pick eligible
ordered_candidates score live visited self key =
    led_by_pick (λ c. score c key) (eligible visited self live)
