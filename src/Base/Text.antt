-- ===== src/Base/Text.antt =====
-- Texts as lists of code points.
use Prim.Native.Nat.{ℕ}
use Prim.Native.Char.{code}
use Prim.Native.String.{String}
use mathlib.Core.Bool.{Bool, false, ◌||◌}
use mathlib.Core.List.{List, [], ◌∷◌}
use aquifer.Base.Tests.{◌==◌}

abbrev pub codes : String → List ℕ
codes String.[] = []
codes (String.◌∷◌ c s) = code c ∷ codes s

-- `strings.ContainsRune`
abbrev pub contains_code : ℕ → List ℕ → Bool
contains_code c [] = false
contains_code c (d ∷ ds) = d == c || contains_code c ds
