-- ===== src/Base/Float.antt =====
-- Go's float64 as the code uses it: an interface for the values that are numbers, NaN apart.
use Prim.Native.Nat.{ℕ, ◌+◌, ◌-◌, ◌*◌, ◌/◌, ◌^◌}
use mathlib.Core.Path.{◌≡◌, refl}
use mathlib.Core.Logic.{◌⊎◌}
use mathlib.Core.Bool.{Bool, true, false, not}
use native.Mathlib.Omega.{arith}
use aquifer.Base.Tests.{leb, ◌==◌, if◌then◌else◌}

-- A float64: NaN, or a value that is ordered with every other.
pub data Float (N : Type 0) : Type 0 where
  nan : Float N
  num : N → Float N

-- The hardware's arithmetic on the values other than NaN. `lit m k` is the constant m / 10^k,
-- `of_int` a conversion from an integer; a result may be NaN (0/0, ∞ - ∞). `pos_inf` and
-- `neg_inf` recognise the infinities. `to_ns` is `time.Duration(x)` and `to_int` is `int64(x)` at
-- a value that fits and is at least 0.
pub record FloatArith : Type 1 where
  pub Num : Type 0
  pub leb_num : Num → Num → Bool
  pub lit : ℕ → ℕ → Num
  pub of_int : ℕ → Num
  pub add : Num → Num → Float Num
  pub sub : Num → Num → Float Num
  pub mul : Num → Num → Float Num
  pub div : Num → Num → Float Num
  pub pos_inf : Num → Bool
  pub neg_inf : Num → Bool
  pub to_ns : Num → ℕ
  pub to_int : Num → ℕ

-- What IEEE 754 says of the order of the values that are numbers: it is total and transitive
-- (0 and -0 are equal in it), and a constant is no infinity.
pub record FloatLaws (a : FloatArith) : Type 0 where
  pub le_total : (x y : a.Num) → (a.leb_num x y ≡ true) ⊎ (a.leb_num y x ≡ true)
  pub le_transitive :
      (x y z : a.Num) → a.leb_num x y ≡ true → a.leb_num y z ≡ true → a.leb_num x z ≡ true
  pub lit_finite : (m k : ℕ) → (a.pos_inf (a.lit m k) ≡ false) × (a.neg_inf (a.lit m k) ≡ false)

module _ (a : FloatArith) where
  abbrev pub F : Type 0
  F = Float a.Num

  -- An operation with a NaN operand gives NaN.
  abbrev pub lift2 : (a.Num → a.Num → F) → F → F → F
  lift2 f nan y = nan
  lift2 f (num x) nan = nan
  lift2 f (num x) (num y) = f x y

  abbrev pub fadd : F → F → F
  fadd = lift2 a.add

  abbrev pub fsub : F → F → F
  fsub = lift2 a.sub

  abbrev pub fmul : F → F → F
  fmul = lift2 a.mul

  abbrev pub fdiv : F → F → F
  fdiv = lift2 a.div

  abbrev pub flit : ℕ → ℕ → F
  flit m k = num (a.lit m k)

  abbrev pub fint : ℕ → F
  fint n = num (a.of_int n)

  -- `x <= y`, `x < y` and `x != y` of Go: every comparison with NaN but != is false.
  abbrev pub fle : F → F → Bool
  fle nan y = false
  fle (num x) nan = false
  fle (num x) (num y) = a.leb_num x y

  abbrev pub flt : F → F → Bool
  flt nan y = false
  flt (num x) nan = false
  flt (num x) (num y) = not (a.leb_num y x)

  -- `time.Duration(x)` for a result that may be NaN. Go leaves that conversion open; amd64 gives the
  -- least int64 and arm64 gives 0, and the code only asks whether a time has passed it.
  abbrev pub duration : F → ℕ
  duration nan = 0
  duration (num x) = a.to_ns x

  -- `time.Duration(float64(time.Second) / rps)`
  abbrev pub interval : F → ℕ
  interval rps = duration (fdiv (fint 1_000_000_000) rps)

  -- math.Max and math.Min: NaN in either argument gives NaN, unless the other is the infinity
  -- that the function runs to.
  abbrev pub fmax : F → F → F
  fmax nan nan = nan
  fmax nan (num y) = if a.pos_inf y then num y else nan
  fmax (num x) nan = if a.pos_inf x then num x else nan
  fmax (num x) (num y) = if a.leb_num x y then num y else num x

  abbrev pub fmin : F → F → F
  fmin nan nan = nan
  fmin nan (num y) = if a.neg_inf y then num y else nan
  fmin (num x) nan = if a.neg_inf x then num x else nan
  fmin (num x) (num y) = if a.leb_num x y then num x else num y

-- Numbers in thousandths: a concrete arithmetic that meets the laws, for examples.
abbrev pub milli : FloatArith
milli = record {
  Num = ℕ;
  leb_num = leb;
  lit = λ m k. m * 1000 / 10 ^ k;
  of_int = λ n. n * 1000;
  add = λ x y. num (x + y);
  sub = λ x y. num (x - y);
  mul = λ x y. num (x * y / 1000);
  div = λ x y. if y == 0 then nan else num (x * 1000 / y);
  pos_inf = λ x. false;
  neg_inf = λ x. false;
  to_ns = λ x. x / 1000;
  to_int = λ x. x / 1000;
}

pub milli_laws : FloatLaws milli
milli_laws = record {
  le_total = λ x y. ground arith;
  le_transitive = λ x y z h k. ground arith;
  lit_finite = λ m k. (refl, refl);
}
