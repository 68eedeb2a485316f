-- ===== src/Admission/Fair/Milli.antt =====
-- internal/admission/fair.go: numbers in thousandths meet what the decision rests on.
use native.Mathlib.Nat.{le-div_iff_mul-le, zero-div}
use aquifer.Base.{ℕ, ◌*◌, ◌/◌, ◌≤◌, ◌<◌, ◌≡◌, ◌↔◌, refl, true, false, arith, leb, ◌==◌}
use aquifer.Base.Float.{num, nan, F, milli, milli_laws, flit, fdiv, fmul, fsub, fle, flt}
use aquifer.Admission.Fair.Bounds.{FairLaws}

share_exact :
    (queue budget active : ℕ)
    → 0 < active
    → (queue * 1000 ≤ budget * 1000 * 1000 / (active * 1000)) ↔ (queue * active ≤ budget)
share_exact queue budget active h =
    let p : 0 < active * 1000 = omega arith in
    (λ e. omega (arith, (le-div_iff_mul-le p).0 e), λ e. (le-div_iff_mul-le p).1 (omega arith))

pub milli_fair : FairLaws milli 1_000_000
milli_fair = record {
  order = milli_laws;
  zero_le_one = refl;
  count_pos = λ n h. ground arith;
  share_exact = λ queue budget active b q h.
      let positive : (active * 1000 == 0) ≡ false = ground arith in
      rw positive (
        λ e. (share_exact queue budget active h).0 (ground arith),
        λ e. ground (arith, (share_exact queue budget active h).1 e),
      );
  ceiling_exact = λ total held t h. (λ e. ground arith, λ e. ground arith);
  sub_not_above = sub_not_above;
  div_not_above = div_not_above;
  mul_zero = mul_zero;
}
  where
    sub_not_above :
        (x y : F milli) → fle milli x y ≡ true → flt milli (flit milli 0 0) (fsub milli x y) ≡ false
    sub_not_above nan y h = refl
    sub_not_above (num x) nan h = refl
    sub_not_above (num x) (num y) h = ground arith

    div_not_above :
        (x y : F milli)
        → flt milli (flit milli 0 0) x ≡ false
        → flt milli (flit milli 0 0) y ≡ true
        → flt milli (flit milli 0 0) (fdiv milli x y) ≡ false
    div_not_above nan y h k = refl
    div_not_above (num x) nan h k = refl
    div_not_above (num x) (num y) h k =
        let e : x ≡ 0 = ground arith in
        let p : (y == 0) ≡ false = ground arith in rw (e, p, zero-div)

    mul_zero :
        (x : F milli) (z : ℕ)
        → leb z 0 ≡ true
        → leb 0 z ≡ true
        → flt milli (flit milli 0 0) (fmul milli x (num z)) ≡ false
    mul_zero nan z h k = refl
    mul_zero (num x) z h k = let e : z ≡ 0 = ground arith in rw e (ground arith)
