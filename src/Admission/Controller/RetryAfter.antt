-- ===== src/Admission/Controller/RetryAfter.antt =====
-- internal/admission/admission.go: the Retry-After of a refusal grows with the streak.
use native.Mathlib.Nat.{pow-suc}
use aquifer.Base.{
  ℕ, zero, suc, ◌-◌, ◌*◌, ◌^◌, ◌≤◌, ◌<◌, ◌≡◌, refl, inl, inr, arith, ltb, leb, ◌==◌, Bool-cases,
  if◌then◌else◌, min,
}
use aquifer.Admission.Controller.Defs.{
  Controller, max_retry_after, doubled, backoff_for, retry_after_seconds,
}

pow_pos : (n : ℕ) → 0 < 2 ^ n
pow_pos zero = omega arith
pow_pos (suc n) = rw pow-suc (omega (arith, pow_pos n))

le_mul_pos : (n p : ℕ) → 0 < p → n ≤ n * p
le_mul_pos n p h = grind arith

capped_doubled :
    (rounds backoff : ℕ) → min (doubled rounds backoff) 60 ≡ min (backoff * 2 ^ rounds) 60
unfolding doubled
capped_doubled zero backoff = omega arith
capped_doubled (suc rounds) backoff = elim (Bool-cases (ltb backoff 60)) [
  | inl low ↦ rw (low, doubled, pow-suc) (omega (arith, capped_doubled rounds (backoff * 2)))
  | inr high ↦
      rw (high, doubled, pow-suc)
        (ground (arith, le_mul_pos backoff (2 ^ rounds * 2) (omega (arith, pow_pos rounds))))
]

-- The base that `RetryAfterSeconds` starts from.
abbrev pub base_of : Controller → ℕ
base_of c = if c.limits.retry_after_base == 0 then 5 else c.limits.retry_after_base

exact_at :
    (base streak : ℕ)
    → base ≤ max_retry_after
    → backoff_for base streak ≡ min (base * 2 ^ (streak - 1)) max_retry_after
unfolding backoff_for
exact_at base zero h = omega arith
exact_at base (suc zero) h = omega arith
exact_at base (suc (suc n)) h = ground (arith, capped_doubled (suc (suc n) - 1) base)

doubled_high : (rounds base : ℕ) → max_retry_after < base → doubled rounds base ≡ base
unfolding doubled
doubled_high zero base h = refl
doubled_high (suc rounds) base h = ground arith

falls_at :
    (base streak : ℕ)
    → max_retry_after < base
    → backoff_for base streak ≡ (if leb streak 1 then base else max_retry_after)
unfolding backoff_for
falls_at base zero h = refl
falls_at base (suc zero) h = refl
falls_at base (suc (suc n)) h = ground (arith, doubled_high (suc (suc n) - 1) base)

-- Where the base is at most a minute, the answer is the base, doubled for each refusal after the
-- first since the last admission, and at most a minute.
pub retry_after_exact :
    (c : Controller)
    → base_of c ≤ max_retry_after
    → retry_after_seconds c ≡ min (base_of c * 2 ^ (c.reject_streak - 1)) max_retry_after
unfolding retry_after_seconds
retry_after_exact c h = exact_at (base_of c) c.reject_streak h

-- Where the base is more than a minute, the first refusal is told the base and every later one a
-- minute: the answer falls as the streak grows.
pub retry_after_falls :
    (c : Controller)
    → max_retry_after < base_of c
    → retry_after_seconds c ≡ (if leb c.reject_streak 1 then base_of c else max_retry_after)
unfolding retry_after_seconds
retry_after_falls c h = falls_at (base_of c) c.reject_streak h
