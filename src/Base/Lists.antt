-- ===== src/Base/Lists.antt =====
-- Lists measured by native numbers, predicates on their members, and keyed lists.
use Prim.Native.Nat.{ℕ, suc, ◌+◌, ◌<◌}
use mathlib.Core.Path.{◌≡◌}
use mathlib.Core.Logic.{◌≢◌}
use mathlib.Core.List.{List, [], ◌∷◌, ◌++◌}
use native.Mathlib.Omega.{arith}

module _ {ℓ} {A : Type ℓ} where
  abbrev pub length : List A → ℕ
  length [] = 0
  length (x ∷ xs) = suc (length xs)

  pub length-append : (xs ys : List A) → length (xs ++ ys) ≡ length xs + length ys
  length-append [] ys = omega arith
  length-append (x ∷ xs) ys = omega (arith, length-append xs ys)

  -- Every member of the list satisfies `P`.
  abbrev pub All {κ} : (A → Type κ) → List A → Type κ
  All P [] = Unit
  All P (x ∷ xs) = P x × All P xs

  pub All-imp {κ κ'} :
      {P : A → Type κ} {Q : A → Type κ'}
      → ((x : A) → P x → Q x)
      → (xs : List A) → All P xs
      → All Q xs
  All-imp h [] a = tt
  All-imp h (x ∷ xs) a = (h x a.0, All-imp h xs a.1)

  pub All-append {κ} : (P : A → Type κ) (xs ys : List A) → All P xs → All P ys → All P (xs ++ ys)
  All-append P [] ys hx hy = hy
  All-append P (x ∷ xs) ys hx hy = (hx.0, All-append P xs ys hx.1 hy)

  abbrev pub NotIn : A → List A → Type ℓ
  NotIn a [] = Unit
  NotIn a (x ∷ xs) = (a ≢ x) × NotIn a xs

  abbrev pub Distinct : List A → Type ℓ
  Distinct [] = Unit
  Distinct (x ∷ xs) = NotIn x xs × Distinct xs

  pub NotIn-append : (a : A) (xs ys : List A) → NotIn a xs → NotIn a ys → NotIn a (xs ++ ys)
  NotIn-append a [] ys hx hy = hy
  NotIn-append a (x ∷ xs) ys hx hy = (hx.0, NotIn-append a xs ys hx.1 hy)

-- A value above every member is none of them.
pub NotIn-above : (n : ℕ) (xs : List ℕ) → All (λ x. x < n) xs → NotIn n xs
NotIn-above n [] h = tt
NotIn-above n (x ∷ xs) h = (omega arith, NotIn-above n xs h.1)

pub All-lt_suc : (n : ℕ) (xs : List ℕ) → All (λ x. x < n) xs → All (λ x. x < suc n) xs
All-lt_suc n [] h = tt
All-lt_suc n (x ∷ xs) h = (omega arith, All-lt_suc n xs h.1)

pub Distinct-snoc :
    (n : ℕ) (xs : List ℕ) → All (λ x. x < n) xs → Distinct xs → Distinct (xs ++ n ∷ [])
Distinct-snoc n [] h d = (tt, tt)
Distinct-snoc n (x ∷ xs) h d =
    (NotIn-append x xs (n ∷ []) d.0 (omega arith, tt), Distinct-snoc n xs h.1 d.1)
