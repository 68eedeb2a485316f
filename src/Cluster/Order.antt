-- ===== src/Cluster/Order.antt =====
-- internal/cluster/router.go: the order of the members, and what sorting by it does.
use Prim.Native.String.{String}
use aquifer.Base.{
  ℕ, ◌≡◌, inl, inr, refl, true, false, ◌||◌, List, [], ◌∷◌, arith, All, All-imp, Bool-cases,
}
use aquifer.Base.Text.{codes}
use aquifer.Cluster.Routing.{Member, lex_lt, before, place, sort}

lex_lt-asym : (xs ys : List ℕ) → lex_lt xs ys ≡ true → lex_lt ys xs ≡ false
lex_lt-asym [] [] h = refl
lex_lt-asym [] (y ∷ ys) h = refl
lex_lt-asym (x ∷ xs) [] h = ground (arith, h)
lex_lt-asym (x ∷ xs) (y ∷ ys) h = ground (arith, lex_lt-asym xs ys)

-- Whatever lies between two lists in this order comes after the first or before the second.
lex_lt-split : (xs ys zs : List ℕ) → lex_lt xs ys ≡ true → (lex_lt xs zs || lex_lt zs ys) ≡ true
lex_lt-split xs [] zs h = ground (arith, h)
lex_lt-split [] (y ∷ ys) [] h = refl
lex_lt-split [] (y ∷ ys) (z ∷ zs) h = refl
lex_lt-split (x ∷ xs) (y ∷ ys) [] h = refl
lex_lt-split (x ∷ xs) (y ∷ ys) (z ∷ zs) h = ground (arith, lex_lt-split xs ys zs)

module _ (score : String → ℕ) where
  pub before-asym : (m n : Member) → before score m n ≡ true → before score n m ≡ false
  unfolding before
  before-asym m n h = ground (arith, lex_lt-asym (codes m.id) (codes n.id))

  pub before-split :
      (m n o : Member) → before score m n ≡ true → (before score m o || before score o n) ≡ true
  unfolding before
  before-split m n o h = ground (arith, lex_lt-split (codes m.id) (codes n.id) (codes o.id))

  -- No member comes before one that stands ahead of it.
  abbrev pub IsRanked : List Member → Type 0
  IsRanked [] = Unit
  IsRanked (m ∷ ms) = All (λ n. before score n m ≡ false) ms × IsRanked ms

  place-All :
      (P : Member → Type 0) (m : Member) (ns : List Member)
      → P m
      → All P ns
      → All P (place score m ns)
  place-All P m [] h a = (h, tt)
  place-All P m (n ∷ ns) h a = elim (Bool-cases (before score m n)) [
    | inl up ↦ rw up (h, a)
    | inr down ↦ rw down (a.0, place-All P m ns h a.1)
  ]

  place-IsRanked : (m : Member) (ns : List Member) → IsRanked ns → IsRanked (place score m ns)
  place-IsRanked m [] r = (tt, tt)
  place-IsRanked m (n ∷ ns) r = elim (Bool-cases (before score m n)) [
    | inl up ↦ rw up (
      (
        before-asym m n up,
        All-imp
            (λ o later. ground (
              arith,
              before-split o m n,
              before-asym m n up,
              later,
              up,
              before-asym o m,
              before-split m n o,
            ))
            ns r.0,
      ),
      r,
    )
    | inr down ↦
        rw down (place-All (λ o. before score o n ≡ false) m ns down r.0, place-IsRanked m ns r.1)
  ]

  pub sort-IsRanked : (ms : List Member) → IsRanked (sort score ms)
  sort-IsRanked [] = tt
  sort-IsRanked (m ∷ ms) = place-IsRanked m (sort score ms) (sort-IsRanked ms)
