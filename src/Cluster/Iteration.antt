-- ===== src/Cluster/Iteration.antt =====
-- internal/cluster/router.go: the ranking does not depend on the order in which the map of members is
-- read.
use Prim.Native.String.{String}
use text.Mathlib.Text.{◌==◌ as str_eq}
use text.Mathlib.TextEquality.{Char-path}
use aquifer.Base.{
  ℕ, ◌≡◌, inl, inr, refl, sym, ◌∙◌, ap, subst, Bool, true, false, some, List, [], ◌∷◌, arith, All,
  if◌then◌else◌, if_some, Bool-cases,
}
use aquifer.Base.Text.{codes}
use aquifer.Base.Dict.{lookup, string_keys}
use aquifer.Cluster.Routing.{
  Member, Router, lex_lt, before, place, sort, expire_pruned, is_candidate, select_members,
  ranked_owners,
}
use aquifer.Cluster.Order.{before-asym, before-split}

lex_lt-total : (xs ys : List ℕ) → lex_lt xs ys ≡ false → lex_lt ys xs ≡ false → xs ≡ ys
lex_lt-total [] [] h k = refl
lex_lt-total [] (y ∷ ys) h k = ground (arith, h)
lex_lt-total (x ∷ xs) [] h k = ground (arith, k)
lex_lt-total (x ∷ xs) (y ∷ ys) h k = ground (arith, lex_lt-total xs ys)

codes_apart : (s t : String) → codes s ≡ codes t → s ≡ t
codes_apart String.[] String.[] e = refl
codes_apart String.[] (String.◌∷◌ d t) e = ground (arith, e)
codes_apart (String.◌∷◌ c s) String.[] e = ground (arith, e)
codes_apart (String.◌∷◌ c s) (String.◌∷◌ d t) e =
    λ i. String.◌∷◌ (Char-path c d (ground (arith, e)) i) (codes_apart s t (ground (arith, e)) i)

module _ (score : String → ℕ) where
  -- Two members with different ids are never level.
  before-total : (m n : Member) → before score m n ≡ false → before score n m ≡ false → m.id ≡ n.id
  unfolding before
  before-total m n h k =
      codes_apart m.id n.id (ground (arith, lex_lt-total (codes m.id) (codes n.id)))

  place-place :
      (m n : Member) (os : List Member)
      → before score m n ≡ true
      → place score m (place score n os) ≡ place score n (place score m os)
  place-place m n [] h = rw (h, before-asym score m n h) refl
  place-place m n (o ∷ os) h = elim (Bool-cases (before score n o)) [
    | inl n_up ↦
        let m_up : before score m o ≡ true =
          ground (arith, before-split score m n o h, before-asym score n o) in
        rw (n_up, m_up) (rw (h, before-asym score m n h) (rw n_up refl))
    | inr n_down ↦ elim (Bool-cases (before score m o)) [
      | inl m_up ↦ rw (n_down, m_up) (rw (before-asym score m n h) (rw n_down refl))
      | inr m_down ↦ rw (n_down, m_down) (rw n_down (ap (◌∷◌ o) (place-place m n os h)))
    ]
  ]

-- The members as two readings of one map give them: the same ones in another order.
pub data Reordered : List Member → List Member → Type 0 where
  done : Reordered [] []
  keep : (m : Member) {ms ns : List Member} → Reordered ms ns → Reordered (m ∷ ms) (m ∷ ns)
  switch : (m n : Member) (ms : List Member) → Reordered (m ∷ n ∷ ms) (n ∷ m ∷ ms)
  chain : {ms ns os : List Member} → Reordered ms ns → Reordered ns os → Reordered ms os

Reordered-All : (P : Member → Type 0) {ms ns : List Member} → Reordered ms ns → All P ms → All P ns
Reordered-All P done a = a
Reordered-All P (keep m r) a = (a.0, Reordered-All P r a.1)
Reordered-All P (switch m n ms) a = (a.1.0, (a.0, a.1.1))
Reordered-All P (chain r s) a = Reordered-All P s (Reordered-All P r a)

Reordered_refl : (ms : List Member) → Reordered ms ms
Reordered_refl [] = done
Reordered_refl (m ∷ ms) = keep m (Reordered_refl ms)

switched :
    (a b : Bool) (m n : Member) (ms : List Member)
    → let before_n = if b then n ∷ ms else ms in
      let before_m = if a then m ∷ ms else ms in
      Reordered (if a then m ∷ before_n else before_n) (if b then n ∷ before_m else before_m)
switched true true m n ms = switch m n ms
switched true false m n ms = Reordered_refl (m ∷ ms)
switched false true m n ms = Reordered_refl (n ∷ ms)
switched false false m n ms = Reordered_refl ms

Reordered-select_members :
    (p : Member → Bool) {ms ns : List Member}
    → Reordered ms ns
    → Reordered (select_members p ms) (select_members p ns)
Reordered-select_members p done = done
Reordered-select_members p (keep m r) = elim (Bool-cases (p m)) [
  | inl in_ ↦ rw in_ (keep m (Reordered-select_members p r))
  | inr out ↦ rw out (Reordered-select_members p r)
]
Reordered-select_members p (switch m n ms) = switched (p m) (p n) m n (select_members p ms)
Reordered-select_members p (chain r s) =
    chain (Reordered-select_members p r) (Reordered-select_members p s)

-- A member of a map stands under its id.
abbrev pub StandsIn : List (String × Member) → Member → Type 0
StandsIn table m = lookup m.id table ≡ some m

All-select_members :
    (P : Member → Type 0) (p : Member → Bool) (ms : List Member)
    → All P ms
    → All P (select_members p ms)
All-select_members P p [] a = tt
All-select_members P p (m ∷ ms) a = elim (Bool-cases (p m)) [
  | inl in_ ↦ rw in_ (a.0, All-select_members P p ms a.1)
  | inr out ↦ rw out (All-select_members P p ms a.1)
]

one_entry :
    (table : List (String × Member)) (m n : Member)
    → StandsIn table m
    → StandsIn table n
    → m.id ≡ n.id
    → m ≡ n
one_entry table m n hm hn e =
    ap (λ o. if_some o m (λ x. x)) (sym hm ∙ ap (λ k. lookup k table) e ∙ hn)

module _ (score : String → ℕ) (table : List (String × Member)) where
  place-any :
      (m n : Member) (os : List Member)
      → StandsIn table m
      → StandsIn table n
      → place score m (place score n os) ≡ place score n (place score m os)
  place-any m n os hm hn = elim (Bool-cases (before score m n)) [
    | inl up ↦ place-place score m n os up
    | inr down ↦ elim (Bool-cases (before score n m)) [
      | inl up ↦ sym (place-place score n m os up)
      | inr level ↦
          let same = one_entry table m n hm hn (before-total score m n down level) in
          subst (λ x. place score m (place score x os) ≡ place score x (place score m os)) same refl
    ]
  ]

  sort-Reordered :
      {ms ns : List Member}
      → Reordered ms ns
      → All (StandsIn table) ms
      → sort score ms ≡ sort score ns
  sort-Reordered done a = refl
  sort-Reordered (keep m r) a = ap (place score m) (sort-Reordered r a.1)
  sort-Reordered (switch m n ms) a = place-any m n (sort score ms) a.0 a.1.0
  sort-Reordered (chain r s) a =
      sort-Reordered r a ∙ sort-Reordered s (Reordered-All (StandsIn table) r a)

-- If each member stands in one map under its id, the ranking of the owners of a key is the same for
-- every order in which the map is read.
pub ranked_owners-Reordered :
    (score : String → String → ℕ) (now : ℕ) (key : String) (excluded : String → Bool) (r : Router)
    (table : List (String × Member)) (ns : List Member)
    → All (StandsIn table) r.members
    → Reordered r.members ns
    → (ranked_owners score now key excluded r).1
      ≡ (ranked_owners score now key excluded (record r { members = ns })).1
unfolding ranked_owners
ranked_owners-Reordered score now key excluded r table ns known again =
    let p : Member → Bool = is_candidate excluded now (expire_pruned now r.pruned_until) in
    elim (Bool-cases (str_eq key "")) [
      | inl none_ ↦ rw none_ refl
      | inr some_ ↦ rw some_ (
          sort-Reordered (λ id. score id key) table (Reordered-select_members p again)
            (All-select_members (StandsIn table) p r.members known))
    ]
