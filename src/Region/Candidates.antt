-- ===== src/Region/Candidates.antt =====
-- internal/region/redirect.go: which regions a tour visits, and which comes first.
use Prim.Native.String.{String}
use text.Mathlib.Text.{◌==◌ as str_eq}
use text.Mathlib.TextEquality.{eq_iff}
use aquifer.Base.{
  ℕ, ◌≤◌, ◌≡◌, inl, inr, refl, sym, subst, ◌∙◌, true, false, not, ◌&&◌, ◌||◌, List, [], ◌∷◌, arith,
  ltb, Bool-cases,
}
use aquifer.Region.Redirect.{
  contains, better, pick_from, pick, eligible, others, led_by_pick, ordered_candidates,
}

contains-eligible :
    (r self : String) (visited live : List String)
    → contains r (eligible visited self live)
      ≡ (contains r live && not (str_eq r self || contains r visited))
unfolding eligible
contains-eligible r self visited [] = refl
contains-eligible r self visited (x ∷ xs) = elim (Bool-cases (str_eq x r)) [
  | inl same ↦
      rw ((eq_iff x r).0 same) (ground (arith, eq_iff r r, contains-eligible r self visited xs))
  | inr other ↦ ground (arith, contains-eligible r self visited xs)
]

contains-others :
    (r p : String) (rs : List String)
    → contains r (others p rs) ≡ (contains r rs && not (str_eq r p))
unfolding others
contains-others r p [] = refl
contains-others r p (x ∷ xs) = elim (Bool-cases (str_eq x r)) [
  | inl same ↦ rw ((eq_iff x r).0 same) (ground (arith, eq_iff r r, contains-others r p xs))
  | inr other ↦ ground (arith, contains-others r p xs)
]

better-best :
    (score : String → ℕ) (b x : String)
    → (str_eq b (better score b x) || str_eq x (better score b x) ≡ true)
      × (score b ≤ score (better score b x))
      × (score x ≤ score (better score b x))
unfolding better
better-best score b x = elim (Bool-cases (ltb (score b) (score x))) [
  | inl up ↦ rw up (ground (arith, eq_iff x x), ground arith, omega arith)
  | inr same ↦ rw same (ground (arith, eq_iff b b), omega arith, ground arith)
]

-- One of the candidates, of which none has a higher score.
abbrev pub IsBest : (String → ℕ) → List String → String → Type 0
IsBest score cs p =
    (contains p cs ≡ true) × ((c : String) → contains c cs ≡ true → score c ≤ score p)

widened :
    (y p b x : String) (xs : List String)
    → (str_eq b y || str_eq x y ≡ true)
    → contains p (y ∷ xs) ≡ true
    → contains p (b ∷ x ∷ xs) ≡ true
widened y p b x xs h m = ground (arith, eq_iff b y, eq_iff x y, eq_iff y p, eq_iff b p, eq_iff x p)

bounded :
    (score : String → ℕ) (b x : String) (xs : List String) (top : ℕ)
    → score b ≤ top
    → score x ≤ top
    → ((d : String) → contains d xs ≡ true → score d ≤ top)
    → (c : String) → contains c (b ∷ x ∷ xs) ≡ true
    → score c ≤ top
bounded score b x xs top hb hx rest c h = elim (Bool-cases (str_eq b c)) [
  | inl same ↦ subst (λ d. score d ≤ top) ((eq_iff b c).0 same) hb
  | inr other ↦ elim (Bool-cases (str_eq x c)) [
    | inl same ↦ subst (λ d. score d ≤ top) ((eq_iff x c).0 same) hx
    | inr later ↦ rest c (ground arith)
  ]
]

pick_from-IsBest :
    (score : String → ℕ) (b : String) (cs : List String)
    → IsBest score (b ∷ cs) (pick_from score b cs)
unfolding pick_from
pick_from-IsBest score b [] = (
  ground (arith, eq_iff b b),
  λ c h. subst (λ d. score d ≤ score b) ((eq_iff b c).0 (ground arith)) (omega arith),
)
pick_from-IsBest score b (x ∷ xs) =
    let y = better score b x in
    let best = better-best score b x in
    let ih = pick_from-IsBest score y xs in
    let top : score y ≤ score (pick_from score y xs) = ih.1 y (ground (arith, eq_iff y y)) in
    (
      widened y (pick_from score y xs) b x xs best.0 ih.0,
      bounded score b x xs (score (pick_from score y xs)) (omega arith) (omega arith)
          (λ d m. ih.1 d (ground arith)),
    )

pick-IsBest :
    (score : String → ℕ) (c : String) (cs : List String)
    → IsBest score (c ∷ cs) (pick score (c ∷ cs))
unfolding pick
pick-IsBest score c cs = pick_from-IsBest score c cs

regained :
    (p r : String) (rs : List String)
    → contains p rs ≡ true
    → contains r (p ∷ others p rs) ≡ contains r rs
regained p r rs h = elim (Bool-cases (str_eq p r)) [
  | inl same ↦
      subst (λ q. contains q (p ∷ others p rs) ≡ contains q rs) ((eq_iff p r).0 same)
        (ground (arith, eq_iff p p))
  | inr other ↦ ground (arith, contains-others r p rs, eq_iff r p, eq_iff p r)
]

-- The head of a tour is the best of it and stands in it once.
abbrev pub Leads : (String → ℕ) → List String → Type 0
Leads score [] = Unit
Leads score (p ∷ rest) = IsBest score (p ∷ rest) p × (contains p rest ≡ false)

led_by_pick-lem :
    (score : String → ℕ) (rs : List String)
    → ((r : String) → contains r (led_by_pick score rs) ≡ contains r rs)
      × Leads score (led_by_pick score rs)
unfolding led_by_pick
led_by_pick-lem score [] = (λ r. refl, tt)
led_by_pick-lem score (c ∷ cs) =
    let p = pick score (c ∷ cs) in
    let best = pick-IsBest score c cs in
    let same : (r : String) → contains r (p ∷ others p (c ∷ cs)) ≡ contains r (c ∷ cs) =
      λ r. regained p r (c ∷ cs) best.0 in
    (
      same,
      (
        (ground (arith, eq_iff p p), λ d m. best.1 d (sym (same d) ∙ m)),
        ground (arith, contains-others p p (c ∷ cs), eq_iff p p),
      ),
    )

-- A tour visits exactly the live regions other than this one and those already visited; the first has
-- the highest score of them for the job's key, and comes once.
pub ordered_candidates-lem :
    (score : String → String → ℕ) (live visited : List String) (self key : String)
    → let cs = ordered_candidates score live visited self key in
      ((r : String)
        → contains r cs ≡ (contains r live && not (str_eq r self || contains r visited)))
      × Leads (λ c. score c key) cs
unfolding ordered_candidates
ordered_candidates-lem score live visited self key =
    let led = led_by_pick-lem (λ c. score c key) (eligible visited self live) in
    (λ r. led.0 r ∙ contains-eligible r self visited live, led.1)

-- If no two regions have the same score for a key, two origins whose tours visit the same regions
-- begin with the same one, whatever the order in which they know them.
pub origins_agree :
    (score : String → String → ℕ) (key : String) (live live' visited visited' : List String)
    (self self' p q : String) (rest rest' : List String)
    → ((x y : String) → score x key ≡ score y key → x ≡ y)
    → ordered_candidates score live visited self key ≡ p ∷ rest
    → ordered_candidates score live' visited' self' key ≡ q ∷ rest'
    → ((r : String) → contains r (p ∷ rest) ≡ contains r (q ∷ rest'))
    → p ≡ q
origins_agree score key live live' visited visited' self self' p q rest rest' apart e e' same =
    let l : Leads (λ c. score c key) (p ∷ rest) =
      subst (Leads (λ c. score c key)) e (ordered_candidates-lem score live visited self key).1 in
    let l' : Leads (λ c. score c key) (q ∷ rest') =
      subst (Leads (λ c. score c key)) e'
        (ordered_candidates-lem score live' visited' self' key).1 in
    let below : score p key ≤ score q key = l'.0.1 p (sym (same p) ∙ l.0.0) in
    let above : score q key ≤ score p key = l.0.1 q (same q ∙ l'.0.0) in apart p q (omega arith)
