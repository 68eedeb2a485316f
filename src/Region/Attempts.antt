-- ===== src/Region/Attempts.antt =====
-- internal/core/region_redirect.go: what an attempt as a whole does.
use Prim.Native.String.{String}
use text.Mathlib.Text.{◌==◌ as str_eq}
use aquifer.Base.{
  ℕ, ◌+◌, ◌≤◌, ◌≡◌, inl, inr, refl, ◌∙◌, ap, true, false, Option, none, some, List, [], ◌∷◌, ◌++◌,
  arith, if◌then◌else◌, Bool-cases,
}
use aquifer.Region.Redirect.{Gate, gate_open, ordered_candidates}
use aquifer.Region.Tour.{
  TouringJob, HopRequest, HopAnswer, hop_request, Hop, Attempt, toured, attempt_redirect,
}
use aquifer.Region.Outcomes.{
  Toured, directly, kept, gave_up, first_hops, direct_hops, toured-Toured,
}

-- The job as its hops carry it: this machine and region are its origin.
abbrev pub with_origin : String → String → TouringJob → TouringJob
with_origin machine region j = record j { origin_machine_id = machine; origin_region = region }

-- A job without an origin, with redirects configured and the gate open to it, is taken to its
-- candidates: the hops are direct ones in their order until the first that serves the job, or all of
-- them and one that may keep it at the first candidate. The row is deleted exactly if the job was
-- served, and the gate changes only if no region helped and some region was reached.
pub attempt_redirect-Toured :
    (answer : String → HopRequest → HopAnswer) (score : String → String → ℕ) (now cooldown : ℕ)
    (machine self : String) (live : List String) (g : Gate) (j : TouringJob) (c : String)
    (cs : List String)
    → str_eq j.origin_machine_id "" ≡ true
    → gate_open now g ≡ false
    → ordered_candidates score live j.visited_regions self j.job_key ≡ c ∷ cs
    → Toured answer
        (with_origin machine self j)
        now
        cooldown
        g
        c
        cs
        (attempt_redirect answer score now cooldown machine (some (self, live)) g j)
unfolding attempt_redirect
attempt_redirect-Toured answer score now cooldown machine self live g j c cs own closed found =
    rw (own, closed, found) (toured-Toured answer (with_origin machine self j) now cooldown g c cs)

-- The hops at which a region may keep the job.
abbrev pub keeping : List Hop → ℕ
keeping [] = 0
keeping (h ∷ hs) = if h.1.direct_only then keeping hs else keeping hs + 1

keeping-++ : (hs ks : List Hop) → keeping (hs ++ ks) ≡ keeping hs + keeping ks
keeping-++ [] ks = omega arith
keeping-++ (h ∷ hs) ks = elim (Bool-cases h.1.direct_only) [
  | inl d ↦ rw d (keeping-++ hs ks)
  | inr d ↦ rw d (ground (arith, keeping-++ hs ks))
]

keeping-direct_hops : (j : TouringJob) (rs : List String) → keeping (direct_hops j rs) ≡ 0
unfolding hop_request
keeping-direct_hops j [] = refl
keeping-direct_hops j (r ∷ rs) = keeping-direct_hops j rs

keeping-first_hops :
    (answer : String → HopRequest → HopAnswer) (j : TouringJob) (c : String) (cs : List String)
    → keeping (first_hops answer j c cs) ≡ 1
unfolding hop_request
keeping-first_hops answer j c cs =
    keeping-++ (direct_hops j (c ∷ cs)) ((c, hop_request j c false) ∷ [])
    ∙ ap (λ n. n + 1) (keeping-direct_hops j (c ∷ cs))

module _ (answer : String → HopRequest → HopAnswer) where
  Toured-keeping :
      (j : TouringJob) (now cooldown : ℕ) (g : Gate) (c : String) (cs : List String) (a : Attempt)
      → Toured answer j now cooldown g c cs a
      → keeping a.made ≤ 1
  Toured-keeping j now cooldown g c cs a (directly before r later o s n u made e) =
      rw made (ground (arith, keeping-direct_hops j (before ++ (r ∷ []))))
  Toured-keeping j now cooldown g c cs a (kept o n u made e) =
      rw made (ground (arith, keeping-first_hops answer j c cs))
  Toured-keeping j now cooldown g c cs a (gave_up n u made e) =
      rw made (ground (arith, keeping-first_hops answer j c cs))

  toured-keeping :
      (now cooldown : ℕ) (j : TouringJob) (g : Gate) (cs : List String)
      → keeping (toured answer now cooldown j g cs).made ≤ 1
  unfolding toured
  toured-keeping now cooldown j g [] = omega arith
  toured-keeping now cooldown j g (c ∷ cs) =
      Toured-keeping j now cooldown g c cs (toured answer now cooldown j g (c ∷ cs))
        (toured-Toured answer j now cooldown g c cs)

-- Whatever the regions answer, one attempt sends at most one hop at which a region may keep the job.
pub attempt_redirect-keeping :
    (answer : String → HopRequest → HopAnswer) (score : String → String → ℕ) (now cooldown : ℕ)
    (machine : String) (adapter : Option (String × List String)) (g : Gate) (j : TouringJob)
    → keeping (attempt_redirect answer score now cooldown machine adapter g j).made ≤ 1
unfolding attempt_redirect
attempt_redirect-keeping answer score now cooldown machine none g j =
    elim (Bool-cases (str_eq j.origin_machine_id "")) [
      | inl own ↦ rw own (omega arith)
      | inr hop ↦ rw hop (omega arith)
    ]
attempt_redirect-keeping answer score now cooldown machine (some (self, live)) g j =
    elim (Bool-cases (str_eq j.origin_machine_id "")) [
      | inl own ↦ elim (Bool-cases (gate_open now g)) [
        | inl shut ↦ rw (own, shut) (omega arith)
        | inr open_ ↦
            rw (own, open_)
              (toured-keeping answer now cooldown (with_origin machine self j) g
                (ordered_candidates score live j.visited_regions self j.job_key))
      ]
      | inr hop ↦ rw hop (omega arith)
    ]
