-- ===== src/Region/Outcomes.antt =====
-- internal/core/region_redirect.go: what an attempt does to the regions, the job's row and the gate.
use Prim.Native.String.{String}
use mathlib.Core.List.{append-nil, append_assoc}
use aquifer.Base.{
  ℕ, ◌≡◌, inl, inr, refl, sym, subst, ◌∙◌, ap, Bool, true, false, ◌||◌, Option, none, some, List,
  [], ◌∷◌, ◌++◌, All, arith, if◌then◌else◌, if_some, if_some-keeps, Option-cases,
}
use aquifer.Region.Redirect.{Gate, trip}
use aquifer.Region.Tour.{
  succeeded, exhausted, TouringJob, HopRequest, HopAnswer, ProxyOutcome, hop_request, Hop, Tour,
  try_hop, with_hop, direct_phase, tour, Attempt, finished, toured,
}

abbrev pub direct_hops : TouringJob → List String → List Hop
direct_hops j [] = []
direct_hops j (r ∷ rs) = (r, hop_request j r true) ∷ direct_hops j rs

abbrev pub is_some : Option ProxyOutcome → Bool
is_some none = false
is_some (some o) = true

-- The result and the row follow from the outcome: the row is deleted exactly if the job was served.
abbrev pub Ended : Option ProxyOutcome → Gate → Attempt → Type 0
Ended o g a =
    (a.served ≡ o)
    × (a.result ≡ if_some o exhausted (λ _. succeeded))
    × (a.deleted_row ≡ is_some o)
    × (a.gate_after ≡ g)

module _ (answer : String → HopRequest → HopAnswer) (j : TouringJob) where
  -- The region gives no usable answer to a hop that it may not keep.
  abbrev pub Refuses : String → Type 0
  Refuses r = (try_hop answer j r true).0 ≡ none

  abbrev pub any_answers : List String → Bool
  any_answers [] = false
  any_answers (r ∷ rs) = (try_hop answer j r true).1 || any_answers rs

  -- The first region that can serve the job directly ends the tour; if there is none, every region
  -- was asked once.
  pub data DirectPhase (regions : List String) (t t' : Tour) : Type 0 where
    won :
        (before : List String) (r : String) (later : List String) (o : ProxyOutcome)
        → regions ≡ before ++ (r ∷ later)
        → All Refuses before
        → (try_hop answer j r true).0 ≡ some o
        → t'.outcome ≡ some o
        → t'.hops ≡ t.hops ++ direct_hops j (before ++ (r ∷ []))
        → DirectPhase regions t t'
    lost :
        All Refuses regions
        → t'.outcome ≡ none
        → t'.hops ≡ t.hops ++ direct_hops j regions
        → t'.any_reached ≡ (t.any_reached || any_answers regions)
        → DirectPhase regions t t'

  hops-with_hop :
      (r : String) (t : Tour)
      → ((with_hop answer j r true t).hops ≡ t.hops ++ ((r, hop_request j r true) ∷ []))
        × ((with_hop answer j r true t).outcome ≡ (try_hop answer j r true).0)
        × ((with_hop answer j r true t).any_reached
            ≡ (t.any_reached || (try_hop answer j r true).1))
  unfolding with_hop
  hops-with_hop r t = (refl, refl, refl)

  later_phase :
      (r : String) (rs : List String) (t t' : Tour)
      → Refuses r
      → DirectPhase rs (with_hop answer j r true t) t'
      → DirectPhase (r ∷ rs) t t'
  later_phase r rs t t' no_use (won before q later o split none_before use_ here hops) =
      won (r ∷ before) q later o (ap (◌∷◌ r) split) (no_use, none_before) use_ here
        (hops
          ∙ ap (λ hs. hs ++ direct_hops j (before ++ (q ∷ []))) (hops-with_hop r t).0
          ∙ append_assoc t.hops ((r, hop_request j r true) ∷ [])
              (direct_hops j (before ++ (q ∷ []))))
  later_phase r rs t t' no_use (lost all_refuse here hops reached) =
      lost (no_use, all_refuse) here
        (hops
          ∙ ap (λ hs. hs ++ direct_hops j rs) (hops-with_hop r t).0
          ∙ append_assoc t.hops ((r, hop_request j r true) ∷ []) (direct_hops j rs))
        (reached ∙ ground (arith, (hops-with_hop r t).2))

  direct_phase-DirectPhase :
      (regions : List String) (t : Tour)
      → t.outcome ≡ none
      → DirectPhase regions t (direct_phase answer j regions t)
  unfolding direct_phase
  direct_phase-DirectPhase [] t e = lost tt e (sym (append-nil t.hops)) (ground arith)
  direct_phase-DirectPhase (r ∷ rs) t e =
      let t1 = with_hop answer j r true t in
      let facts = hops-with_hop r t in
      if_some-keeps (DirectPhase (r ∷ rs) t) t1.outcome (λ _. t1)
        (λ no_use.
          later_phase r rs t (direct_phase answer j rs t1) (sym facts.1 ∙ no_use)
            (direct_phase-DirectPhase rs t1 no_use))
        (λ o use_. won [] r rs o refl tt (sym facts.1 ∙ use_) use_ facts.0)

  abbrev pub first_hops : String → List String → List Hop
  first_hops c cs = direct_hops j (c ∷ cs) ++ ((c, hop_request j c false) ∷ [])

  -- What an attempt that has candidates comes to: a region serves the job directly; or none does and
  -- the first one keeps it; or that one refuses too, and the gate is closed if any region was reached.
  pub data Toured (now cooldown : ℕ) (g : Gate) (c : String) (cs : List String) (a : Attempt)
      : Type 0 where
    directly :
        (before : List String) (r : String) (later : List String) (o : ProxyOutcome)
        → c ∷ cs ≡ before ++ (r ∷ later)
        → All Refuses before
        → (try_hop answer j r true).0 ≡ some o
        → a.made ≡ direct_hops j (before ++ (r ∷ []))
        → Ended (some o) g a
        → Toured now cooldown g c cs a
    kept :
        (o : ProxyOutcome)
        → All Refuses (c ∷ cs)
        → (try_hop answer j c false).0 ≡ some o
        → a.made ≡ first_hops c cs
        → Ended (some o) g a
        → Toured now cooldown g c cs a
    gave_up :
        All Refuses (c ∷ cs)
        → (try_hop answer j c false).0 ≡ none
        → a.made ≡ first_hops c cs
        → Ended none
            (if any_answers (c ∷ cs) || (try_hop answer j c false).1
              then trip now cooldown g
              else g)
            a
        → Toured now cooldown g c cs a

  abbrev no_tour : Tour
  no_tour = record { hops = []; outcome = none; any_reached = false }

  finished_served :
      (now cooldown : ℕ) (g : Gate) (t : Tour) (o : ProxyOutcome)
      → t.outcome ≡ some o
      → Ended (some o) g (finished now cooldown j g t)
  unfolding finished
  finished_served now cooldown g t o e = rw e (refl, refl, refl, refl)

  finished_refused :
      (now cooldown : ℕ) (g : Gate) (t : Tour)
      → t.outcome ≡ none
      → Ended none (if t.any_reached then trip now cooldown g else g) (finished now cooldown j g t)
  unfolding finished
  finished_refused now cooldown g t e = rw e (refl, refl, refl, refl)

  made-finished :
      (now cooldown : ℕ) (g : Gate) (t : Tour) → (finished now cooldown j g t).made ≡ t.hops
  unfolding finished
  made-finished now cooldown g t = refl

  won_tour :
      (now cooldown : ℕ) (g : Gate) (c : String) (cs : List String) (t : Tour)
      → DirectPhase (c ∷ cs) no_tour t
      → Toured now cooldown g c cs
          (finished now cooldown j g (if_some t.outcome (with_hop answer j c false t) (λ _. t)))
  unfolding with_hop
  won_tour now cooldown g c cs t (won before r later o split refused use_ here hops) = simp (here) (
      directly before r later o split refused use_ (made-finished now cooldown g t ∙ hops)
        (finished_served now cooldown g t o here))
  won_tour now cooldown g c cs t (lost refused here hops reached) =
      let t1 = with_hop answer j c false t in
      let made_here : (finished now cooldown j g t1).made ≡ first_hops c cs =
        made-finished now cooldown g t1 ∙ ap (λ hs. hs ++ ((c, hop_request j c false) ∷ [])) hops in
      simp (here) (elim (Option-cases (try_hop answer j c false).0) [
        | inl no_use ↦ gave_up refused no_use made_here (
            subst
              (λ b.
                Ended none (if b || (try_hop answer j c false).1 then trip now cooldown g else g)
                  (finished now cooldown j g t1))
              reached (finished_refused now cooldown g t1 no_use))
        | inr (o, use_) ↦ kept o refused use_ made_here (finished_served now cooldown g t1 o use_)
      ])

  pub toured-Toured :
      (now cooldown : ℕ) (g : Gate) (c : String) (cs : List String)
      → Toured now cooldown g c cs (toured answer now cooldown j g (c ∷ cs))
  unfolding toured tour
  toured-Toured now cooldown g c cs =
      won_tour now cooldown g c cs (direct_phase answer j (c ∷ cs) no_tour)
        (direct_phase-DirectPhase (c ∷ cs) no_tour refl)
