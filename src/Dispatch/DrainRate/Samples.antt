-- ===== src/Dispatch/DrainRate/Samples.antt =====
-- internal/dispatch/drain_rate.go: which samples make a rate, and when a target may be stuck.
use aquifer.Base.{
  ◌&&◌, ℕ, ◌-◌, ◌<◌, ◌≡◌, refl, Bool, true, false, not, Option, none, some, List, [], ◌∷◌, ◌==◌,
  arith, by_branch,
}
use aquifer.Base.Float.{FloatArith, flit, fle}
use aquifer.Dispatch.DrainRate.Defs.{
  DrainTracker, seconds, sample_since, sample_from, sample_drain, backlog_stuck,
}

pub record Sample : Type 0 where
  pub now : ℕ
  pub served : ℕ
  pub backlog : ℕ

module _ (a : FloatArith) (fresh : DrainTracker a)
    (positive : (d : ℕ) → 0 < d → fle a (seconds a d) (flit a 0 0) ≡ false) where
  -- The history of samples, with its newest first.
  unfoldable pub sampled_all : List Sample → DrainTracker a
  unfolding sample_drain
  sampled_all [] = fresh
  sampled_all (s ∷ ss) = sample_drain a s.now s.served s.backlog (sampled_all ss)

  -- Time goes forward from each sample to the next.
  abbrev pub Forward : List Sample → Type 0
  Forward [] = Unit
  Forward (s ∷ []) = Unit
  Forward (s ∷ t ∷ ss) = (t.now < s.now) × Forward (t ∷ ss)

  -- The tracker holds the newest sample.
  abbrev Holds : Sample → DrainTracker a → Type 0
  Holds s d = (d.last_at ≡ some s.now) × (d.last_served ≡ s.served)

  after_since :
      (s t : Sample) (d : DrainTracker a)
      → t.now < s.now
      → let d' = sample_since a t.now s.now s.served d in Holds s d' × (d'.sampled ≡ true)
  unfolding sample_since
  after_since s t d later = rw (positive (s.now - t.now) (omega arith)) ((refl, refl), refl)

  after_sample :
      (s t : Sample) (d : DrainTracker a) (m : Option ℕ)
      → m ≡ some t.now
      → t.now < s.now
      → let d' = sample_from a m s.now s.served s.backlog d in
        Holds s d' × (d'.sampled ≡ not (s.backlog == 0))
  unfolding sample_from
  after_sample s t d m h later = rw h (
      by_branch (λ (d' : DrainTracker a). Holds s d' × (d'.sampled ≡ not (s.backlog == 0)))
        (s.backlog == 0) (λ e. ((refl, refl), rw e refl))
        (λ e. ((after_since s t d later).0, rw e (after_since s t d later).1)))

  -- Whether a history makes a rate: its newest sample found work and is not the first.
  abbrev pub is_measured : List Sample → Bool
  is_measured [] = false
  is_measured (s ∷ []) = false
  is_measured (s ∷ t ∷ ss) = not (s.backlog == 0)

  first_sample :
      (s : Sample) (m : Option ℕ)
      → m ≡ none
      → let d' = sample_from a m s.now s.served s.backlog fresh in Holds s d' × (d'.sampled ≡ false)
  unfolding sample_from
  first_sample s m h = rw h ((refl, refl), refl)

  Holds-newest :
      (s : Sample) (ss : List Sample)
      → fresh.last_at ≡ none
      → Forward (s ∷ ss)
      → Holds s (sampled_all (s ∷ ss)) × ((sampled_all (s ∷ ss)).sampled ≡ is_measured (s ∷ ss))
  unfolding sampled_all sample_drain
  Holds-newest s [] h f = first_sample s fresh.last_at h
  Holds-newest s (t ∷ ss) h f =
      after_sample s t (sampled_all (t ∷ ss)) (sampled_all (t ∷ ss)).last_at
        ((Holds-newest t ss h f.1).0).0 f.0

  -- A target's rate counts as measured exactly when the newest sample found work and was not the
  -- first one: a target that was just seen idle, or only seen once, is never stuck, whatever its
  -- backlog and its rate from before.
  pub stuck_if_measured :
      (backlog limit : ℕ) (ss : List Sample)
      → fresh.last_at ≡ none
      → fresh.sampled ≡ false
      → Forward ss
      → ((sampled_all ss).sampled ≡ is_measured ss)
        × ((backlog_stuck a backlog limit (sampled_all ss) && not (is_measured ss)) ≡ false)
  unfolding sampled_all backlog_stuck
  stuck_if_measured backlog limit ss h k f = let e = measured ss f in (e, ground (arith, e))
    where
      measured : (ts : List Sample) → Forward ts → (sampled_all ts).sampled ≡ is_measured ts
      measured [] g = k
      measured (s ∷ rest) g = (Holds-newest s rest h g).1
