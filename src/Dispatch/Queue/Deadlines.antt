-- ===== src/Dispatch/Queue/Deadlines.antt =====
-- internal/dispatch/account_queue.go: `nextDeadline`, the end of the dispatch loop, and what is sent.
use aquifer.Base.{
  ℕ, ◌≤◌, ◌<◌, ◌≡◌, Bool, true, false, ◌||◌, none, List, [], ◌∷◌, ltb, ◌==◌, if◌then◌else◌, arith,
  both_branches, by_branch, ◌⊎◌, length, All,
}
use aquifer.Jobs.Defs.{Job, queue_deadline, queue_expired, unix_milli}
use aquifer.Dispatch.Execute.Effects.{Effect, Outside}
use aquifer.Dispatch.Queue.Defs.{
  Ledger, Swept, sweep, track_deadline, track_all, drop_expired_jobs, expire,
}

-- `next` is no later than the job's deadline, if it has one.
abbrev pub Covers : ℕ → Job → Type 0
Covers next j = (queue_deadline j ≡ 0) ⊎ ((0 < next) × (next ≤ queue_deadline j))

-- The deadline that the queue keeps is no later than that of any of its jobs.
abbrev pub Tracks : ℕ → List Job → Type 0
Tracks next = All (Covers next)

pub track_deadline-Covers : (j : Job) (next : ℕ) → Covers (track_deadline j next) j
unfolding track_deadline
track_deadline-Covers j next = ground arith

track_deadline-keeps : (j k : Job) (next : ℕ) → Covers next k → Covers (track_deadline j next) k
unfolding track_deadline
track_deadline-keeps j k next h = ground arith

track_all-keeps :
    (js : List Job) (k : Job) (next : ℕ) → Covers next k → Covers (track_all js next) k
unfolding track_all
track_all-keeps [] k next h = h
track_all-keeps (j ∷ js) k next h =
    track_all-keeps js k (track_deadline j next) (track_deadline-keeps j k next h)

pub track_deadline-keeps_all :
    (j : Job) (ks : List Job) (next : ℕ) → Tracks next ks → Tracks (track_deadline j next) ks
track_deadline-keeps_all j [] next h = tt
track_deadline-keeps_all j (k ∷ ks) next h =
    (track_deadline-keeps j k next h.0, track_deadline-keeps_all j ks next h.1)

pub track_all-keeps_all :
    (js ks : List Job) (next : ℕ) → Tracks next ks → Tracks (track_all js next) ks
track_all-keeps_all js [] next h = tt
track_all-keeps_all js (k ∷ ks) next h =
    (track_all-keeps js k next h.0, track_all-keeps_all js ks next h.1)

pub track_all-Tracks : (js : List Job) (next : ℕ) → Tracks (track_all js next) js
unfolding track_all
track_all-Tracks [] next = tt
track_all-Tracks (j ∷ js) next = (
  track_all-keeps js j (track_deadline j next) (track_deadline-Covers j next),
  track_all-Tracks js (track_deadline j next),
)

due_now :
    (now : ℕ) (j : Job) (next : ℕ)
    → queue_expired j now ≡ true
    → Covers next j
    → (next == 0 || ltb (unix_milli now) next) ≡ false
unfolding queue_expired
due_now now j next h c = ground arith

module _ (o : Outside) where
  sweep-shrinks :
      {A : Type 0} (gone : A → Bool) (go : A → Ledger → Ledger × List Effect) (xs : List A)
      (l : Ledger)
      → length (sweep o gone go xs l).kept ≤ length xs
  unfolding sweep
  sweep-shrinks gone go [] l = omega arith
  sweep-shrinks gone go (x ∷ xs) l =
      let (l', es) = (if gone x then go x l else (l, [])) in
      ground (arith, sweep-shrinks gone go xs l')

  -- Where the head has expired and the deadlines are tracked, a sweep lets it go.
  pub drop_expired_jobs-shrinks :
      (now : ℕ) (j : Job) (js : List Job) (next : ℕ) (l : Ledger)
      → queue_expired j now ≡ true
      → Covers next j
      → length ((drop_expired_jobs o now (j ∷ js) next l).1).kept ≤ length js
  unfolding drop_expired_jobs
  drop_expired_jobs-shrinks now j js next l h c =
      by_branch (λ (r : ℕ × Swept Job). length (r.1).kept ≤ length js)
        (next == 0 || ltb (unix_milli now) next)
        (λ k. absurd (ground (arith, k, due_now now j next h c)))
        (λ k. rw h (sweep-shrinks (λ i. queue_expired i now) (λ i. expire o now i none) js _))

  pub drop_expired_jobs-Tracks :
      (now : ℕ) (js : List Job) (next : ℕ) (l : Ledger)
      → Tracks next js
      → let r = drop_expired_jobs o now js next l in Tracks r.0 (r.1).kept
  unfolding drop_expired_jobs
  drop_expired_jobs-Tracks now [] next l h = tt
  drop_expired_jobs-Tracks now (j ∷ js) next l h =
      both_branches (λ (r : ℕ × Swept Job). Tracks r.0 (r.1).kept)
        (next == 0 || ltb (unix_milli now) next) h
        (track_all-Tracks
          (sweep o (λ i. queue_expired i now) (λ i. expire o now i none) (j ∷ js) l).kept 0)
