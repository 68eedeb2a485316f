-- ===== src/Dispatch/Queue/Counts.antt =====
-- internal/dispatch/account_queue.go: the counters of a queue through the sweeps.
use aquifer.Base.{
  ℕ, suc, ◌+◌, ◌/◌, ◌≡◌, sym, Bool, true, false, ◌||◌, Option, none, some, List, [], ◌∷◌, ltb, ◌==◌,
  if◌then◌else◌, arith, both_branches, length, All,
}
use aquifer.Base.Int.{pos, ◌-ℤ◌}
use aquifer.Jobs.Defs.{Job, queue_expired, unix_milli}
use aquifer.Dispatch.Target.Defs.{release_backlog, mark_served, failing_for}
use aquifer.Dispatch.Execute.Effects.{Effect, FailReason, Outside, target_unavailable}
use aquifer.Dispatch.Queue.Defs.{
  Ledger, Swept, WaitingJob, sweep, leave, drop, expire, fail_dead, is_nil, drop_expired_jobs,
  drop_expired_waiting, fail_dead_target,
}

-- The queue holds `held` jobs, by its counter, out of `total` that were ever counted: the rest was
-- served.
pub record Balanced (held total : ℕ) (l : Ledger) : Type 0 where
  pub counted : l.counters.backlog ≡ pos held
  pub accounted : l.counters.served + held ≡ total

pub rebalance : (n m t : ℕ) (l : Ledger) → n ≡ m → Balanced n t l → Balanced m t l
rebalance n m t l e b = record {
  counted = rw (sym e) b.counted;
  accounted = rw (sym e) b.accounted;
}

swap : (n k m t : ℕ) (l : Ledger) → Balanced (n + (k + m)) t l → Balanced (k + (n + m)) t l
swap n k m t l b = rebalance (n + (k + m)) (k + (n + m)) t l (omega arith) b

pub leave-Balanced :
    (j : Job) (l : Ledger) (n t : ℕ) → Balanced (suc n) t l → Balanced n t (leave j l)
unfolding leave drop release_backlog mark_served ◌-ℤ◌
leave-Balanced j l n t b = record {
  counted = rw b.counted (ground arith);
  accounted = omega (arith, b.accounted);
}

-- The same for what a sweep does with a job that it lets go.
abbrev pub Leaves : {A : Type 0} → (A → Ledger → Ledger × List Effect) → Type 0
Leaves {A} go = (x : A) (l : Ledger) (n t : ℕ) → Balanced (suc n) t l → Balanced n t (go x l).0

module _ (o : Outside) where
  expire-Leaves : (now : ℕ) (last : Option FailReason) → Leaves (λ (j : Job). expire o now j last)
  unfolding expire
  expire-Leaves now last j l n t b = leave-Balanced j l n t b

  fail_dead-Leaves : (why : FailReason) → Leaves (fail_dead o why)
  unfolding fail_dead
  fail_dead-Leaves why j l n t b = leave-Balanced j l n t b

  sweep_step :
      {A : Type 0} (b : Bool) (gone : A → Bool) (go : A → Ledger → Ledger × List Effect) (x : A)
      (xs : List A) (l : Ledger) (m t : ℕ)
      → Leaves go
      → Balanced (suc (length xs + m)) t l
      → ((l' : Ledger) (m' : ℕ)
          → Balanced (length xs + m') t l'
          → Balanced (length (sweep o gone go xs l').kept + m') t (sweep o gone go xs l').ledger)
      → let rest = sweep o gone go xs (if b then go x l else (l, [])).0 in
        Balanced (length (if b then rest.kept else x ∷ rest.kept) + m) t rest.ledger
  sweep_step true gone go x xs l m t lv b ih = ih (go x l).0 m (lv x l (length xs + m) t b)
  sweep_step false gone go x xs l m t lv b ih =
      rebalance _ _ t _ (omega arith) (ih l (suc m) (rebalance _ _ t l (omega arith) b))

  pub sweep-Balanced :
      {A : Type 0} (gone : A → Bool) (go : A → Ledger → Ledger × List Effect) (xs : List A)
      (l : Ledger) (m t : ℕ)
      → Leaves go
      → Balanced (length xs + m) t l
      → let r = sweep o gone go xs l in Balanced (length r.kept + m) t r.ledger
  unfolding sweep
  sweep-Balanced gone go [] l m t lv b = b
  sweep-Balanced gone go (x ∷ xs) l m t lv b =
      sweep_step (gone x) gone go x xs l m t lv (rebalance _ _ t l (omega arith) b)
        (λ l' m'. sweep-Balanced gone go xs l' m' t lv)

  pub drop_expired_jobs-Balanced :
      (now : ℕ) (js : List Job) (next : ℕ) (l : Ledger) (m t : ℕ)
      → Balanced (length js + m) t l
      → let r = drop_expired_jobs o now js next l in Balanced (length (r.1).kept + m) t (r.1).ledger
  unfolding drop_expired_jobs
  drop_expired_jobs-Balanced now js next l m t b =
      both_branches (λ (r : ℕ × Swept Job). Balanced (length (r.1).kept + m) t (r.1).ledger)
        (is_nil js) b
        (both_branches (λ (r : ℕ × Swept Job). Balanced (length (r.1).kept + m) t (r.1).ledger)
          (next == 0 || ltb (unix_milli now) next) b
          (sweep-Balanced (λ i. queue_expired i now) (λ i. expire o now i none) js l m t
            (expire-Leaves now none) b))

  pub drop_expired_waiting-Balanced :
      (now : ℕ) (ws : List WaitingJob) (l : Ledger) (m t : ℕ)
      → Balanced (length ws + m) t l
      → let r = drop_expired_waiting o now ws l in Balanced (length r.kept + m) t r.ledger
  unfolding drop_expired_waiting
  drop_expired_waiting-Balanced now ws l m t b =
      sweep-Balanced _ _ ws l m t (λ w. expire-Leaves now (some w.reason) w.held) b

  pub fail_dead_target-Balanced :
      (limit now : ℕ) (js : List Job) (ws : List WaitingJob) (l : Ledger) (m t : ℕ)
      → Balanced (length js + (length ws + m)) t l
      → let (r, r') = fail_dead_target o limit now js ws l in
        Balanced (length r.kept + (length r'.kept + m)) t r'.ledger
  unfolding fail_dead_target
  fail_dead_target-Balanced limit now js ws l m t b =
      let why = target_unavailable (failing_for now l.health / 1_000_000_000) in
      let first = sweep-Balanced _ _ js l (length ws + m) t (fail_dead-Leaves why) b in
      swap _ _ m t _ (
        sweep-Balanced _ _ ws _ (_ + m) t (λ w. fail_dead-Leaves why w.held) (swap _ _ m t _ first))

  -- A sweep keeps some of the list.
  pub sweep-All :
      {A : Type 0} (P : A → Type 0) (gone : A → Bool) (go : A → Ledger → Ledger × List Effect)
      (xs : List A) (l : Ledger)
      → All P xs
      → All P (sweep o gone go xs l).kept
  unfolding sweep
  sweep-All P gone go [] l h = tt
  sweep-All P gone go (x ∷ xs) l h =
      both_branches (All P) (gone x) (sweep-All P gone go xs _ h.1)
        (h.0, sweep-All P gone go xs _ h.1)

  pub fail_dead_target-All :
      (P : Job → Type 0) (limit now : ℕ) (js : List Job) (ws : List WaitingJob) (l : Ledger)
      → All P js
      → All P ((fail_dead_target o limit now js ws l).0).kept
  unfolding fail_dead_target
  fail_dead_target-All P limit now js ws l h = sweep-All P _ _ js l h
