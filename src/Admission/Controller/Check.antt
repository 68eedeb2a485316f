-- ===== src/Admission/Controller/Check.antt =====
-- internal/admission/admission.go: what `Check` decides, and what it does to the streak.
use aquifer.Base.{
  ℕ, ◌+◌, ◌≤◌, ◌<◌, ◌≡◌, refl, true, ◌&&◌, Option, none, some, arith, ltb, by_branch,
}
use aquifer.Admission.Controller.Defs.{
  Sampled, sampled_get, memory, db_size, sync_lag, Decision, Controller, Readings,
  memory_hard_limit, allowing, refusing, refused, admitted, finish, check_sync, check_db,
  check_memory, check,
}

-- The readings that the checks see: a sample is reused while it is fresh.
abbrev pub seen_memory : Readings → Controller → ℕ
seen_memory r c = (sampled_get r.now r.memory_mb c.mem_sample).0

abbrev pub seen_db : Readings → Controller → ℕ
seen_db r c = (sampled_get r.now r.db_bytes c.db_sample).0

abbrev pub OverMemory : Readings → Controller → Type 0
OverMemory r c = (0 < c.limits.memory_limit_mb) × (c.limits.memory_limit_mb < seen_memory r c)

abbrev pub OverDb : Readings → Controller → Type 0
OverDb r c = (0 < c.limits.db_max_bytes) × (c.has_db ≡ true) × (c.limits.db_max_bytes < seen_db r c)

abbrev pub OverLag : Readings → Controller → Type 0
OverLag r c = (0 < c.limits.max_sync_lag_ms) × (c.limits.max_sync_lag_ms < r.sync_lag_ms)

-- The outcomes of `Check`, with what each says of the readings and of the streak.
pub data Outcome (r : Readings) (c : Controller) (t : Controller × Decision) : Type 0 where
  allows :
      t.1 ≡ allowing
      → t.0.reject_streak ≡ 0
      → (¬ OverMemory r c) × (¬ OverDb r c) × (¬ OverLag r c)
      → Outcome r c t
  hard_memory :
      t.1 ≡ refusing memory c.limits.memory_limit_mb (seen_memory r c)
      → t.0.reject_streak ≡ c.reject_streak + 1
      → OverMemory r c
      → memory_hard_limit c.limits < seen_memory r c
      → Outcome r c t
  full_db :
      t.1 ≡ refusing db_size c.limits.db_max_bytes (seen_db r c)
      → t.0.reject_streak ≡ c.reject_streak + 1
      → OverDb r c
      → Outcome r c t
  late_sync :
      t.1 ≡ refusing sync_lag c.limits.max_sync_lag_ms r.sync_lag_ms
      → t.0.reject_streak ≡ c.reject_streak + 1
      → OverLag r c
      → Outcome r c t
  -- The caller decides by the job's target; the streak waits for what it does.
  soft_memory :
      t.1 ≡ record (refusing memory c.limits.memory_limit_mb (seen_memory r c)) { soft = true }
      → t.0.reject_streak ≡ c.reject_streak
      → OverMemory r c
      → seen_memory r c ≤ memory_hard_limit c.limits
      → (¬ OverDb r c) × (¬ OverLag r c)
      → Outcome r c t

-- How the checks after the memory's end, at the limits and the streak of `c`.
data Later (r : Readings) (c : Controller) (soft : Option Decision) (t : Controller × Decision)
    : Type 0 where
  db_over :
      t.1 ≡ refusing db_size c.limits.db_max_bytes (seen_db r c)
      → t.0.reject_streak ≡ c.reject_streak + 1
      → OverDb r c
      → Later r c soft t
  lag_over :
      t.1 ≡ refusing sync_lag c.limits.max_sync_lag_ms r.sync_lag_ms
      → t.0.reject_streak ≡ c.reject_streak + 1
      → OverLag r c
      → Later r c soft t
  passes :
      (c' : Controller)
      → t ≡ finish soft c'
      → c'.reject_streak ≡ c.reject_streak
      → ¬ OverDb r c
      → ¬ OverLag r c
      → Later r c soft t

check_sync-Later :
    (r : Readings) (soft : Option Decision) (c : Controller) (sample : Sampled)
    → ¬ OverDb r c
    → Later r c soft (check_sync r soft (record c { db_sample = sample }))
unfolding check_sync refused
check_sync-Later r soft c sample fits =
    by_branch (Later r c soft)
      (ltb 0 c.limits.max_sync_lag_ms && ltb c.limits.max_sync_lag_ms r.sync_lag_ms)
      (λ late. lag_over refl refl (ground arith))
      (λ fine. passes (record c { db_sample = sample }) refl refl fits (λ h. ground arith))

check_db-Later :
    (r : Readings) (soft : Option Decision) (c : Controller) → Later r c soft (check_db r soft c)
unfolding check_db refused
check_db-Later r soft c =
    by_branch (Later r c soft) (ltb 0 c.limits.db_max_bytes && c.has_db)
      (λ on.
        by_branch (Later r c soft) (ltb c.limits.db_max_bytes (seen_db r c))
          (λ over. db_over refl refl (ground arith))
          (λ fits. check_sync-Later r soft c _ (λ h. ground arith)))
      (λ off. check_sync-Later r soft c c.db_sample (λ h. ground arith))

-- The sample of the memory is nothing to the later checks.
Later-at :
    (r : Readings) (c : Controller) (soft : Option Decision) (sample : Sampled)
    (t : Controller × Decision)
    → Later r (record c { mem_sample = sample }) soft t
    → Later r c soft t
Later-at r c soft sample t (db_over e s o) = db_over e s o
Later-at r c soft sample t (lag_over e s o) = lag_over e s o
Later-at r c soft sample t (passes c' e s d l) = passes c' e s d l

Later-Outcome :
    (r : Readings) (c : Controller) (t : Controller × Decision)
    → ¬ OverMemory r c
    → Later r c none t
    → Outcome r c t
unfolding finish admitted
Later-Outcome r c t m (db_over e s o) = full_db e s o
Later-Outcome r c t m (lag_over e s o) = late_sync e s o
Later-Outcome r c t m (passes c' e s d l) = rw e (allows refl refl (m, d, l))

abbrev soft_decision : Readings → Controller → Decision
soft_decision r c = record (refusing memory c.limits.memory_limit_mb (seen_memory r c)) {
  soft = true;
}

Later-Outcome_soft :
    (r : Readings) (c : Controller) (t : Controller × Decision)
    → OverMemory r c
    → seen_memory r c ≤ memory_hard_limit c.limits
    → Later r c (some (soft_decision r c)) t
    → Outcome r c t
unfolding finish
Later-Outcome_soft r c t m h (db_over e s o) = full_db e s o
Later-Outcome_soft r c t m h (lag_over e s o) = late_sync e s o
Later-Outcome_soft r c t m h (passes c' e s d l) = rw e (soft_memory refl s m h (d, l))

-- One call of `Check` either allows the job, with no limit passed, and the streak starts over; or
-- refuses it for memory past the hard limit, for the database or for the lag of the syncs, each
-- only when that limit is passed, and the streak grows by one; or, with memory between its two
-- limits and the other two in order, leaves the job to the caller and the streak as it is. What
-- is reported is the limit and the reading that passed it.
pub check-Outcome : (r : Readings) (c : Controller) → Outcome r c (check r c)
unfolding check check_memory refused
check-Outcome r c =
    let sampled : Controller = record c {
      mem_sample = (sampled_get r.now r.memory_mb c.mem_sample).1;
    } in
    by_branch (Outcome r c) (ltb 0 c.limits.memory_limit_mb)
      (λ on.
        by_branch (Outcome r c) (ltb c.limits.memory_limit_mb (seen_memory r c))
          (λ over.
            by_branch (Outcome r c) (ltb (memory_hard_limit c.limits) (seen_memory r c))
              (λ hard. hard_memory refl refl (ground arith) (ground arith))
              (λ soft. Later-Outcome_soft r c _ (ground arith) (ground arith) (
                Later-at r c (some (soft_decision r c)) sampled.mem_sample _
                  (check_db-Later r (some (soft_decision r c)) sampled))))
          (λ fits.
            Later-Outcome r c _ (λ h. ground arith)
              (Later-at r c none sampled.mem_sample _ (check_db-Later r none sampled))))
      (λ off. Later-Outcome r c _ (λ h. ground arith) (check_db-Later r none c))
