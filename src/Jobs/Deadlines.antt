-- ===== src/Jobs/Deadlines.antt =====
-- internal/jobs/job.go: how the deadlines of a job fit together.
use Prim.Native.String.{String}
use aquifer.Base.{ℕ, ◌+◌, ◌≤◌, ◌<◌, ◌≡◌, ◌↔◌, ◌⊎◌, inl, inr, Bool, true, false, arith}
use aquifer.Jobs.Defs.{
  Job, retry_deadline, execution_expired, queue_deadline, queue_expired, pending_expires_at,
  queued_ttl, pending_row_grace, unix_milli, cursor_at, covers,
}

-- A job that has a deadline may be retried at a time before its retry deadline exactly when it will
-- not have expired in the queue by then: no retry is scheduled that the queue would drop.
pub retry_before_iff :
    (j : Job) (at : ℕ)
    → 0 < queue_deadline j
    → (at < retry_deadline j) ↔ (queue_expired j at ≡ false)
unfolding queue_deadline retry_deadline queue_expired
retry_before_iff j at h = (λ k. ground arith, λ k. ground arith)

-- Once a job has expired it stays expired, and one whose own deadline has passed has expired.
pub queue_expired_mono :
    (j : Job) (now later : ℕ)
    → now ≤ later
    → (queue_expired j now ≡ true) ⊎ (execution_expired j now ≡ true)
    → queue_expired j later ≡ true
unfolding queue_expired execution_expired
queue_expired_mono j now later h (inl e) = ground arith
queue_expired_mono j now later h (inr e) = ground arith

-- A pending job's stored row is kept for at least a quarter of an hour after the job expires in
-- the queue, and a day from the write.
pub row_outlives_job :
    (j : Job) (now : ℕ)
    → (queue_deadline j + pending_row_grace ≤ pending_expires_at j now)
      × (unix_milli now + queued_ttl + pending_row_grace ≤ pending_expires_at j now)
unfolding pending_expires_at
row_outlives_job j now = (ground arith, ground arith)

-- Jobs are paged in the order of their creation times and then their ids: where ids are totally
-- ordered, of two jobs one is at or before the other's position, and a page's position covers what
-- an earlier position covers.
module _ (id_le : String → String → Bool)
    (id_total : (x y : String) → (id_le x y ≡ true) ⊎ (id_le y x ≡ true))
    (id_trans : (x y z : String) → id_le x y ≡ true → id_le y z ≡ true → id_le x z ≡ true) where
  pub covers_total :
      (j k : Job) → (covers id_le (cursor_at k) j ≡ true) ⊎ (covers id_le (cursor_at j) k ≡ true)
  unfolding covers cursor_at
  covers_total j k = grind (arith, id_total j.id k.id)

  pub covers_trans :
      (j k l : Job)
      → covers id_le (cursor_at k) j ≡ true
      → covers id_le (cursor_at l) k ≡ true
      → covers id_le (cursor_at l) j ≡ true
  unfolding covers cursor_at
  covers_trans j k l h h' = ground (arith, id_trans j.id k.id l.id)
