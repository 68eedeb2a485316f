-- ===== src/Dispatch/Recovery/Sweeps.antt =====
-- internal/dispatch/paged_recovery.go, sweepSpilled: which jobs fail, and what the backlog loses.
use Prim.Native.String.{String}
use aquifer.Base.{
  ℕ, zero, suc, ◌-◌, ◌*◌, ◌≡◌, inl, inr, Bool, true, false, not, ◌||◌, List, [], ◌∷◌, length,
  length-append, All, All-append, arith, ltb, ◌==◌, if_some-keeps, both_branches, Bool-cases,
}
use aquifer.Base.Int.{ℤ, ◌-ℤ◌}
use aquifer.Jobs.Defs.{Job, PageCursor, queue_expired, unix_milli, queued_ttl}
use aquifer.Dispatch.Recovery.Defs.{
  SpillSource, PagedQueue, Sweeping, sweep_row, sweep_rows, is_in, spill_sweep_every,
}
use aquifer.Dispatch.Recovery.Loops.{
  Store, Swept, sweep_page, sweep_source, sweep_sources, sweep_spilled, last_cursor,
}
use aquifer.Dispatch.Recovery.Balance.{Level}

-- A job that a sweep may fail: it has expired, and the queue does not hold it.
abbrev pub Due : ℕ → List String → Job → Type 0
Due now held_ids j = (is_in j.id held_ids ≡ false) × (queue_expired j now ≡ true)

-- The failed jobs were due, and the backlog lost one for each.
abbrev pub Failed : ℕ → List String → ℤ → ℤ → List Job → Type 0
Failed now held_ids start left failed =
    All (Due now held_ids) failed × Level left (length failed) start 0

module _ (id_le : String → String → Bool) (now : ℕ) (held_ids : List String) (start : ℤ) where
  sweep_row-Failed :
      (j : Job) (w : Sweeping)
      → Failed now held_ids start w.swept_backlog w.failed_jobs
      → let w' = sweep_row id_le now held_ids j w in
        Failed now held_ids start w'.swept_backlog w'.failed_jobs
  unfolding sweep_row ◌-ℤ◌
  sweep_row-Failed j w f = elim (Bool-cases (is_in j.id held_ids || not (queue_expired j now))) [
    | inl kept ↦ rw kept f
    | inr due ↦ rw due (
      All-append (Due now held_ids) w.failed_jobs (j ∷ []) f.0 ((ground arith, ground arith), tt),
      ground (arith, f.1, length-append w.failed_jobs (j ∷ [])),
    )
  ]

  sweep_rows-Failed :
      (js : List Job) (w : Sweeping)
      → Failed now held_ids start w.swept_backlog w.failed_jobs
      → let w' = sweep_rows id_le now held_ids js w in
        Failed now held_ids start w'.swept_backlog w'.failed_jobs
  unfolding sweep_rows
  sweep_rows-Failed [] w f = f
  sweep_rows-Failed (j ∷ js) w f =
      sweep_rows-Failed js (sweep_row id_le now held_ids j w) (sweep_row-Failed j w f)

  sweep_source-Failed :
      (fuel : ℕ) (store : Store) (before size : ℕ) (c : PageCursor) (w : Sweeping)
      → Failed now held_ids start w.swept_backlog w.failed_jobs
      → let w' = (sweep_source id_le fuel store now before size held_ids c w).0 in
        Failed now held_ids start w'.swept_backlog w'.failed_jobs
  unfolding sweep_source sweep_page
  sweep_source-Failed zero store before size c w f = f
  sweep_source-Failed (suc fuel) store before size c w f =
      let P : Sweeping × Bool → Type 0 =
        λ r. Failed now held_ids start r.0.swept_backlog r.0.failed_jobs in
      if_some-keeps P (store w.swept_source.source_key c before size) _ (λ _. f)
        (λ page _.
          let f' = sweep_rows-Failed page w f in
          both_branches P (ltb (length page) size) f'
            (sweep_source-Failed fuel store before size (last_cursor c page) _ f'))

  sweep_sources-Failed :
      (fuel : ℕ) (store : Store) (before size : ℕ) (srcs : List SpillSource) (t : Swept)
      → Failed now held_ids start t.left_backlog t.all_failed
      → let t' = sweep_sources id_le fuel store now before size held_ids srcs t in
        Failed now held_ids start t'.left_backlog t'.all_failed
  unfolding sweep_sources
  sweep_sources-Failed fuel store before size [] t f = f
  sweep_sources-Failed fuel store before size (src ∷ srcs) t f =
      sweep_sources-Failed fuel store before size srcs _
        (sweep_source-Failed fuel store before size src.after _ f)

-- A sweep of the jobs on disk fails only jobs that have expired and that the queue does not hold, and
-- the backlog loses exactly one for each, also where reads fail.
pub sweep_spilled-Failed :
    (id_le : String → String → Bool) (fuel : ℕ) (store : Store) (now size : ℕ) (q : PagedQueue)
    → let r = sweep_spilled id_le fuel store now size q in
      All (Due now q.present) r.1.0 × Level r.0.backlog (length r.1.0) q.backlog 0
unfolding sweep_spilled
sweep_spilled-Failed id_le fuel store now size q =
    elim (Bool-cases (length q.spills == 0 || ltb (now - q.last_spill_sweep) spill_sweep_every)) [
      | inl idle ↦ rw idle (tt, omega arith)
      | inr due ↦ rw due (
          sweep_sources-Failed id_le now q.present q.backlog fuel store
            (unix_milli (now - queued_ttl * 1_000_000)) size q.spills _ (tt, omega arith))
    ]
