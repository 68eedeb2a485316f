-- ===== src/Dispatch/Recovery/Loops.antt =====
-- internal/dispatch/paged_recovery.go: refill and sweepSpilled. `store` answers QueuedPage, with none
-- for an error; `size` is the page size. A loop has fuel for its pages, and tells whether it ended.
use Prim.Native.String.{String}
use text.Mathlib.Text.{◌==◌ as str_eq}
use aquifer.Base.{
  ℕ, zero, suc, ◌+◌, ◌-◌, ◌*◌, ◌/◌, Bool, true, false, ◌&&◌, ◌||◌, Option, List, [], ◌∷◌, ◌++◌,
  length, ltb, ◌==◌, if◌then◌else◌, if_some, max,
}
use aquifer.Base.Int.{ℤ, pos, ◌-ℤ◌}
use aquifer.Jobs.Defs.{Job, PageCursor, cursor_at, queued_ttl, unix_milli}
use aquifer.Dispatch.Recovery.Defs.{
  SpillSource, PagedQueue, Loading, load_rows, Sweeping, sweep_rows, outstanding, spill_sweep_every,
  recent_page_window, refill_retry_every,
}

abbrev pub Store : Type 0
Store = String → PageCursor → ℕ → ℕ → Option (List Job)

-- The cursor after a page.
unfoldable pub last_cursor : PageCursor → List Job → PageCursor
last_cursor c [] = c
last_cursor c (j ∷ js) = last_cursor (cursor_at j) js

abbrev pub is_nonempty : List Job → Bool
is_nonempty [] = false
is_nonempty (j ∷ js) = true

-- Drops the first source, which has run dry, with what it reserved and never handed over.
unfoldable pub finish_spill : SpillSource → List SpillSource → PagedQueue → PagedQueue
finish_spill src rest q = record q { spills = rest; backlog = q.backlog -ℤ pos (outstanding src) }

-- The queue, its line and the number of jobs that it holds.
pub record Refilled : Type 0 where
  pub queue_after : PagedQueue
  pub line_after : List Job
  pub held_after : ℕ

-- The sources in turn: their new states, the backlog and the jobs that failed.
pub record Swept : Type 0 where
  pub swept_spills : List SpillSource
  pub left_backlog : ℤ
  pub all_failed : List Job
  pub ended : Bool

abbrev pub loading : SpillSource → Refilled → Loading
loading src r = record {
  source = src;
  held_ids = r.queue_after.present;
  counted_backlog = r.queue_after.backlog;
  line = r.line_after;
  held = r.held_after;
}

-- What the loop does with its variables after the rows of a page.
unfoldable pub after_page :
    ℕ → ℕ → SpillSource → List SpillSource → List Job → Refilled → Loading → Refilled
unfolding last_cursor finish_spill
after_page now size src rest page r l =
    let q = r.queue_after in
    let src' = record l.source { after = last_cursor src.after page } in
    let until =
      if str_eq src.source_key q.own_key && is_nonempty page
      then now + recent_page_window
      else q.paged_own_until in
    let q' = record q {
      spills = src' ∷ rest;
      present = l.held_ids;
      backlog = l.counted_backlog;
      paged_own_until = until;
    } in
    record {
      queue_after = if ltb (length page) size then finish_spill src' rest q' else q';
      line_after = l.line;
      held_after = l.held;
    }

abbrev pub failed_read : ℕ → Refilled → Refilled
failed_read now r = record r {
  queue_after = record r.queue_after { refill_retry_at = now + refill_retry_every };
}

module _ (id_le : String → String → Bool) where
  unfoldable pub load_page : ℕ → ℕ → SpillSource → List SpillSource → List Job → Refilled → Refilled
  unfolding load_rows after_page
  load_page now size src rest page r =
      after_page now size src rest page r (load_rows id_le page (loading src r))

  -- One turn of the loop over the sources that are left; `next` is the rest of the loop.
  unfoldable pub refill_turn :
      List SpillSource → Store → ℕ → ℕ → Refilled → (Refilled → Refilled × Bool) → Refilled × Bool
  unfolding load_page
  refill_turn [] store now size r next = (r, true)
  refill_turn (src ∷ rest) store now size r next =
      if ltb r.held_after (max (size / 4) 1)
      then if_some (store src.source_key src.after 0 size) (failed_read now r, true)
          (λ page. next (load_page now size src rest page r))
      else (r, true)

  unfoldable pub refill_loop : ℕ → Store → ℕ → ℕ → Refilled → Refilled × Bool
  unfolding refill_turn
  refill_loop zero store now size r = (r, false)
  refill_loop (suc fuel) store now size r =
      refill_turn r.queue_after.spills store now size r (refill_loop fuel store now size)

  unfoldable pub refill : ℕ → Store → ℕ → ℕ → Refilled → Refilled × Bool
  unfolding refill_loop
  refill fuel store now size r =
      if ltb now r.queue_after.refill_retry_at then (r, true) else refill_loop fuel store now size r

  -- One page of a sweep; `next` is the rest of the loop, from a cursor.
  unfoldable pub sweep_page :
      ℕ
      → ℕ
      → List String
      → PageCursor
      → List Job
      → Sweeping
      → (PageCursor → Sweeping → Sweeping × Bool)
      → Sweeping × Bool
  unfolding sweep_rows last_cursor
  sweep_page now size held_ids c page w next =
      let w' = sweep_rows id_le now held_ids page w in
      if ltb (length page) size then (w', true) else next (last_cursor c page) w'

  -- The pages of one source, from a cursor; a failed read ends them.
  unfoldable pub sweep_source :
      ℕ → Store → ℕ → ℕ → ℕ → List String → PageCursor → Sweeping → Sweeping × Bool
  unfolding sweep_page
  sweep_source zero store now before size held_ids c w = (w, false)
  sweep_source (suc fuel) store now before size held_ids c w =
      if_some (store w.swept_source.source_key c before size) (w, true)
        (λ page.
          sweep_page now size held_ids c page w (sweep_source fuel store now before size held_ids))

  unfoldable pub sweep_sources :
      ℕ → Store → ℕ → ℕ → ℕ → List String → List SpillSource → Swept → Swept
  unfolding sweep_source
  sweep_sources fuel store now before size held_ids [] t = t
  sweep_sources fuel store now before size held_ids (src ∷ srcs) t =
      let went = sweep_source fuel store now before size held_ids src.after (record {
        swept_source = src;
        swept_backlog = t.left_backlog;
        failed_jobs = t.all_failed;
      }) in
      sweep_sources fuel store now before size held_ids srcs (record {
        swept_spills = t.swept_spills ++ (went.0.swept_source ∷ []);
        left_backlog = went.0.swept_backlog;
        all_failed = went.0.failed_jobs;
        ended = t.ended && went.1;
      })

  -- The queue after a sweep, the jobs that failed in their order, and whether the loops ended.
  unfoldable pub sweep_spilled : ℕ → Store → ℕ → ℕ → PagedQueue → PagedQueue × (List Job × Bool)
  unfolding sweep_sources
  sweep_spilled fuel store now size q =
      if length q.spills == 0 || ltb (now - q.last_spill_sweep) spill_sweep_every
      then (q, ([], true))
      else let t =
          sweep_sources fuel store now (unix_milli (now - queued_ttl * 1_000_000)) size q.present
            q.spills
            (record {
              swept_spills = [];
              left_backlog = q.backlog;
              all_failed = [];
              ended = true;
            }) in
        (
          record q { spills = t.swept_spills; backlog = t.left_backlog; last_spill_sweep = now },
          (t.all_failed, t.ended),
        )
