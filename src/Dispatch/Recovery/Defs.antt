-- ===== src/Dispatch/Recovery/Defs.antt =====
-- internal/dispatch/paged_recovery.go: the sources of jobs on disk, hand-offs and one page of rows.
-- `id_le` is `<=` on ids, byte by byte; times are in nanoseconds but for the cutoff, in Unix
-- milliseconds. The deadline that the run loop keeps and the depth that it reports are left to it.
use Prim.Native.String.{String}
use text.Mathlib.Text.{◌==◌ as str_eq}
use aquifer.Base.{
  ℕ, ◌+◌, ◌-◌, Bool, true, false, not, ◌&&◌, ◌||◌, Option, none, some, List, [], ◌∷◌, ◌++◌, map,
  ltb, if◌then◌else◌, if_some,
}
use aquifer.Base.Int.{ℤ, pos, negsuc, ◌+ℤ◌, ◌-ℤ◌}
use aquifer.Jobs.Defs.{Job, Status, queued, PageCursor, covers, queue_expired}

abbrev pub default_recovery_page_size : ℕ
default_recovery_page_size = 1_000

-- The setting, as `env.Int64` reads it.
unfoldable pub recovery_page_size : ℤ → ℕ
recovery_page_size (pos n) = if ltb 0 n then n else default_recovery_page_size
recovery_page_size (negsuc n) = default_recovery_page_size

-- A minute, five minutes and a second.
abbrev pub spill_sweep_every : ℕ
spill_sweep_every = 60_000_000_000

abbrev pub recent_page_window : ℕ
recent_page_window = 300_000_000_000

abbrev pub refill_retry_every : ℕ
refill_retry_every = 1_000_000_000

abbrev pub no_cursor : PageCursor
no_cursor = record { cursor_created_at = 0; cursor_id = "" }

pub record SpillSource : Type 0 where
  pub source_key : String
  pub after : PageCursor
  pub reserved : ℕ
  pub consumed : ℕ
  pub cutoff : ℕ
  pub consumed_through : PageCursor

-- The fields of a queue that paging uses; `own_key` is its store key.
pub record PagedQueue : Type 0 where
  pub own_key : String
  pub spill_pending : List SpillSource
  pub spills : List SpillSource
  pub present : List String
  pub backlog : ℤ
  pub paged_own_until : ℕ
  pub refill_retry_at : ℕ
  pub last_spill_sweep : ℕ

abbrev pub is_in : String → List String → Bool
is_in id [] = false
is_in id (x ∷ xs) = str_eq x id || is_in id xs

unfoldable pub without : String → List String → List String
without id [] = []
without id (x ∷ xs) = if str_eq x id then without id xs else x ∷ without id xs

unfoldable pub hold : Job → PagedQueue → PagedQueue
hold j q = if is_in j.id q.present then q else record q { present = j.id ∷ q.present }

unfoldable pub drop : Job → PagedQueue → PagedQueue
unfolding without
drop j q = record q { present = without j.id q.present }

unfoldable pub attach_spill : String → PageCursor → ℕ → ℕ → PagedQueue → PagedQueue
attach_spill key after remaining cutoff q =
    let src : SpillSource = record {
      source_key = key;
      after = after;
      reserved = remaining;
      consumed = 0;
      cutoff = cutoff;
      consumed_through = no_cursor;
    } in
    record q { backlog = q.backlog +ℤ pos remaining; spill_pending = q.spill_pending ++ (src ∷ []) }

unfoldable pub take_spills : PagedQueue → PagedQueue
take_spills q = record q { spill_pending = []; spills = q.spills ++ q.spill_pending }

-- A job at a cursor, of which only the time and the id matter.
abbrev pub job_at : PageCursor → Job
job_at c = record {
  id = c.cursor_id;
  user_id = "";
  idempotent_key = "";
  url = "";
  pool_id = "";
  method = "";
  body = "";
  webhook_url = "";
  kind = "";
  status = queued;
  created_at = c.cursor_created_at;
  execute_before = 0;
  idempotency_scope = "";
  max_retries = pos 0;
  attempts = 0;
  webhook_max_retries = none;
  dedup_cache = "";
}

abbrev pub has_key : String → List SpillSource → Bool
has_key own [] = false
has_key own (src ∷ srcs) = str_eq src.source_key own || has_key own srcs

abbrev pub own_source : String → SpillSource
own_source own = record {
  source_key = own;
  after = no_cursor;
  reserved = 0;
  consumed = 0;
  cutoff = 0;
  consumed_through = no_cursor;
}

-- The cursor of the queue's own key while jobs under it are on disk.
unfoldable pub own_spill : String → List SpillSource → Option PageCursor
own_spill own [] = none
own_spill own (src ∷ srcs) =
    if str_eq src.source_key own then some src.after else own_spill own srcs

-- A page in the loading: its source, what the queue holds, its backlog and the jobs in line.
pub record Loading : Type 0 where
  pub source : SpillSource
  pub held_ids : List String
  pub counted_backlog : ℤ
  pub line : List Job
  pub held : ℕ

abbrev pub consume : Bool → SpillSource → SpillSource
consume counted src = if counted then record src { consumed = src.consumed + 1 } else src

-- What a source reserved and has not handed over.
abbrev pub outstanding : SpillSource → ℕ
outstanding src = src.reserved - src.consumed

-- One expired job on disk fails: its backlog count is the source's, or its own.
pub record Sweeping : Type 0 where
  pub swept_source : SpillSource
  pub swept_backlog : ℤ
  pub failed_jobs : List Job

module _ (id_le : String → String → Bool) where
  -- Whether a job is one of those that the source has reserved in the backlog.
  unfoldable pub counts : SpillSource → Job → Bool
  counts src j =
      ltb j.created_at src.cutoff
      && not (covers id_le src.consumed_through j)
      && ltb src.consumed src.reserved

  unfoldable pub restarted : SpillSource → SpillSource
  restarted src = record src {
    consumed_through =
        if covers id_le src.consumed_through (job_at src.after)
        then src.consumed_through
        else src.after;
    after = no_cursor;
  }

  unfoldable pub reload_after_panic : ℕ → PagedQueue → PagedQueue
  unfolding take_spills restarted
  reload_after_panic now q =
      let taken = take_spills q in
      let again = map restarted taken.spills in
      record taken {
        spills =
            if has_key q.own_key taken.spills then again else again ++ (own_source q.own_key ∷ []);
        present = [];
        paged_own_until = now + recent_page_window;
      }

  -- `stored` is the status that the store has for the job, if it has the job.
  unfoldable pub accept_handoff : ℕ → (String → Option Status) → Job → PagedQueue → Bool
  unfolding own_spill
  accept_handoff now stored j q =
      if is_in j.id q.present
      then false
      else if if_some (own_spill q.own_key q.spills) false (λ c. not (covers id_le c j))
      then false
      else if ltb now q.paged_own_until
      then if_some (stored j.id) true (λ st. elim st [ queued ↦ true | _ ↦ false ])
      else true

  unfoldable pub load_row : Job → Loading → Loading
  unfolding counts
  load_row j l =
      let counted = counts l.source j in
      if is_in j.id l.held_ids
      then record l {
        source = consume counted l.source;
        counted_backlog = if counted then l.counted_backlog -ℤ pos 1 else l.counted_backlog;
      }
      else record l {
        source = consume counted l.source;
        held_ids = j.id ∷ l.held_ids;
        line = l.line ++ (j ∷ []);
        held = l.held + 1;
      }

  unfoldable pub load_rows : List Job → Loading → Loading
  unfolding load_row
  load_rows [] l = l
  load_rows (j ∷ js) l = load_rows js (load_row j l)

  unfoldable pub sweep_row : ℕ → List String → Job → Sweeping → Sweeping
  unfolding counts
  sweep_row now held_ids j w =
      if is_in j.id held_ids || not (queue_expired j now) then w else record {
        swept_source = consume (counts w.swept_source j) w.swept_source;
        swept_backlog = w.swept_backlog -ℤ pos 1;
        failed_jobs = w.failed_jobs ++ (j ∷ []);
      }

  unfoldable pub sweep_rows : ℕ → List String → List Job → Sweeping → Sweeping
  unfolding sweep_row
  sweep_rows now held_ids [] w = w
  sweep_rows now held_ids (j ∷ js) w = sweep_rows now held_ids js (sweep_row now held_ids j w)
