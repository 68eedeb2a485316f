-- ===== src/Storage/Pebble/Scans.antt =====
-- internal/storage/pebble.go: the operations that scan a range of keys. `now` is in nanoseconds.
use Prim.Native.String.{String}
use text.Mathlib.Text.{◌==◌ as str_eq}
use aquifer.Base.{
  ℕ, ◌+◌, Bool, true, false, not, ◌&&◌, ◌||◌, Option, none, some, List, [], ◌∷◌, ◌++◌, length, ltb,
  leb, ◌==◌, if◌then◌else◌,
}
use aquifer.Base.Int.{pos}
use aquifer.Base.Dict.{lookup, insert, string_keys}
use aquifer.Jobs.Defs.{
  Job, Status, queued, is_empty, idempotency_hash, unix_milli, is_webhook_delivery, PageCursor,
}
use aquifer.Storage.Pebble.Engine.{
  Key, job_key, queue_index_key, PebbleRecord, Entry, stored, Write, del, Engine,
}
use aquifer.Storage.Pebble.Defs.{Store, decoded, pending_status, count_status, commit_logged}

unfoldable pub is_job_key : Key → Bool
is_job_key (job_key id) = true
is_job_key _ = false

abbrev pub as_queued : Job → Job
as_queued j = record j { status = queued }

-- The entry of a ledger: the hash, the id and the status of a job.
pub record LedgerEntry : Type 0 where
  pub ledger_hash : String
  pub ledger_job_id : String
  pub ledger_status : Status

unfoldable pub count_key : String → List (String × ℕ) → List (String × ℕ)
count_key key m = insert key (elim (lookup key m) [ none ↦ 1 | some n ↦ n + 1 ]) m

-- The keys of a queue's index after a cursor (none: from the start), and before a time if that is
-- above 0. `id_lt` is `<` on ids, byte by byte; a queue key holds no zero byte.
unfoldable pub after_cursor : (String → String → Bool) → Option PageCursor → ℕ → String → Bool
after_cursor id_lt none t id = true
after_cursor id_lt (some c) t id =
    ltb c.cursor_created_at t || (t == c.cursor_created_at && id_lt c.cursor_id id)

unfoldable pub in_page : (String → String → Bool) → String → Option PageCursor → ℕ → Key → Bool
unfolding after_cursor
in_page id_lt key cursor before (queue_index_key q t id) =
    str_eq key q && after_cursor id_lt cursor t id && (before == 0 || ltb t before)
in_page id_lt key cursor before _ = false

-- Whether the entry of a queue's index stands for a job of the queue.
unfoldable pub belongs : ℕ → String → PebbleRecord → Bool
unfolding pending_status
belongs now key r = not (
    leb r.expires_at (unix_milli now)
    || not (str_eq r.queue_key key)
    || not (pending_status r.job.status))

-- A page in the making: its jobs, the entries to drop in the batch at hand, and the full batches.
pub record Page : Type 0 where
  pub found : List Job
  pub stale : List Key
  pub flushed : List (List Key)

-- What the entry of an index leads to.
pub data Seen : Type 0 where
  kept : Job → Seen
  dropped skipped unreadable : Seen

-- What a record that was read says of its entry.
abbrev pub look_at : ℕ → String → Option Entry → Seen
look_at now key none = dropped
look_at now key (some (stored r)) = if belongs now key r then kept (as_queued r.job) else dropped
look_at now key (some v) = unreadable

abbrev pub flush_at : ℕ
flush_at = 1_000

unfoldable pub with_stale : Key → Page → Page
with_stale k p =
    let more = p.stale ++ (k ∷ []) in
    if leb flush_at (length more)
    then record p { stale = []; flushed = p.flushed ++ (more ∷ []) }
    else record p { stale = more }

-- What an entry does to the page; `next` is the rest of the pass.
unfoldable pub page_step : Seen → Key → Page → (Page → Page × Bool) → Page × Bool
unfolding with_stale
page_step (kept j) k p next = next (record p { found = p.found ++ (j ∷ []) })
page_step dropped k p next = next (with_stale k p)
page_step skipped k p next = next p
page_step unreadable k p next = (p, false)

unfoldable pub alive : ℕ → List PebbleRecord → List PebbleRecord
alive now [] = []
alive now (r ∷ rs) = if leb r.expires_at (unix_milli now) then alive now rs else r ∷ alive now rs

unfoldable pub queued_of : String → List PebbleRecord → List Job
unfolding pending_status
queued_of key [] = []
queued_of key (r ∷ rs) =
    if str_eq r.queue_key key && pending_status r.job.status
    then as_queued r.job ∷ queued_of key rs
    else queued_of key rs

unfoldable pub all_queued : List PebbleRecord → List Job
unfolding pending_status
all_queued [] = []
all_queued (r ∷ rs) =
    if pending_status r.job.status then as_queued r.job ∷ all_queued rs else all_queued rs

unfoldable pub ledger : (List ℕ → String) → List PebbleRecord → List LedgerEntry
ledger hash [] = []
ledger hash (r ∷ rs) =
    if is_webhook_delivery r.job
    then ledger hash rs
    else record {
      ledger_hash = idempotency_hash hash r.job;
      ledger_job_id = r.job.id;
      ledger_status = r.job.status;
    }
      ∷ ledger hash rs

-- The pending jobs by queue key.
unfoldable pub pending_by_key : List PebbleRecord → List (String × ℕ) → List (String × ℕ)
unfolding pending_status count_key
pending_by_key [] m = m
pending_by_key (r ∷ rs) m =
    pending_by_key rs (if pending_status r.job.status then count_key r.queue_key m else m)

unfoldable pub deletes : List Key → List Write
deletes [] = []
deletes (k ∷ ks) = del k ∷ deletes ks

abbrev pub empty_page : Page
empty_page = record { found = []; stale = []; flushed = [] }

module _ (e : Engine) where
  -- What an iteration over keys decodes.
  unfoldable pub records_at : e.Db → List Key → List PebbleRecord
  unfolding decoded
  records_at d [] = []
  records_at d (k ∷ ks) = elim (decoded (e.get d k)) [
    | none ↦ records_at d ks
    | some r ↦ r ∷ records_at d ks
  ]

  unfoldable pub for_each_job : ℕ → e.Db → List PebbleRecord
  unfolding records_at alive is_job_key
  for_each_job now d = alive now (records_at d (e.scan d is_job_key))

  unfoldable pub for_each_job_including_expired : e.Db → List PebbleRecord
  unfolding records_at is_job_key
  for_each_job_including_expired d = records_at d (e.scan d is_job_key)

  unfoldable pub seeded : List PebbleRecord → Store e → Store e
  unfolding count_status
  seeded [] s = s
  seeded (r ∷ rs) s = seeded rs (count_status e r.job.status (pos 1) s)

  unfoldable pub seed_counts : ℕ → Store e → Store e
  unfolding seeded for_each_job
  seed_counts now s =
      seeded (for_each_job now s.db) (record s { queued_count = pos 0; in_flight_count = pos 0 })

  unfoldable pub recover_queued : ℕ → String → e.Db → List Job
  unfolding queued_of for_each_job
  recover_queued now key d = queued_of key (for_each_job now d)

  unfoldable pub get_queued_jobs : ℕ → e.Db → List Job
  unfolding all_queued for_each_job
  get_queued_jobs now d = all_queued (for_each_job now d)

  unfoldable pub list_idempotent_keys : (List ℕ → String) → ℕ → e.Db → List LedgerEntry
  unfolding ledger for_each_job
  list_idempotent_keys hash now d = ledger hash (for_each_job now d)

  -- The jobs are read by the id that their entry ends with, if there is one.
  unfoldable pub look : ℕ → String → e.Db → Key → Seen
  unfolding belongs
  look now key d (queue_index_key q t id) =
      if is_empty id
      then skipped
      else if e.fails d (job_key id)
      then unreadable
      else look_at now key (e.get d (job_key id))
  look now key d k = skipped

  -- The pass over the entries, and whether no read failed. Batches of stale entries are committed
  -- on the way; they touch no key that the pass reads.
  unfoldable pub page_from : ℕ → String → ℕ → e.Db → List Key → Page → Page × Bool
  unfolding look page_step
  page_from now key limit d [] p = (p, true)
  page_from now key limit d (k ∷ ks) p =
      if ltb (length p.found) limit
      then page_step (look now key d k) k p (page_from now key limit d ks)
      else (p, true)

  unfoldable pub commit_each : List (List Key) → Store e → Store e
  unfolding commit_logged deletes
  commit_each [] s = s
  commit_each (ks ∷ kss) s = commit_each kss (commit_logged e (deletes ks) s)

  -- The page, and the store without the index entries that stand for no job of the queue; none
  -- where a read failed.
  unfoldable pub queued_page :
      (String → String → Bool)
      → ℕ
      → String
      → Option PageCursor
      → ℕ
      → ℕ
      → Store e
      → Store e × Option (List Job)
  unfolding page_from in_page commit_each
  queued_page id_lt now key cursor before limit s =
      let range = e.scan s.db (in_page id_lt key cursor before) in
      let (p, fine) = page_from now key limit s.db range empty_page in
      if fine
      then (commit_each (p.flushed ++ (p.stale ∷ [])) s, some p.found)
      else (commit_each p.flushed s, none)
