-- ===== src/Storage/Pebble/Defs.antt =====
-- internal/storage/pebble.go: the operations on one job. A read that fails is treated like a missing
-- key, and a commit that fails leaves the store as it was (both are logged). SHA-256 (`hash`) and
-- the clock (`now`, in nanoseconds) are arguments; the locks make each operation one step.
use Prim.Native.String.{String}
use text.Mathlib.Text.{◌==◌ as str_eq}
use aquifer.Base.{
  ℕ, ◌+◌, Bool, true, false, not, ◌&&◌, Option, none, some, List, [], ◌∷◌, ◌++◌, leb, ◌==◌,
  if◌then◌else◌, if_some,
}
use aquifer.Base.Int.{ℤ, pos, negsuc, ◌+ℤ◌, pos_part}
use aquifer.Jobs.Defs.{
  Job, Status, queued, in_flight, completed, failed, is_empty, idempotency_hash, pending_expires_at,
  unix_milli, is_webhook_delivery, is_webhook_delivery,
}
use aquifer.Storage.Pebble.Engine.{
  Key, job_key, idem_key, exp_key, queue_index_key, drain_seq_key, drain_job_key, meta_key, Result,
  PebbleRecord, DrainEvent, Entry, stored, id_entry, number, event, nothing, Write, put, del,
  Engine,
}

pub record Pebble (Db : Type 0) : Type 0 where
  pub db : Db
  pub queued_count : ℤ
  pub in_flight_count : ℤ
  pub skip_drain_events : Bool

-- encoding/json leaves out the cached hash of a job.
unfoldable pub as_text : Entry → String
as_text (id_entry id) = id
as_text _ = ""

unfoldable pub marshaled : Job → Job
marshaled j = record j { dedup_cache = "" }

unfoldable pub pending_status : Status → Bool
pending_status queued = true
pending_status in_flight = true
pending_status _ = false

unfoldable pub same_status : Status → Status → Bool
same_status queued queued = true
same_status in_flight in_flight = true
same_status completed completed = true
same_status failed failed = true
same_status _ _ = false

-- 30 minutes and 2 hours, in nanoseconds.
abbrev pub ttl_completed : ℕ
ttl_completed = 1_800_000_000_000

abbrev pub ttl_failed : ℕ
ttl_failed = 7_200_000_000_000

unfoldable pub expires_at_for : Job → Status → ℕ → ℕ
expires_at_for j completed now = unix_milli (now + ttl_completed)
expires_at_for j failed now = unix_milli (now + ttl_failed)
expires_at_for j queued now = pending_expires_at j now
expires_at_for j in_flight now = pending_expires_at j now

abbrev pub drain_sequence_meta_key : Key
drain_sequence_meta_key = meta_key "drain_sequence"

unfoldable pub decoded : Option Entry → Option PebbleRecord
decoded (some (stored r)) = some r
decoded _ = none

unfoldable pub fresh_record : ℕ → Job → PebbleRecord
unfolding marshaled
fresh_record now j = record {
  job = marshaled j;
  queue_key = "";
  expires_at = pending_expires_at j now;
  result = none;
}

-- The batch of a fresh job.
unfoldable pub insert_batch : (List ℕ → String) → ℕ → Job → List Write
unfolding fresh_record
insert_batch hash now j =
    put (job_key j.id) (stored (fresh_record now j))
    ∷ put (idem_key (idempotency_hash hash j)) (id_entry j.id)
    ∷ put (exp_key (pending_expires_at j now) j.id) nothing
    ∷ []

unfoldable pub expiry_batch : String → PebbleRecord → ℕ → List Write
unfolding pending_status
expiry_batch id r previous =
    put (job_key id) (stored r)
    ∷ ((if not (is_empty r.queue_key) && not (pending_status r.job.status)
          then del (queue_index_key r.queue_key r.job.created_at id) ∷ []
          else [])
        ++ ((if previous == r.expires_at then [] else del (exp_key previous id) ∷ [])
            ++ put (exp_key r.expires_at id) nothing ∷ []))

unfoldable pub queue_key_batch : String → String → PebbleRecord → List Write
unfolding pending_status
queue_key_batch id key r =
    put (job_key id) (stored (record r { queue_key = key }))
    ∷ ((if not (is_empty r.queue_key) && not (str_eq r.queue_key key)
          then del (queue_index_key r.queue_key r.job.created_at id) ∷ []
          else [])
        ++ (if pending_status r.job.status
            then put (queue_index_key key r.job.created_at id) nothing ∷ []
            else []))

unfoldable pub drain_sequence : Option Entry → ℕ
drain_sequence (some (number n)) = n
drain_sequence _ = 0

abbrev pub is_final : Status → Bool
is_final completed = true
is_final failed = true
is_final queued = false
is_final in_flight = false

unfoldable pub restated : ℕ → Status → PebbleRecord → PebbleRecord
unfolding expires_at_for
restated now status r =
    let j : Job = record r.job { status = status } in
    record r { job = j; expires_at = expires_at_for j status now }

unfoldable pub delete_batch : (List ℕ → String) → String → PebbleRecord → List Write
delete_batch hash id r =
    del (job_key id)
    ∷ del (idem_key (idempotency_hash hash r.job))
    ∷ (if is_empty r.queue_key
        then []
        else del (queue_index_key r.queue_key r.job.created_at id) ∷ [])

unfoldable pub event_batch : (List ℕ → String) → ℕ → PebbleRecord → Status → ℕ → List Write
event_batch hash now r status next =
    let ev : DrainEvent = record {
      sequence = next;
      hash_key = idempotency_hash hash r.job;
      event_job_id = r.job.id;
      event_status = status;
      event_recorded_at = unix_milli now;
    } in
    put (drain_seq_key next) (event ev)
    ∷ put (drain_job_key r.job.id) (number next)
    ∷ put drain_sequence_meta_key (number next)
    ∷ []

module _ (e : Engine) where
  abbrev pub Store : Type 0
  Store = Pebble e.Db

  -- `db.Get`, where any error counts as a missing key.
  abbrev pub peek : e.Db → Key → Option Entry
  peek d k = if e.fails d k then none else e.get d k

  unfoldable pub count_status : Status → ℤ → Store → Store
  count_status queued delta s = record s { queued_count = s.queued_count +ℤ delta }
  count_status in_flight delta s = record s { in_flight_count = s.in_flight_count +ℤ delta }
  count_status completed delta s = s
  count_status failed delta s = s

  unfoldable pub move_status : Status → Status → Store → Store
  unfolding count_status same_status
  move_status from to s =
      if same_status from to then s else count_status to (pos 1) (count_status from (negsuc 0) s)

  -- A batch whose error is only logged.
  unfoldable pub commit_logged : List Write → Store → Store
  commit_logged ws s = if_some (e.commit ws s.db) s (λ d. record s { db = d })

  unfoldable pub get_record : String → e.Db → Option PebbleRecord
  unfolding decoded
  get_record id d = decoded (peek d (job_key id))

  unfoldable pub insert_fresh : (List ℕ → String) → ℕ → Job → Store → Store
  unfolding insert_batch count_status
  insert_fresh hash now j s =
      if_some (e.commit (insert_batch hash now j) s.db) s
        (λ d. count_status queued (pos 1) (record s { db = d }))

  -- The job that was accepted under the same hash, or ("", false).
  unfoldable pub check_or_insert : (List ℕ → String) → ℕ → Job → Store → Store × (String × Bool)
  unfolding insert_fresh as_text
  check_or_insert hash now j s =
      if_some (peek s.db (idem_key (idempotency_hash hash j)))
        (insert_fresh hash now j s, ("", false)) (λ v. (s, (as_text v, true)))

  unfoldable pub put_record : String → PebbleRecord → Store → Store
  unfolding commit_logged
  put_record id r s = commit_logged (put (job_key id) (stored r) ∷ []) s

  -- An operation on the record of a job, if it can be read.
  abbrev pub on_record : String → Store → (PebbleRecord → Store) → Store
  on_record id s f = if_some (get_record id s.db) s f

  unfoldable pub set_queue_key : String → String → Store → Store
  unfolding get_record queue_key_batch commit_logged
  set_queue_key id key s = on_record id s (λ r. commit_logged (queue_key_batch id key r) s)

  unfoldable pub put_result : String → Result → Store → Store
  unfolding get_record put_record
  put_result id res s = on_record id s (λ r. put_record id (record r { result = some res }) s)

  unfoldable pub record_retry : String → ℕ → Store → Store
  unfolding get_record put_record
  record_retry id attempts s = on_record id s (λ r.
      put_record id (record r { job = record r.job { attempts = attempts; status = queued } }) s)

  -- The next event of the drain ledger, unless the job has one.
  unfoldable pub record_drain_event : (List ℕ → String) → ℕ → PebbleRecord → Status → Store → Store
  unfolding commit_logged drain_sequence event_batch
  record_drain_event hash now r status s =
      if is_webhook_delivery r.job
      then s
      else if_some (peek s.db (drain_job_key r.job.id))
          (commit_logged
            (event_batch hash now r status (drain_sequence (peek s.db drain_sequence_meta_key) + 1))
            s)
          (λ v. s)

  unfoldable pub update_status : (List ℕ → String) → ℕ → String → Status → Store → Store
  unfolding get_record move_status expiry_batch restated commit_logged record_drain_event
  update_status hash now id status s = on_record id s (λ r.
      let r' = restated now status r in
      let moved = move_status r.job.status status s in
      let written = commit_logged (expiry_batch id r' r.expires_at) moved in
      if is_final status && not s.skip_drain_events
      then record_drain_event hash now r' status written
      else written)

  unfoldable pub delete_job : (List ℕ → String) → String → Store → Store
  unfolding get_record delete_batch commit_logged count_status
  delete_job hash id s =
      if_some (get_record id s.db) (commit_logged (del (job_key id) ∷ []) s) (λ r.
        if_some (e.commit (delete_batch hash id r) s.db) s
          (λ d. count_status r.job.status (negsuc 0) (record s { db = d })))

  unfoldable pub get_job : ℕ → String → Store → Option Job
  unfolding get_record
  get_job now id s =
      if_some (get_record id s.db) none
        (λ r. if leb r.expires_at (unix_milli now) then none else some r.job)

  unfoldable pub get_result : ℕ → String → Store → Option Result
  unfolding get_record
  get_result now id s =
      if_some (get_record id s.db) none
        (λ r. if leb r.expires_at (unix_milli now) then none else r.result)

  -- The total and the depth of the queue.
  unfoldable pub counts : Store → ℕ × ℕ
  counts s = (pos_part s.queued_count + pos_part s.in_flight_count, pos_part s.queued_count)
