-- ===== src/Storage/Pebble/Tests.antt =====
-- internal/storage/pebble.go: the store at concrete inputs.
use Prim.Native.String.{String}
use aquifer.Base.{ℕ, ◌≡◌, ◌⊎◌, refl, true, false, none, some, List, [], ◌∷◌, arith}
use aquifer.Base.Dict.{lookup, insert, erase}
use aquifer.Base.Int.{pos}
use aquifer.Jobs.Defs.{Job, queued, completed, idempotency_hash, pending_expires_at}
use aquifer.Storage.Pebble.Engine.{
  Key, job_key, exp_key, queue_index_key, Result, Entry, stored, Engine, EngineLaws, del_range,
  key_eq, key_keys,
}
use aquifer.Storage.Pebble.Memory.{memory, memory_laws, write_all, keys_in, outside}
use aquifer.Storage.Pebble.Defs.{
  Store, check_or_insert, get_record, fresh_record, insert_batch, set_queue_key,
}
use aquifer.Storage.Pebble.Expiry.{delete_expired, is_due}
use aquifer.Storage.Pebble.Scans.{queued_page, in_page, look}
use aquifer.Storage.Pebble.Pages.{take, live_jobs, queued_page-take}
use aquifer.Storage.Pebble.Dropped.{IsStale, queued_page-keeps}
use aquifer.Storage.Pebble.Stranded.{failed_reads_strand}
use aquifer.Storage.Pebble.Steps.{check_or_insert-Indexed}
use aquifer.Storage.Pebble.Indexes.{IsIndexed}
use aquifer.Storage.Pebble.Sweeps.{SweptClean, delete_expired-SweptClean}
use aquifer.Storage.Pebble.Runs.{
  Call, inserts, keys, expires, pages, backfills, calls, calls-Indexed,
}

abbrev hash : List ℕ → String
hash l = "h"

abbrev empty : Store memory
empty = record { db = []; queued_count = pos 0; in_flight_count = pos 0; skip_drain_events = true }

abbrev task : Job
task = record {
  id = "j1";
  user_id = "u";
  idempotent_key = "k";
  url = "https://api.example/v1";
  pool_id = "";
  method = "POST";
  body = "{}";
  webhook_url = "";
  kind = "user";
  status = queued;
  created_at = 1_000;
  execute_before = 0;
  idempotency_scope = "";
  max_retries = pos 2;
  attempts = 0;
  webhook_max_retries = none;
  dedup_cache = "h";
}

empty-IsIndexed : IsIndexed (memory.get empty.db)
unfolding lookup
empty-IsIndexed = record {
  named = λ id r h. cc;
  identified = λ id r h. cc;
  by_expiry = λ id r h. cc;
  by_queue = λ id r h p n. cc;
}

-- A page of the empty store is read, a job comes and gets its queue, the index of expiry times is
-- filled in, and the expired jobs are deleted.
abbrev history : List Call
history =
    pages (λ x y. false) 4 "q" none 0 10
    ∷ inserts 5 task
    ∷ keys "j1" "q"
    ∷ backfills
    ∷ expires 7
    ∷ []

calls-Indexed_example : IsIndexed (memory.get (calls memory memory_laws hash history empty).db)
unfolding lookup
calls-Indexed_example =
    calls-Indexed memory memory_laws hash history empty
      ((λ id r h p n. cc), (refl, (tt, (tt, ((λ c k. refl), tt))))) empty-IsIndexed

-- The store with the job in it, pending until 24 hours and 15 minutes after its arrival.
abbrev held : Store memory
held = (check_or_insert memory hash 5 task empty).0

held-IsIndexed : IsIndexed (memory.get held.db)
held-IsIndexed = check_or_insert-Indexed memory memory_laws hash 5 task empty refl empty-IsIndexed

delete_expired-SweptClean_example :
    SweptClean memory memory_laws 90_000_000
      (memory.get held.db)
      (delete_expired memory hash 90_000_000 held).db
delete_expired-SweptClean_example =
    delete_expired-SweptClean memory memory_laws hash 90_000_000 held (λ c k. refl) held-IsIndexed

-- The expired job is gone, and a minute before its time it is not.
held_expires : get_record memory "j1" (delete_expired memory hash 90_000_000 held).db ≡ none
unfolding get_record delete_expired check_or_insert lookup insert erase write_all keys_in outside
    idempotency_hash key_eq is_due pending_expires_at
held_expires = refl

held_stays :
    get_record memory "j1" (delete_expired memory hash 87_240_000 held).db
    ≡ some (fresh_record 5 task)
unfolding get_record delete_expired check_or_insert lookup insert erase write_all keys_in outside
    idempotency_hash key_eq is_due pending_expires_at fresh_record
held_stays = refl

abbrev inserted : List (Key × Entry)
inserted = write_all (insert_batch hash 5 task) []

abbrev answer : Result
answer = record {
  result_job_id = "j1";
  result_status = completed;
  response_status = pos 200;
  content_type = "text/plain";
  result_body = "done";
  body_truncated = false;
  recorded_at = 6;
  source = "dispatch";
}

held-get_record : get_record memory "j1" held.db ≡ some (fresh_record 5 task)
unfolding get_record check_or_insert lookup insert write_all idempotency_hash key_eq
    pending_expires_at fresh_record
held-get_record = refl

-- An engine on which no read succeeds.
abbrev unreadable_memory : Engine
unreadable_memory = record memory { fails = λ m k. true }

unreadable_laws : EngineLaws unreadable_memory
unreadable_laws = record {
  get-commit = memory_laws.get-commit;
  scan_sound = memory_laws.scan_sound;
  scan_complete = memory_laws.scan_complete;
}

failed_reads_strand_example :
    (lookup (job_key "j1") (delete_expired unreadable_memory hash 90_000_000 held).db
      ≡ some (stored (fresh_record 5 task)))
    × (lookup (exp_key 87_301_000 "j1") (delete_expired unreadable_memory hash 90_000_000 held).db
        ≡ none)
unfolding check_or_insert lookup insert write_all idempotency_hash key_eq pending_expires_at
    fresh_record
failed_reads_strand_example =
    failed_reads_strand unreadable_memory unreadable_laws hash 90_000_000 "j1" (fresh_record 5 task)
      held (write_all (del_range (is_due 90_000_000) ∷ []) held.db) (λ k. refl) refl refl refl
      (omega arith)

-- The job in its queue.
abbrev queued_up : Store memory
queued_up = set_queue_key memory "j1" "q" held

queued_page-take_example :
    (queued_page memory (λ x y. false) 10 "q" none 0 100 queued_up).1
    ≡ some (
        take 100 (
          live_jobs memory 10 "q" queued_up.db
            (keys_in (in_page (λ x y. false) "q" none 0) queued_up.db)))
unfolding set_queue_key check_or_insert lookup insert write_all keys_in in_page idempotency_hash
    key_eq pending_expires_at fresh_record look
queued_page-take_example =
    queued_page-take memory (λ x y. false) 10 "q" none 0 100 queued_up ((λ x. cc), tt)

queued_page-keeps_example :
    (lookup
        (queue_index_key "q" 1_000 "j1")
        (queued_page memory (λ x y. false) 10 "q" none 0 100 queued_up).0.db
      ≡ lookup (queue_index_key "q" 1_000 "j1") queued_up.db)
    ⊎ IsStale 10 "q" (λ x. lookup x queued_up.db) (queue_index_key "q" 1_000 "j1")
queued_page-keeps_example =
    queued_page-keeps memory memory_laws (λ x y. false) 10 "q" none 0 100 queued_up
      (queue_index_key "q" 1_000 "j1")
