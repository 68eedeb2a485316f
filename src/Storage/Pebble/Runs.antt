-- ===== src/Storage/Pebble/Runs.antt =====
-- internal/storage/pebble.go: any sequence of the calls that change the store.
use Prim.Native.String.{String}
use text.Mathlib.TextEquality.{eq_iff}
use aquifer.Base.{
  ℕ, ◌<◌, ◌≡◌, ◌≢◌, ◌⊎◌, inl, inr, sym, ap, ◌∙◌, Bool, true, false, Option, some, List, [], ◌∷◌,
  ◌++◌, ltb, ◌==◌, both_branches, if_some-keeps, arith,
}
use aquifer.Jobs.Defs.{Job, Status, queued, is_empty, unix_milli, PageCursor}
use aquifer.Storage.Pebble.Engine.{
  Key, job_key, exp_key, queue_index_key, PebbleRecord, stored, nothing, put, Result, DrainEvent,
  written, after, key_eq, Engine, EngineLaws,
}
use aquifer.Storage.Pebble.Defs.{
  Store, peek, pending_status, check_or_insert, set_queue_key, put_result, record_retry,
  update_status, delete_job,
}
use aquifer.Storage.Pebble.Expiry.{
  delete_expired, acknowledged, acknowledge_drain_events_through, backfill_expiry_index,
  expiry_puts, exp_index_marker,
}
use aquifer.Storage.Pebble.Scans.{belongs, queued_page, for_each_job_including_expired}
use aquifer.Storage.Pebble.Pages.{serves, belongs_iff}
use aquifer.Storage.Pebble.Dropped.{IsStale, gone, moved_on, queued_page-keeps}
use aquifer.Storage.Pebble.Indexes.{Contents, IsIndexed}
use aquifer.Storage.Pebble.Steps.{
  commit_logged-keeps, Indexed, StaysPending, set_queue_key-Indexed, put_result-Indexed,
  record_retry-Indexed, update_status-Indexed, delete_job-Indexed, check_or_insert-Indexed,
}
use aquifer.Storage.Pebble.Sweeps.{delete_expired-SweptClean}

pub data Call : Type 0 where
  inserts : ℕ → Job → Call
  keys : String → String → Call
  results : String → Result → Call
  retries : String → ℕ → Call
  updates : ℕ → String → Status → Call
  deletes_job : String → Call
  expires : ℕ → Call
  acknowledges : ℕ → Call
  pages : (String → String → Bool) → ℕ → String → Option PageCursor → ℕ → ℕ → Call
  backfills : Call

acknowledged-IsIndexed :
    (through : ℕ) (evs : List DrainEvent) (get : Contents)
    → IsIndexed get
    → IsIndexed (after (acknowledged through evs) get)
unfolding after written key_eq acknowledged
acknowledged-IsIndexed through [] get i = i
acknowledged-IsIndexed through (ev ∷ evs) get i =
    both_branches (λ ws. IsIndexed (after ws get)) (ltb through ev.sequence) i
      (acknowledged-IsIndexed through evs _ (record {
        named = i.named;
        identified = i.identified;
        by_expiry = i.by_expiry;
        by_queue = i.by_queue;
      }))

-- A write of an entry of the index of expiry times, or of a name of the store's own.
backfilled-IsIndexed :
    (rs : List PebbleRecord) (get : Contents)
    → IsIndexed get
    → IsIndexed (after (expiry_puts rs ++ (put exp_index_marker nothing ∷ [])) get)
unfolding after written key_eq expiry_puts
backfilled-IsIndexed [] get i = record {
  named = i.named;
  identified = i.identified;
  by_expiry = i.by_expiry;
  by_queue = i.by_queue;
}
backfilled-IsIndexed (r ∷ rs) get i = backfilled-IsIndexed rs _ (record {
  named = i.named;
  identified = i.identified;
  by_expiry = λ id q h. ground (arith, i.by_expiry id q h);
  by_queue = i.by_queue;
})

belongs_pending :
    (now : ℕ) (key : String) (r : PebbleRecord)
    → pending_status r.job.status ≡ true
    → r.queue_key ≡ key
    → unix_milli now < r.expires_at
    → belongs now key r ≡ true
unfolding belongs
belongs_pending now key r pending mine alive = ground (arith, eq_iff r.queue_key key)

module _ (e : Engine) (laws : EngineLaws e) (hash : List ℕ → String) where
  unfoldable pub call : Call → Store e → Store e
  call (inserts now j) s = (check_or_insert e hash now j s).0
  call (keys id key) s = set_queue_key e id key s
  call (results id res) s = put_result e id res s
  call (retries id attempts) s = record_retry e id attempts s
  call (updates now id st) s = update_status e hash now id st s
  call (deletes_job id) s = delete_job e hash id s
  call (expires now) s = delete_expired e hash now s
  call (acknowledges through) s = acknowledge_drain_events_through e through s
  call (pages id_lt now key cursor before limit) s =
      (queued_page e id_lt now key cursor before limit s).0
  call backfills s = backfill_expiry_index e s

  unfoldable pub calls : List Call → Store e → Store e
  unfolding call
  calls [] s = s
  calls (c ∷ cs) s = calls cs (call c s)

  -- No pending job of the queue has expired.
  abbrev pub NoneExpired : ℕ → String → Store e → Type 0
  NoneExpired now key s =
      (id : String) (r : PebbleRecord)
      → e.get s.db (job_key id) ≡ some (stored r)
      → pending_status r.job.status ≡ true
      → r.queue_key ≡ key
      → unix_milli now < r.expires_at

  -- What the theorem asks of each call: a job has an id, none becomes pending again, no read fails
  -- while jobs expire, and a page is read of a queue without expired jobs.
  abbrev pub Allowed : Call → Store e → Type 0
  Allowed (inserts now j) s = is_empty j.id ≡ false
  Allowed (retries id attempts) s = StaysPending e laws id queued s
  Allowed (updates now id st) s = StaysPending e laws id st s
  Allowed (expires now) s = (c : e.Db) (k : Key) → e.fails c k ≡ false
  Allowed (pages id_lt now key cursor before limit) s = NoneExpired now key s
  Allowed _ s = Unit

  abbrev pub AllAllowed : List Call → Store e → Type 0
  AllAllowed [] s = Unit
  AllAllowed (c ∷ cs) s = Allowed c s × AllAllowed cs (call c s)

  page-Indexed :
      (id_lt : String → String → Bool) (now : ℕ) (key : String) (cursor : Option PageCursor)
      (before limit : ℕ) (s : Store e)
      → NoneExpired now key s
      → Indexed e laws s
      → Indexed e laws (queued_page e id_lt now key cursor before limit s).0
  page-Indexed id_lt now key cursor before limit s none_expired i = record {
    named = λ id r h. i.named id r (was id r h);
    identified = λ id r h. i.identified id r (was id r h);
    by_expiry = λ id r h. elim (at (exp_key r.expires_at id)) [
      | inl same ↦ same ∙ i.by_expiry id r (was id r h)
      | inr stale ↦ absurd (only_queues (exp_key r.expires_at id) (λ t j. cc) stale)
    ];
    by_queue = λ id r h pending named. elim (at (queue_index_key r.queue_key r.job.created_at id)) [
      | inl same ↦ same ∙ i.by_queue id r (was id r h) pending named
      | inr stale ↦ absurd (still_served id r (was id r h) pending stale)
    ];
  }
    where
      at :
          (x : Key)
          → (e.get (queued_page e id_lt now key cursor before limit s).0.db x ≡ e.get s.db x)
            ⊎ IsStale now key (e.get s.db) x
      at x = queued_page-keeps e laws id_lt now key cursor before limit s x

      only_queues :
          (x : Key)
          → ((t : ℕ) (j : String) → x ≢ queue_index_key key t j)
          → ¬ IsStale now key (e.get s.db) x
      only_queues x other (gone t j h found) = other t j h
      only_queues x other (moved_on t j q h found past) = other t j h

      was :
          (id : String) (r : PebbleRecord)
          → e.get (queued_page e id_lt now key cursor before limit s).0.db (job_key id)
            ≡ some (stored r)
          → e.get s.db (job_key id) ≡ some (stored r)
      was id r h = elim (at (job_key id)) [
        | inl same ↦ sym same ∙ h
        | inr stale ↦ absurd (only_queues (job_key id) (λ t j. cc) stale)
      ]

      still_served :
          (id : String) (r : PebbleRecord)
          → e.get s.db (job_key id) ≡ some (stored r)
          → pending_status r.job.status ≡ true
          → ¬ IsStale now key (e.get s.db) (queue_index_key r.queue_key r.job.created_at id)
      still_served id r h pending (gone t j same found) = cc
      still_served id r h pending (moved_on t j q same found past) =
          let one : r ≡ q = cc in
          let mine : r.queue_key ≡ key = cc in
          absurd (
            ground (
              arith,
              belongs_pending now key r pending mine (none_expired id r h pending mine),
              belongs_iff now key r ∙ ap (serves now key) one ∙ past,
            ))

  call-Indexed :
      (c : Call) (s : Store e) → Allowed c s → Indexed e laws s → Indexed e laws (call c s)
  unfolding call acknowledge_drain_events_through backfill_expiry_index
  call-Indexed (inserts now j) s ok i = check_or_insert-Indexed e laws hash now j s ok i
  call-Indexed (keys id key) s ok i = set_queue_key-Indexed e laws id key s i
  call-Indexed (results id res) s ok i = put_result-Indexed e laws id res s i
  call-Indexed (retries id attempts) s ok i = record_retry-Indexed e laws id attempts s ok i
  call-Indexed (updates now id st) s ok i = update_status-Indexed e laws hash now id st s ok i
  call-Indexed (deletes_job id) s ok i = delete_job-Indexed e laws hash id s i
  call-Indexed (expires now) s ok i =
      (delete_expired-SweptClean e laws hash now s ok i).still_indexed
  call-Indexed (pages id_lt now key cursor before limit) s ok i =
      page-Indexed id_lt now key cursor before limit s ok i
  call-Indexed backfills s ok i =
      if_some-keeps (λ t. Indexed e laws t) (peek e s.db exp_index_marker) _
        (λ _.
          commit_logged-keeps e laws IsIndexed _ s i
            (backfilled-IsIndexed (for_each_job_including_expired e s.db) (e.get s.db) i))
        (λ _ _. i)
  call-Indexed (acknowledges through) s ok i =
      both_branches (λ t. Indexed e laws t) (through == 0) i
        (commit_logged-keeps e laws IsIndexed _ s i
          (acknowledged-IsIndexed through _ (e.get s.db) i))

  -- Whatever is inserted, moved to a queue, updated, retried, given a result, deleted, expired,
  -- acknowledged, read by pages or filled in at the start, in any order and whichever commits fail,
  -- every stored job is in the index of expiry times and, while it is pending and has a queue key, in
  -- the index of that queue; where the calls give each job an id, make no finished job pending again,
  -- expire jobs only if no read fails, and read pages only of queues that have no expired job that is
  -- pending.
  pub calls-Indexed :
      (cs : List Call) (s : Store e)
      → AllAllowed cs s
      → Indexed e laws s
      → Indexed e laws (calls cs s)
  unfolding calls
  calls-Indexed [] s ok i = i
  calls-Indexed (c ∷ cs) s ok i = calls-Indexed cs (call c s) ok.1 (call-Indexed c s ok.0 i)
