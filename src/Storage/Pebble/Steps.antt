-- ===== src/Storage/Pebble/Steps.antt =====
-- internal/storage/pebble.go: the indexes under sequences of operations.
use Prim.Native.String.{String}
use mathlib.Core.Path.{fun_ext}
use aquifer.Base.{
  ℕ, ◌≡◌, refl, sym, subst, Bool, true, false, not, ◌&&◌, Option, none, some, List, [], ◌∷◌, arith,
  both_branches, ◌∙◌, if◌then◌else◌, if_some-keeps,
}
use aquifer.Base.Int.{ℤ, pos, negsuc}
use aquifer.Jobs.Defs.{
  Job, Status, queued, in_flight, completed, failed, is_empty, is_webhook_delivery,
  idempotency_hash,
}
use aquifer.Storage.Pebble.Engine.{
  job_key, idem_key, drain_job_key, Result, PebbleRecord, Entry, stored, Write, del, key_eq,
  written, after, Engine, EngineLaws,
}
use aquifer.Storage.Pebble.Defs.{
  Store, peek, get_record, decoded, insert_fresh, insert_batch, check_or_insert, commit_logged,
  count_status, move_status, on_record, set_queue_key, queue_key_batch, put_result, record_retry,
  update_status, restated, expiry_batch, record_drain_event, event_batch, same_status, is_final,
  delete_job, delete_batch, pending_status,
}
use aquifer.Storage.Pebble.Indexes.{
  Contents, IsIndexed, put_record-IsIndexed, insert-IsIndexed, expiry-IsIndexed,
  queue_key-IsIndexed, delete-IsIndexed,
}

-- The ledger of drain events stands beside the jobs.
events-IsIndexed :
    (hash : List ℕ → String) (now : ℕ) (r : PebbleRecord) (st : Status) (n : ℕ) (get : Contents)
    → IsIndexed get
    → IsIndexed (after (event_batch hash now r st n) get)
unfolding after written key_eq event_batch
events-IsIndexed hash now r st n get i = record {
  named = i.named;
  identified = i.identified;
  by_expiry = i.by_expiry;
  by_queue = i.by_queue;
}

bare_delete-IsIndexed :
    (id : String) (get : Contents) → IsIndexed get → IsIndexed (after (del (job_key id) ∷ []) get)
unfolding after written key_eq
bare_delete-IsIndexed id get i = record {
  named = λ j q hq. ground (arith, i.named j q);
  identified = λ j q hq. ground (arith, i.identified j q);
  by_expiry = λ j q hq. ground (arith, i.by_expiry j q);
  by_queue = λ j q hq p n. ground (arith, i.by_queue j q);
}

module _ (e : Engine) (laws : EngineLaws e) where
  pub contents-commit :
      (ws : List Write) (d : e.Db) {d' : e.Db}
      → e.commit ws d ≡ some d'
      → e.get d' ≡ after ws (e.get d)
  contents-commit ws d h = fun_ext (λ k. laws.get-commit ws d h k)

  pub commit_logged-keeps :
      (P : Contents → Type 0) (ws : List Write) (s : Store e)
      → P (e.get s.db)
      → P (after ws (e.get s.db))
      → P (e.get (commit_logged e ws s).db)
  unfolding commit_logged
  commit_logged-keeps P ws s before later =
      if_some-keeps (λ t. P (e.get t.db)) (e.commit ws s.db) (λ d. record s { db = d })
        (λ _. before) (λ d done. subst P (sym (contents-commit ws s.db done)) later)

  pub get_record-eq_some :
      (id : String) (d : e.Db) (r : PebbleRecord)
      → get_record e id d ≡ some r
      → e.get d (job_key id) ≡ some (stored r)
  unfolding get_record
  get_record-eq_some id d r h = decoded-eq_some (e.fails d (job_key id)) (e.get d (job_key id)) r h
    where
      decoded-eq_some :
          (b : Bool) (v : Option Entry) (r : PebbleRecord)
          → decoded (if b then none else v) ≡ some r
          → v ≡ some (stored r)
      decoded-eq_some true v r h = cc
      decoded-eq_some false (some (stored q)) r h = cc
      decoded-eq_some false none r h = cc
      decoded-eq_some false (some v) r h = cc

  abbrev pub Indexed : Store e → Type 0
  Indexed s = IsIndexed (e.get s.db)

  on_record-Indexed :
      (id : String) (s : Store e) (f : PebbleRecord → Store e)
      → Indexed s
      → ((r : PebbleRecord) → e.get s.db (job_key id) ≡ some (stored r) → Indexed (f r))
      → Indexed (on_record e id s f)
  on_record-Indexed id s f i h =
      if_some-keeps (λ t. Indexed t) (get_record e id s.db) f (λ _. i)
        (λ r found. h r (get_record-eq_some id s.db r found))

  pub set_queue_key-Indexed :
      (id key : String) (s : Store e) → Indexed s → Indexed (set_queue_key e id key s)
  unfolding set_queue_key
  set_queue_key-Indexed id key s i = on_record-Indexed id s _ i (λ r found.
      commit_logged-keeps IsIndexed (queue_key_batch id key r) s i
        (queue_key-IsIndexed (e.get s.db) id key r i found))

  pub put_result-Indexed :
      (id : String) (res : Result) (s : Store e) → Indexed s → Indexed (put_result e id res s)
  unfolding put_result
  put_result-Indexed id res s i = on_record-Indexed id s _ i (λ r found.
      commit_logged-keeps IsIndexed _ s i (
        put_record-IsIndexed (e.get s.db) id r (record r { result = some res }) i found refl refl
          refl refl (λ h. h)))

  -- A job that is to be pending was pending.
  abbrev pub StaysPending : String → Status → Store e → Type 0
  StaysPending id st s =
      (r : PebbleRecord)
      → e.get s.db (job_key id) ≡ some (stored r)
      → pending_status st ≡ true
      → pending_status r.job.status ≡ true

  pub record_retry-Indexed :
      (id : String) (attempts : ℕ) (s : Store e)
      → StaysPending id queued s
      → Indexed s
      → Indexed (record_retry e id attempts s)
  unfolding record_retry
  record_retry-Indexed id attempts s stays i = on_record-Indexed id s _ i (λ r found.
      commit_logged-keeps IsIndexed _ s i (
        put_record-IsIndexed (e.get s.db) id r
          (record r { job = record r.job { attempts = attempts; status = queued } }) i found refl
          refl refl refl (stays r found)))

  pub record_drain_event-Indexed :
      (hash : List ℕ → String) (now : ℕ) (r : PebbleRecord) (st : Status) (s : Store e)
      → Indexed s
      → Indexed (record_drain_event e hash now r st s)
  unfolding record_drain_event
  record_drain_event-Indexed hash now r st s i =
      both_branches (λ t. Indexed t) (is_webhook_delivery r.job) i
        (if_some-keeps (λ t. Indexed t) (peek e s.db (drain_job_key r.job.id)) (λ _. s)
          (λ _.
            commit_logged-keeps IsIndexed _ s i (events-IsIndexed hash now r st _ (e.get s.db) i))
          (λ _ _. i))

  pub db-count_status : (st : Status) (n : ℤ) (s : Store e) → (count_status e st n s).db ≡ s.db
  unfolding count_status
  db-count_status queued n s = refl
  db-count_status in_flight n s = refl
  db-count_status completed n s = refl
  db-count_status failed n s = refl

  db-move_status : (from to : Status) (s : Store e) → (move_status e from to s).db ≡ s.db
  unfolding move_status
  db-move_status from to s =
      both_branches (λ (t : Store e). t.db ≡ s.db) (same_status from to) refl
        (db-count_status to (pos 1) _ ∙ db-count_status from (negsuc 0) s)

  pub update_status-Indexed :
      (hash : List ℕ → String) (now : ℕ) (id : String) (st : Status) (s : Store e)
      → StaysPending id st s
      → Indexed s
      → Indexed (update_status e hash now id st s)
  unfolding update_status
  update_status-Indexed hash now id st s stays i = on_record-Indexed id s _ i (λ r found.
      let moved : Store e = move_status e r.job.status st s in
      let same : moved.db ≡ s.db = db-move_status r.job.status st s in
      let i' : Indexed moved = subst (λ d. IsIndexed (e.get d)) (sym same) i in
      let found' : e.get moved.db (job_key id) ≡ some (stored r) =
        subst (λ d. e.get d (job_key id) ≡ some (stored r)) (sym same) found in
      let written : Indexed
          (commit_logged e (expiry_batch id (restated now st r) r.expires_at) moved) =
        commit_logged-keeps IsIndexed _ moved i' (
          expiry-IsIndexed (e.get moved.db) id r (restated now st r) i' found' refl refl refl
            (stays r found)) in
      both_branches (λ t. Indexed t) (is_final st && not s.skip_drain_events)
        (record_drain_event-Indexed hash now (restated now st r) st _ written) written)

  pub delete_job-Indexed :
      (hash : List ℕ → String) (id : String) (s : Store e)
      → Indexed s
      → Indexed (delete_job e hash id s)
  unfolding delete_job
  delete_job-Indexed hash id s i =
      if_some-keeps (λ t. Indexed t) (get_record e id s.db) _
        (λ _. commit_logged-keeps IsIndexed _ s i (bare_delete-IsIndexed id (e.get s.db) i))
        (λ r _.
          if_some-keeps (λ t. Indexed t) (e.commit (delete_batch hash id r) s.db) _ (λ _. i)
            (λ d done.
              subst (λ d'. IsIndexed (e.get d'))
                (sym (db-count_status r.job.status (negsuc 0) (record s { db = d })))
                (subst IsIndexed (sym (contents-commit (delete_batch hash id r) s.db done))
                  (delete-IsIndexed hash id r (e.get s.db) i))))

  pub check_or_insert-Indexed :
      (hash : List ℕ → String) (now : ℕ) (j : Job) (s : Store e)
      → is_empty j.id ≡ false
      → Indexed s
      → Indexed (check_or_insert e hash now j s).0
  unfolding check_or_insert insert_fresh
  check_or_insert-Indexed hash now j s ne i =
      if_some-keeps (λ (t : Store e × (String × Bool)). Indexed t.0)
        (peek e s.db (idem_key (idempotency_hash hash j))) _
        (λ _.
          if_some-keeps (λ t. Indexed t) (e.commit (insert_batch hash now j) s.db) _ (λ _. i)
            (λ d done.
              subst (λ d'. IsIndexed (e.get d'))
                (sym (db-count_status queued (pos 1) (record s { db = d })))
                (subst IsIndexed (sym (contents-commit (insert_batch hash now j) s.db done))
                  (insert-IsIndexed hash now j (e.get s.db) i ne))))
        (λ _ _. i)
