-- ===== src/Storage/Pebble/Inserts.antt =====
-- internal/storage/pebble.go, CheckOrInsert: an identity is taken once, and until its job is deleted.
use Prim.Native.String.{String}
use text.Mathlib.TextEquality.{eq_iff}
use aquifer.Base.{
  ℕ, ◌≡◌, sym, subst, ◌∙◌, ap, Bool, true, false, Option, none, some, List, [], ◌∷◌, arith, if_some,
  if◌then◌else◌, leb,
}
use aquifer.Base.Int.{pos, negsuc}
use aquifer.Jobs.Defs.{Job, queued, idempotency_hash, unix_milli}
use aquifer.Storage.Pebble.Engine.{
  Key, job_key, idem_key, Result, PebbleRecord, Entry, stored, put, del, key_eq, written, after,
  Engine, EngineLaws,
}
use aquifer.Storage.Pebble.Defs.{
  Store, peek, get_record, insert_fresh, check_or_insert, count_status, delete_job, delete_batch,
  put_result, put_record, get_result, commit_logged, as_text,
}
use aquifer.Storage.Pebble.Steps.{contents-commit, db-count_status}

get_idem-delete :
    (hash : List ℕ → String) (id : String) (r : PebbleRecord) (get : Key → Option Entry)
    → after (delete_batch hash id r) get (idem_key (idempotency_hash hash r.job)) ≡ none
unfolding after written key_eq delete_batch
get_idem-delete hash id r get =
    ground (arith, eq_iff (idempotency_hash hash r.job) (idempotency_hash hash r.job))

module _ (e : Engine) (laws : EngineLaws e) where
  stored_fresh : Store e → e.Db → Store e
  stored_fresh s d = count_status e queued (pos 1) (record s { db = d })

  delete_job-found :
      (hash : List ℕ → String) (id : String) (s : Store e) (r : PebbleRecord) (d : e.Db)
      → get_record e id s.db ≡ some r
      → e.commit (delete_batch hash id r) s.db ≡ some d
      → (delete_job e hash id s).db ≡ d
  unfolding delete_job count_status
  delete_job-found hash id s r d found done =
      ap
        (λ o.
          (if_some o (commit_logged e (del (job_key id) ∷ []) s) (λ q.
            if_some (e.commit (delete_batch hash id q) s.db) s
              (λ c. count_status e q.job.status (negsuc 0) (record s { db = c })))).db)
        found
      ∙ ap
          (λ o.
            (if_some o s (λ c. count_status e r.job.status (negsuc 0) (record s { db = c }))).db)
          done
      ∙ db-count_status e laws r.job.status (negsuc 0) (record s { db = d })

  peek-none : (d : e.Db) (k : Key) → e.get d k ≡ none → peek e d k ≡ none
  peek-none d k h = ground arith

  check_or_insert-untaken :
      (hash : List ℕ → String) (now : ℕ) (j : Job) (s : Store e)
      → e.get s.db (idem_key (idempotency_hash hash j)) ≡ none
      → (check_or_insert e hash now j s).1 ≡ ("", false)
  unfolding check_or_insert
  check_or_insert-untaken hash now j s free =
      ap
        (λ o.
          (if_some {B = Store e × (String × Bool)} o (insert_fresh e hash now j s, ("", false))
            (λ v. (s, (as_text v, true)))).1)
        (peek-none s.db (idem_key (idempotency_hash hash j)) free)

  -- Deleting a job that can be read frees its identity: a later job with the same hash is taken for
  -- a fresh one.
  pub delete_frees :
      (hash : List ℕ → String) (now : ℕ) (id : String) (k : Job) (s : Store e) (r : PebbleRecord)
      (d : e.Db)
      → get_record e id s.db ≡ some r
      → e.commit (delete_batch hash id r) s.db ≡ some d
      → idempotency_hash hash k ≡ idempotency_hash hash r.job
      → (check_or_insert e hash now k (delete_job e hash id s)).1 ≡ ("", false)
  delete_frees hash now id k s r d found done same =
      check_or_insert-untaken hash now k (delete_job e hash id s) (
        subst (λ h. e.get (delete_job e hash id s).db (idem_key h) ≡ none) (sym same)
          (subst (λ c. e.get c (idem_key (idempotency_hash hash r.job)) ≡ none)
            (sym (delete_job-found hash id s r d found done))
            (subst (λ get. get (idem_key (idempotency_hash hash r.job)) ≡ none)
              (sym (contents-commit e laws _ s.db done)) (get_idem-delete hash id r (e.get s.db)))))

  put_result-found :
      (id : String) (res : Result) (s : Store e) (r : PebbleRecord) (d : e.Db)
      → get_record e id s.db ≡ some r
      → e.commit (put (job_key id) (stored (record r { result = some res })) ∷ []) s.db ≡ some d
      → (put_result e id res s).db ≡ d
  unfolding put_result put_record commit_logged
  put_result-found id res s r d found done =
      ap
        (λ o.
          (if_some {B = Store e} o s (λ q. put_record e id (record q { result = some res }) s)).db)
        found
      ∙ ap (λ o. (if_some {B = Store e} o s (λ c. record s { db = c })).db) done

  get_record-put :
      (id : String) (q : PebbleRecord) (d d' : e.Db)
      → e.commit (put (job_key id) (stored q) ∷ []) d ≡ some d'
      → e.fails d' (job_key id) ≡ false
      → get_record e id d' ≡ some q
  unfolding get_record after written key_eq
  get_record-put id q d d' done reads =
      ground (
        arith,
        eq_iff id id,
        laws.get-commit (put (job_key id) (stored q) ∷ []) d done (job_key id),
      )

  -- The result that PutResult stores for a job is what GetResult answers with until the job expires,
  -- and nothing from then on.
  pub put-get_result :
      (now : ℕ) (id : String) (res : Result) (s : Store e) (r : PebbleRecord) (d : e.Db)
      → get_record e id s.db ≡ some r
      → e.commit (put (job_key id) (stored (record r { result = some res })) ∷ []) s.db ≡ some d
      → e.fails d (job_key id) ≡ false
      → get_result e now id (put_result e id res s)
        ≡ (if leb r.expires_at (unix_milli now) then none else some res)
  unfolding get_result
  put-get_result now id res s r d found done reads =
      ap
        (λ o.
          if_some {B = Option Result} o none
            (λ q. if leb q.expires_at (unix_milli now) then none else q.result))
        (ap (get_record e id) (put_result-found id res s r d found done)
          ∙ get_record-put id (record r { result = some res }) s.db d done reads)
