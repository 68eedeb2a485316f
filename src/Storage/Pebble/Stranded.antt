-- ===== src/Storage/Pebble/Stranded.antt =====
-- internal/storage/pebble.go, deleteExpired: a read that fails is taken for a job that is gone.
use Prim.Native.String.{String}
use aquifer.Base.{ℕ, ◌<◌, ◌≡◌, sym, subst, ◌∙◌, ap, true, Option, none, some, List, [], ◌∷◌, arith}
use aquifer.Storage.Pebble.Engine.{
  Key, job_key, exp_key, PebbleRecord, Entry, stored, nothing, del_range, written, after, Among,
  Engine, EngineLaws,
}
use aquifer.Storage.Pebble.Defs.{Store}
use aquifer.Storage.Pebble.Expiry.{
  is_due, empty_batch, commit_batch, uncount, expired_record, delete_due, delete_listed,
  delete_expired,
}
use aquifer.Storage.Pebble.Steps.{contents-commit}

module _ (e : Engine) (laws : EngineLaws e) where
  no_record :
      (now : ℕ) (id : String) (d : e.Db)
      → e.fails d (job_key id) ≡ true
      → expired_record e now id d ≡ none
  unfolding expired_record
  no_record now id d f = ground arith

  delete_due-range :
      (hash : List ℕ → String) (now : ℕ) (ks : List Key) (s : Store e) (d : e.Db)
      → ((k : Key) → e.fails s.db k ≡ true)
      → e.commit (del_range (is_due now) ∷ []) s.db ≡ some d
      → (delete_due e hash now ks empty_batch s).db ≡ d
  unfolding delete_due commit_batch uncount
  delete_due-range hash now [] s d f done = ground arith
  delete_due-range hash now (exp_key t id ∷ ks) s d f done =
      let ih = delete_due-range hash now ks s d f done in
      ground (arith, no_record now id s.db (f (job_key id)))
  delete_due-range hash now (k ∷ ks) s d f done = delete_due-range hash now ks s d f done

  delete_listed-range :
      (hash : List ℕ → String) (now : ℕ) (j : Key) (ks : List Key) (s : Store e) (d : e.Db)
      → ((k : Key) → e.fails s.db k ≡ true)
      → e.commit (del_range (is_due now) ∷ []) s.db ≡ some d
      → Among j ks
      → (delete_listed e hash now ks s).db ≡ d
  unfolding delete_listed
  delete_listed-range hash now j [] s d f done m = absurd m
  delete_listed-range hash now j (k ∷ ks) s d f done m =
      delete_due-range hash now (k ∷ ks) s d f done

  ranged-contents :
      (now : ℕ) (id : String) (r : PebbleRecord) (get : Key → Option Entry)
      → get (job_key id) ≡ some (stored r)
      → r.expires_at < now
      → (after (del_range (is_due now) ∷ []) get (job_key id) ≡ some (stored r))
        × (after (del_range (is_due now) ∷ []) get (exp_key r.expires_at id) ≡ none)
  unfolding after written is_due
  ranged-contents now id r get job gone = (job, ground arith)

  -- Where the reads of jobs fail while a commit succeeds, deleteExpired keeps every expired job and
  -- deletes the key by which a later pass would find it.
  pub failed_reads_strand :
      (hash : List ℕ → String) (now : ℕ) (id : String) (r : PebbleRecord) (s : Store e) (d : e.Db)
      → ((k : Key) → e.fails s.db k ≡ true)
      → e.commit (del_range (is_due now) ∷ []) s.db ≡ some d
      → e.get s.db (job_key id) ≡ some (stored r)
      → e.get s.db (exp_key r.expires_at id) ≡ some nothing
      → r.expires_at < now
      → (e.get (delete_expired e hash now s).db (job_key id) ≡ some (stored r))
        × (e.get (delete_expired e hash now s).db (exp_key r.expires_at id) ≡ none)
  unfolding delete_expired is_due
  failed_reads_strand hash now id r s d f done job entry gone =
      let listed =
        laws.scan_complete s.db (is_due now) (exp_key r.expires_at id) nothing entry
          (ground arith) in
      let same = delete_listed-range hash now _ (e.scan s.db (is_due now)) s d f done listed in
      subst (λ get. (get (job_key id) ≡ some (stored r)) × (get (exp_key r.expires_at id) ≡ none))
        (sym (ap e.get same ∙ contents-commit e laws _ s.db done))
        (ranged-contents now id r (e.get s.db) job gone)
