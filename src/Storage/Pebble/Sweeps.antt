-- ===== src/Storage/Pebble/Sweeps.antt =====
-- internal/storage/pebble.go, deleteExpired: what it deletes, and what a failing engine leaves.
use Prim.Native.String.{String}
use text.Mathlib.Text.{◌==◌ as str_eq}
use text.Mathlib.TextEquality.{eq_iff}
use aquifer.Base.{
  ℕ, ◌≤◌, ◌<◌, ◌≡◌, ◌≢◌, inl, inr, refl, sym, subst, ◌∙◌, Bool, false, none, some, List, [], ◌∷◌,
  ◌++◌, arith, ◌==◌, if◌then◌else◌, Bool-cases, if_some-keeps, both_branches, length,
}
use aquifer.Base.Int.{negsuc}
use aquifer.Jobs.Defs.{Status, is_empty}
use aquifer.Storage.Pebble.Engine.{
  Key, job_key, exp_key, PebbleRecord, stored, nothing, Write, del_range, key_eq, written, after,
  Engine, EngineLaws,
}
use aquifer.Storage.Pebble.Defs.{Store, delete_batch}
use aquifer.Storage.Pebble.Expiry.{
  is_due, Batch, empty_batch, uncount, commit_batch, expired_record, with_deleted, delete_one,
  delete_due, delete_listed, delete_expired, expire_batch_size,
}
use aquifer.Storage.Pebble.Indexes.{Contents, IsIndexed, delete-IsIndexed}
use aquifer.Storage.Pebble.Steps.{contents-commit, db-count_status}
use aquifer.Storage.Pebble.Swept.{
  Swept, Swept_refl, Listed, after-append, Swept-delete, past-delete, Among-past, Among-other,
  not_below, range-IsIndexed,
}

module _ (e : Engine) (laws : EngineLaws e) where
  -- Where a loop of deletions stands: `old` are the contents that it began with.
  record Progress (now : ℕ) (old : Contents) (ks : List Key) (ws : List Write) (d : e.Db)
      : Type 0 where
    swept_db : Swept now old (e.get d)
    indexed_db : IsIndexed (e.get d)
    swept : Swept now old (after ws (e.get d))
    indexed : IsIndexed (after ws (e.get d))
    listed : Listed now ks (after ws (e.get d))
    from_db :
        (id : String) (r : PebbleRecord)
        → after ws (e.get d) (job_key id) ≡ some (stored r)
        → e.get d (job_key id) ≡ some (stored r)

  -- What is left when the loop ends.
  pub record SweptClean (now : ℕ) (old : Contents) (d : e.Db) : Type 0 where
    pub kept : Swept now old (e.get d)
    pub still_indexed : IsIndexed (e.get d)
    pub none_expired :
        ((ws : List Write) (c : e.Db) → e.commit ws c ≢ none)
        → (id : String) (r : PebbleRecord) → e.get d (job_key id) ≡ some (stored r)
        → now ≤ r.expires_at

  db-uncount : (sts : List Status) (s : Store e) → (uncount e sts s).db ≡ s.db
  unfolding uncount
  db-uncount [] s = refl
  db-uncount (st ∷ sts) s = db-uncount sts _ ∙ db-count_status e laws st (negsuc 0) s

  expired_record-eq_some :
      (now : ℕ) (id : String) (d : e.Db) (r : PebbleRecord)
      → expired_record e now id d ≡ some r
      → (e.get d (job_key id) ≡ some (stored r)) × (r.expires_at < now)
  unfolding expired_record
  expired_record-eq_some now id d r h = (ground arith, ground arith)

  expired_record-ne_none :
      (now : ℕ) (id : String) (d : e.Db) (r : PebbleRecord)
      → e.fails d (job_key id) ≡ false
      → is_empty id ≡ false
      → e.get d (job_key id) ≡ some (stored r)
      → r.expires_at < now
      → expired_record e now id d ≡ some r
  unfolding expired_record
  expired_record-ne_none now id d r f ne found gone = ground arith

  step-Progress :
      (hash : List ℕ → String) (now t : ℕ) (id : String) (old : Contents) (ks : List Key)
      (b : Batch) (d : e.Db) (r : PebbleRecord)
      → Progress now old (exp_key t id ∷ ks) b.writes d
      → expired_record e now id d ≡ some r
      → Progress now old ks (with_deleted hash id r b).writes d
  unfolding with_deleted
  step-Progress hash now t id old ks b d r g found = record {
    swept_db = g.swept_db;
    indexed_db = g.indexed_db;
    swept =
        subst (Swept now old) (sym split)
          (Swept-delete hash now id r old here g.swept (g.swept_db.only_old id r at.0) at.1);
    indexed = subst IsIndexed (sym split) (delete-IsIndexed hash id r here g.indexed);
    listed = λ j q h l.
        let p =
          past-delete hash id r here j q (subst (λ c. c (job_key j) ≡ some (stored q)) split h) in
        Among-other t q.expires_at id j ks p.0 (g.listed j q p.1 l);
    from_db = λ j q h.
        g.from_db j q
          (past-delete hash id r here j q (subst (λ c. c (job_key j) ≡ some (stored q)) split h)).1;
  }
    where
      here : Contents
      here = after b.writes (e.get d)

      at : (e.get d (job_key id) ≡ some (stored r)) × (r.expires_at < now)
      at = expired_record-eq_some now id d r found

      split :
          after (b.writes ++ delete_batch hash id r) (e.get d) ≡ after (delete_batch hash id r) here
      split = after-append b.writes (delete_batch hash id r) (e.get d)

  skip-Progress :
      (now t : ℕ) (id : String) (old : Contents) (ks : List Key) (b : Batch) (d : e.Db)
      → ((c : e.Db) (k : Key) → e.fails c k ≡ false)
      → Progress now old (exp_key t id ∷ ks) b.writes d
      → expired_record e now id d ≡ none
      → Progress now old ks b.writes d
  skip-Progress now t id old ks b d reads g nothing_due = record {
    swept_db = g.swept_db;
    indexed_db = g.indexed_db;
    swept = g.swept;
    indexed = g.indexed;
    listed = λ j q h l. elim (Bool-cases (str_eq id j)) [
      | inl same ↦
          let found =
            expired_record-ne_none now j d q (reads d (job_key j)) (g.indexed.identified j q h)
              (g.from_db j q h) l in
          absurd (ground (arith, eq_iff id j))
      | inr other ↦ Among-other t q.expires_at id j ks other (g.listed j q h l)
    ];
    from_db = g.from_db;
  }

  fresh-Progress :
      (now : ℕ) (old : Contents) (ks : List Key) (ws : List Write) (d : e.Db) {d' : e.Db}
      → Progress now old ks ws d
      → e.commit ws d ≡ some d'
      → Progress now old ks [] d'
  unfolding after
  fresh-Progress now old ks ws d g done =
      let same = contents-commit e laws ws d done in
      record {
        swept_db = subst (Swept now old) (sym same) g.swept;
        indexed_db = subst IsIndexed (sym same) g.indexed;
        swept = subst (Swept now old) (sym same) g.swept;
        indexed = subst IsIndexed (sym same) g.indexed;
        listed = subst (Listed now ks) (sym same) g.listed;
        from_db = λ id r h. h;
      }

  stopped-SweptClean :
      (now : ℕ) (old : Contents) (ks : List Key) (ws vs : List Write) (d : e.Db)
      → Progress now old ks ws d
      → e.commit vs d ≡ none
      → SweptClean now old d
  stopped-SweptClean now old ks ws vs d g failed = record {
    kept = g.swept_db;
    still_indexed = g.indexed_db;
    none_expired = λ never. absurd (never vs d failed);
  }

  ranged-SweptClean :
      (now : ℕ) (old : Contents) (ws : List Write) (d d' : e.Db)
      → Progress now old [] ws d
      → e.get d' ≡ written (del_range (is_due now)) (after ws (e.get d))
      → SweptClean now old d'
  unfolding written is_due
  ranged-SweptClean now old ws d d' g same = record {
    kept =
        subst (Swept now old) (sym same)
          (record { only_old = g.swept.only_old; live_stays = g.swept.live_stays });
    still_indexed = subst IsIndexed (sym same) (range-IsIndexed now _ g.indexed g.listed);
    none_expired = λ _ id r h.
        not_below now r.expires_at
          (g.listed id r (subst (λ c. c (job_key id) ≡ some (stored r)) same h));
  }

  -- The last batch ends with the range of the due keys.
  last_batch-SweptClean :
      (now : ℕ) (old : Contents) (b : Batch) (s : Store e)
      → Progress now old [] b.writes s.db
      → SweptClean now old
          (commit_batch e (b.writes ++ (del_range (is_due now) ∷ [])) b.statuses s).0.db
  unfolding commit_batch after
  last_batch-SweptClean now old b s g =
      let ws = b.writes ++ (del_range (is_due now) ∷ []) in
      if_some-keeps (λ (p : Store e × Bool). SweptClean now old p.0.db) (e.commit ws s.db) _
        (λ failed. stopped-SweptClean now old [] b.writes ws s.db g failed)
        (λ d done. subst (SweptClean now old) (sym (db-uncount b.statuses (record s { db = d }))) (
          ranged-SweptClean now old b.writes s.db d g (
            contents-commit e laws ws s.db done
            ∙ after-append b.writes (del_range (is_due now) ∷ []) (e.get s.db))))

  delete_one-SweptClean :
      (hash : List ℕ → String) (now : ℕ) (id : String) (r : PebbleRecord) (old : Contents)
      (ks : List Key) (b : Batch) (s : Store e) (next : Batch → Store e → Store e)
      → Progress now old ks (with_deleted hash id r b).writes s.db
      → ((b' : Batch) (s' : Store e)
          → Progress now old ks b'.writes s'.db
          → SweptClean now old (next b' s').db)
      → SweptClean now old (delete_one e hash id r b s next).db
  unfolding delete_one commit_batch
  delete_one-SweptClean hash now id r old ks b s next g rest =
      let b' = with_deleted hash id r b in
      both_branches (λ (t : Store e). SweptClean now old t.db)
        (length b'.statuses == expire_batch_size)
        (if_some-keeps
          (λ (done : Store e × Bool).
            SweptClean now old (if done.1 then next empty_batch done.0 else done.0).db)
          (e.commit b'.writes s.db) _
          (λ failed. stopped-SweptClean now old ks b'.writes b'.writes s.db g failed)
          (λ d done. rest empty_batch _ (
            subst (Progress now old ks []) (sym (db-uncount b'.statuses (record s { db = d })))
              (fresh-Progress now old ks b'.writes s.db g done))))
        (rest b' s g)

  other-Progress :
      (now : ℕ) (old : Contents) (k : Key) (ks : List Key) (ws : List Write) (d : e.Db)
      → ((t : ℕ) (id : String) → key_eq k (exp_key t id) ≡ false)
      → Progress now old (k ∷ ks) ws d
      → Progress now old ks ws d
  other-Progress now old k ks ws d n g = record {
    swept_db = g.swept_db;
    indexed_db = g.indexed_db;
    swept = g.swept;
    indexed = g.indexed;
    listed = λ id r h l.
        Among-past k (exp_key r.expires_at id) ks (n r.expires_at id) (g.listed id r h l);
    from_db = g.from_db;
  }

  delete_due-SweptClean :
      (hash : List ℕ → String) (now : ℕ) (old : Contents)
      → ((c : e.Db) (k : Key) → e.fails c k ≡ false)
      → (ks : List Key) (b : Batch) (s : Store e) → Progress now old ks b.writes s.db
      → SweptClean now old (delete_due e hash now ks b s).db
  unfolding delete_due key_eq
  delete_due-SweptClean hash now old reads [] b s g = last_batch-SweptClean now old b s g
  delete_due-SweptClean hash now old reads (exp_key t id ∷ ks) b s g =
      if_some-keeps (λ (t : Store e). SweptClean now old t.db) (expired_record e now id s.db) _
        (λ idle.
          delete_due-SweptClean hash now old reads ks b s
            (skip-Progress now t id old ks b s.db reads g idle))
        (λ r due.
          delete_one-SweptClean hash now id r old ks b s (delete_due e hash now ks)
            (step-Progress hash now t id old ks b s.db r g due)
            (λ b' s' g'. delete_due-SweptClean hash now old reads ks b' s' g'))
  delete_due-SweptClean hash now old reads (k ∷ ks) b s g =
      delete_due-SweptClean hash now old reads ks b s
        (other-Progress now old k ks b.writes s.db (λ t id. refl) g)

  start-Progress :
      (now : ℕ) (d : e.Db)
      → IsIndexed (e.get d)
      → Progress now (e.get d) (e.scan d (is_due now)) [] d
  unfolding after is_due
  start-Progress now d i = record {
    swept_db = Swept_refl now (e.get d);
    indexed_db = i;
    swept = Swept_refl now (e.get d);
    indexed = i;
    listed = λ id r h l.
        laws.scan_complete d (is_due now) (exp_key r.expires_at id) nothing (i.by_expiry id r h)
          (ground arith);
    from_db = λ id r h. h;
  }

  delete_listed-SweptClean :
      (hash : List ℕ → String) (now : ℕ) (ks : List Key) (s : Store e)
      → ((c : e.Db) (k : Key) → e.fails c k ≡ false)
      → Progress now (e.get s.db) ks [] s.db
      → SweptClean now (e.get s.db) (delete_listed e hash now ks s).db
  unfolding delete_listed after
  delete_listed-SweptClean hash now [] s reads g = record {
    kept = g.swept_db;
    still_indexed = g.indexed_db;
    none_expired = λ _ id r h. not_below now r.expires_at (g.listed id r h);
  }
  delete_listed-SweptClean hash now (k ∷ ks) s reads g =
      delete_due-SweptClean hash now (e.get s.db) reads (k ∷ ks) empty_batch s g

  -- On a store whose jobs are indexed and whose engine fails no read, deleteExpired deletes only
  -- jobs that have expired, changes no other job and keeps the indexes, also when commits fail on
  -- the way; where no commit fails, no job is left that had expired.
  pub delete_expired-SweptClean :
      (hash : List ℕ → String) (now : ℕ) (s : Store e)
      → ((c : e.Db) (k : Key) → e.fails c k ≡ false)
      → IsIndexed (e.get s.db)
      → SweptClean now (e.get s.db) (delete_expired e hash now s).db
  unfolding delete_expired
  delete_expired-SweptClean hash now s reads i =
      delete_listed-SweptClean hash now (e.scan s.db (is_due now)) s reads
        (start-Progress now s.db i)
