-- ===== src/Storage/Pebble/Expiry.antt =====
-- internal/storage/pebble.go: deleting the jobs that have expired, and the ledger of drain events.
-- `now` is in Unix milliseconds here, as in deleteExpired.
use Prim.Native.String.{String}
use aquifer.Base.{
  ℕ, ◌-◌, Bool, true, false, Option, none, some, List, [], ◌∷◌, ◌++◌, length, ltb, leb, ◌==◌,
  if◌then◌else◌, if_some,
}
use aquifer.Base.Int.{pos, negsuc}
use aquifer.Jobs.Defs.{Status, is_empty}
use aquifer.Storage.Pebble.Engine.{
  Key, idem_key, exp_key, drain_seq_key, drain_job_key, meta_key, PebbleRecord, DrainEvent, event,
  nothing, Write, put, del, del_range, Engine,
}
use aquifer.Storage.Pebble.Defs.{
  Store, peek, get_record, delete_batch, count_status, commit_logged, drain_sequence_meta_key,
}
use aquifer.Storage.Pebble.Scans.{is_job_key, for_each_job_including_expired}

-- The range of the expiry index up to expKeyBound(now).
unfoldable pub is_due : ℕ → Key → Bool
is_due now (exp_key t id) = ltb t now
is_due now _ = false

unfoldable pub is_exp_key : Key → Bool
is_exp_key (exp_key t id) = true
is_exp_key _ = false

unfoldable pub is_idem_key : Key → Bool
is_idem_key (idem_key h) = true
is_idem_key _ = false

unfoldable pub is_drain_seq_key : Key → Bool
is_drain_seq_key (drain_seq_key n) = true
is_drain_seq_key _ = false

unfoldable pub is_drain_job_key : Key → Bool
is_drain_job_key (drain_job_key id) = true
is_drain_job_key _ = false

abbrev pub expire_batch_size : ℕ
expire_batch_size = 512

abbrev pub exp_index_marker : Key
exp_index_marker = meta_key "exp-index-v1"

-- The batch at hand and the statuses of the jobs that it deletes.
pub record Batch : Type 0 where
  pub writes : List Write
  pub statuses : List Status

abbrev pub empty_batch : Batch
empty_batch = record { writes = []; statuses = [] }

unfoldable pub with_deleted : (List ℕ → String) → String → PebbleRecord → Batch → Batch
unfolding delete_batch
with_deleted hash id r b = record {
  writes = b.writes ++ delete_batch hash id r;
  statuses = b.statuses ++ (r.job.status ∷ []);
}

unfoldable pub expiry_puts : List PebbleRecord → List Write
expiry_puts [] = []
expiry_puts (r ∷ rs) = put (exp_key r.expires_at r.job.id) nothing ∷ expiry_puts rs

unfoldable pub first : ℕ → List DrainEvent → List DrainEvent
first limit [] = []
first limit (ev ∷ evs) = if limit == 0 then [] else ev ∷ first (limit - 1) evs

unfoldable pub acknowledged : ℕ → List DrainEvent → List Write
acknowledged through [] = []
acknowledged through (ev ∷ evs) =
    if ltb through ev.sequence
    then []
    else del (drain_seq_key ev.sequence)
      ∷ (del (drain_job_key ev.event_job_id) ∷ acknowledged through evs)

module _ (e : Engine) where
  unfoldable pub uncount : List Status → Store e → Store e
  unfolding count_status
  uncount [] s = s
  uncount (st ∷ sts) s = uncount sts (count_status e st (negsuc 0) s)

  -- A commit of the batch, and whether it succeeded.
  unfoldable pub commit_batch : List Write → List Status → Store e → Store e × Bool
  unfolding uncount
  commit_batch ws sts s =
      if_some (e.commit ws s.db) (s, false) (λ d. (uncount sts (record s { db = d }), true))

  -- The record of a due key that is to go.
  unfoldable pub expired_record : ℕ → String → e.Db → Option PebbleRecord
  unfolding get_record
  expired_record now id d =
      if is_empty id
      then none
      else if_some (get_record e id d) none (λ r. if leb now r.expires_at then none else some r)

  -- One expired job goes into the batch, which is committed when it is full; `next` is the rest of
  -- the loop.
  unfoldable pub delete_one :
      (List ℕ → String)
      → String
      → PebbleRecord
      → Batch
      → Store e
      → (Batch → Store e → Store e)
      → Store e
  unfolding commit_batch with_deleted
  delete_one hash id r b s next =
      let b' = with_deleted hash id r b in
      let done = commit_batch b'.writes b'.statuses s in
      if length b'.statuses == expire_batch_size
      then if done.1 then next empty_batch done.0 else done.0
      else next b' s

  -- The loop over the due keys, with the last batch, which deletes their range.
  unfoldable pub delete_due : (List ℕ → String) → ℕ → List Key → Batch → Store e → Store e
  unfolding commit_batch expired_record delete_one
  delete_due hash now [] b s =
      (commit_batch (b.writes ++ (del_range (is_due now) ∷ [])) b.statuses s).0
  delete_due hash now (exp_key t id ∷ ks) b s =
      let skipped = delete_due hash now ks b s in
      if_some (expired_record now id s.db) skipped
        (λ r. delete_one hash id r b s (delete_due hash now ks))
  delete_due hash now (k ∷ ks) b s = delete_due hash now ks b s

  unfoldable pub delete_listed : (List ℕ → String) → ℕ → List Key → Store e → Store e
  unfolding delete_due
  delete_listed hash now [] s = s
  delete_listed hash now (k ∷ ks) s = delete_due hash now (k ∷ ks) empty_batch s

  unfoldable pub delete_expired : (List ℕ → String) → ℕ → Store e → Store e
  unfolding delete_listed is_due
  delete_expired hash now s = delete_listed hash now (e.scan s.db (is_due now)) s

  unfoldable pub backfill_expiry_index : Store e → Store e
  unfolding expiry_puts for_each_job_including_expired commit_logged
  backfill_expiry_index s =
      if_some (peek e s.db exp_index_marker)
        (commit_logged e
          (expiry_puts (for_each_job_including_expired e s.db)
            ++ (put exp_index_marker nothing ∷ []))
          s)
        (λ v. s)

  -- The events that decode, in order.
  unfoldable pub events_at : e.Db → List Key → List DrainEvent
  events_at d [] = []
  events_at d (k ∷ ks) = elim (e.get d k) [
    | some (event ev) ↦ ev ∷ events_at d ks
    | _ ↦ events_at d ks
  ]

  unfoldable pub list_drain_events : ℕ → e.Db → List DrainEvent
  unfolding first events_at is_drain_seq_key
  list_drain_events limit d =
      first (if limit == 0 then 1_000 else limit) (events_at d (e.scan d is_drain_seq_key))

  unfoldable pub acknowledge_drain_events_through : ℕ → Store e → Store e
  unfolding acknowledged events_at is_drain_seq_key commit_logged
  acknowledge_drain_events_through through s =
      if through == 0
      then s
      else commit_logged e (acknowledged through (events_at s.db (e.scan s.db is_drain_seq_key))) s

  -- Each key is deleted by itself; an error is logged.
  unfoldable pub delete_each : List Key → Store e → Store e
  unfolding commit_logged
  delete_each [] s = s
  delete_each (k ∷ ks) s = delete_each ks (commit_logged e (del k ∷ []) s)

  unfoldable pub delete_prefix : (Key → Bool) → Store e → Store e
  unfolding delete_each
  delete_prefix range s = delete_each (e.scan s.db range) s

  unfoldable pub clear_idempotent_keys : Store e → Store e
  unfolding delete_prefix delete_each is_job_key is_idem_key is_exp_key is_drain_seq_key
      is_drain_job_key
  clear_idempotent_keys s =
      let jobs_gone = delete_prefix is_job_key s in
      let idem_gone = delete_prefix is_idem_key jobs_gone in
      let exp_gone = delete_prefix is_exp_key idem_gone in
      let events_gone = delete_prefix is_drain_seq_key exp_gone in
      let drain_gone = delete_prefix is_drain_job_key events_gone in
      record (delete_each (drain_sequence_meta_key ∷ []) drain_gone) {
        queued_count = pos 0;
        in_flight_count = pos 0;
      }
