-- ===== src/Storage/Pebble/Indexes.antt =====
-- internal/storage/pebble.go: every stored job can be found by the index of expiry times and, while
-- it is pending, by the index of its queue.
use Prim.Native.String.{String}
use text.Mathlib.Text.{◌==◌ as str_eq}
use text.Mathlib.TextEquality.{eq_iff}
use aquifer.Base.{
  ℕ, ◌≡◌, inl, inr, refl, subst, true, false, Option, none, some, List, [], ◌∷◌, arith,
  if◌then◌else◌, Bool-cases,
}
use aquifer.Jobs.Defs.{Job, is_empty}
use aquifer.Storage.Pebble.Engine.{
  Key, job_key, exp_key, queue_index_key, PebbleRecord, Entry, stored, nothing, put, key_eq,
  written, after,
}
use aquifer.Storage.Pebble.Defs.{
  pending_status, insert_batch, fresh_record, expiry_batch, queue_key_batch, delete_batch,
}

abbrev pub Contents : Type 0
Contents = Key → Option Entry

-- What the contents of a database say of each job that they hold.
pub record IsIndexed (get : Contents) : Type 0 where
  pub named : (id : String) (r : PebbleRecord) → get (job_key id) ≡ some (stored r) → r.job.id ≡ id
  pub identified :
      (id : String) (r : PebbleRecord) → get (job_key id) ≡ some (stored r) → is_empty id ≡ false
  pub by_expiry :
      (id : String) (r : PebbleRecord)
      → get (job_key id) ≡ some (stored r)
      → get (exp_key r.expires_at id) ≡ some nothing
  pub by_queue :
      (id : String) (r : PebbleRecord)
      → get (job_key id) ≡ some (stored r)
      → pending_status r.job.status ≡ true
      → is_empty r.queue_key ≡ false
      → get (queue_index_key r.queue_key r.job.created_at id) ≡ some nothing

pub put_record-IsIndexed :
    (get : Contents) (id : String) (r r' : PebbleRecord)
    → IsIndexed get
    → get (job_key id) ≡ some (stored r)
    → r'.job.id ≡ r.job.id
    → r'.expires_at ≡ r.expires_at
    → r'.queue_key ≡ r.queue_key
    → r'.job.created_at ≡ r.job.created_at
    → (pending_status r'.job.status ≡ true → pending_status r.job.status ≡ true)
    → IsIndexed (after (put (job_key id) (stored r') ∷ []) get)
unfolding after written key_eq
put_record-IsIndexed get id r r' i h e1 e2 e3 e4 p = record {
  named = λ j q hq. ground (arith, eq_iff id j, i.named j q, i.named id r);
  identified = λ j q hq. ground (arith, eq_iff id j, i.identified j q, i.identified id r);
  by_expiry = λ j q hq. ground (arith, eq_iff id j, i.by_expiry j q, i.by_expiry id r);
  by_queue = λ j q hq pq nq. ground (arith, eq_iff id j, i.by_queue j q, i.by_queue id r, p);
}

get-insert :
    (hash : List ℕ → String) (now : ℕ) (j : Job) (get : Contents) (id : String)
    → after (insert_batch hash now j) get (job_key id)
      ≡ (if str_eq j.id id then some (stored (fresh_record now j)) else get (job_key id))
unfolding after written key_eq insert_batch
get-insert hash now j get id = refl

fresh-unqueued : (now : ℕ) (j : Job) → is_empty (fresh_record now j).queue_key ≡ true
unfolding fresh_record
fresh-unqueued now j = refl

insert-by_queue :
    (hash : List ℕ → String) (now : ℕ) (j : Job) (get : Contents) (id : String) (q : PebbleRecord)
    → IsIndexed get
    → after (insert_batch hash now j) get (job_key id) ≡ some (stored q)
    → pending_status q.job.status ≡ true
    → is_empty q.queue_key ≡ false
    → get (queue_index_key q.queue_key q.job.created_at id) ≡ some nothing
insert-by_queue hash now j get id q i hq p n = elim (Bool-cases (str_eq j.id id)) [
  | inl same ↦ ground (arith, get-insert hash now j get id, fresh-unqueued now j)
  | inr other ↦ i.by_queue id q (ground (arith, get-insert hash now j get id)) p n
]

insert-identified :
    (hash : List ℕ → String) (now : ℕ) (j : Job) (get : Contents) (id : String) (q : PebbleRecord)
    → IsIndexed get
    → is_empty j.id ≡ false
    → after (insert_batch hash now j) get (job_key id) ≡ some (stored q)
    → is_empty id ≡ false
insert-identified hash now j get id q i ne hq = elim (Bool-cases (str_eq j.id id)) [
  | inl same ↦ subst (λ s. is_empty s ≡ false) ((eq_iff j.id id).0 same) ne
  | inr other ↦ i.identified id q (ground (arith, get-insert hash now j get id))
]

pub insert-IsIndexed :
    (hash : List ℕ → String) (now : ℕ) (j : Job) (get : Contents)
    → IsIndexed get
    → is_empty j.id ≡ false
    → IsIndexed (after (insert_batch hash now j) get)
unfolding after written key_eq insert_batch
insert-IsIndexed hash now j get i ne = record {
  named = λ id q hq. ground (arith, eq_iff j.id id, i.named id q);
  identified = λ id q hq. insert-identified hash now j get id q i ne hq;
  by_expiry = λ id q hq. ground (arith, eq_iff j.id id, eq_iff id id, i.by_expiry id q);
  by_queue = λ id q hq pq nq. insert-by_queue hash now j get id q i hq pq nq;
}

pub expiry-IsIndexed :
    (get : Contents) (id : String) (r r' : PebbleRecord)
    → IsIndexed get
    → get (job_key id) ≡ some (stored r)
    → r'.job.id ≡ r.job.id
    → r'.queue_key ≡ r.queue_key
    → r'.job.created_at ≡ r.job.created_at
    → (pending_status r'.job.status ≡ true → pending_status r.job.status ≡ true)
    → IsIndexed (after (expiry_batch id r' r.expires_at) get)
unfolding after written key_eq expiry_batch
expiry-IsIndexed get id r r' i h e1 e2 e3 p = record {
  named = λ j q hq. ground (arith, eq_iff id j, i.named j q, i.named id r);
  identified = λ j q hq. ground (arith, eq_iff id j, i.identified j q, i.identified id r);
  by_expiry = λ j q hq. ground (arith, eq_iff id j, i.by_expiry j q, i.by_expiry id r);
  by_queue = λ j q hq pq nq. ground (arith, eq_iff id j, i.by_queue j q, i.by_queue id r, p);
}

pub queue_key-IsIndexed :
    (get : Contents) (id key : String) (r : PebbleRecord)
    → IsIndexed get
    → get (job_key id) ≡ some (stored r)
    → IsIndexed (after (queue_key_batch id key r) get)
unfolding after written key_eq queue_key_batch
queue_key-IsIndexed get id key r i h = record {
  named = λ j q hq. ground (arith, eq_iff id j, i.named j q, i.named id r);
  identified = λ j q hq. ground (arith, eq_iff id j, i.identified j q, i.identified id r);
  by_expiry = λ j q hq. ground (arith, eq_iff id j, i.by_expiry j q, i.by_expiry id r);
  by_queue = λ j q hq pq nq.
      ground (arith, eq_iff id j, eq_iff key key, eq_iff id id, i.by_queue j q, i.by_queue id r);
}

pub get-delete :
    (hash : List ℕ → String) (id : String) (r : PebbleRecord) (get : Contents) (j : String)
    → after (delete_batch hash id r) get (job_key j)
      ≡ (if str_eq id j then none else get (job_key j))
unfolding after written key_eq delete_batch
get-delete hash id r get j = ground arith

pub get_exp-delete :
    (hash : List ℕ → String) (id : String) (r : PebbleRecord) (get : Contents) (t : ℕ) (j : String)
    → after (delete_batch hash id r) get (exp_key t j) ≡ get (exp_key t j)
unfolding after written key_eq delete_batch
get_exp-delete hash id r get t j = ground arith

get_queue-delete :
    (hash : List ℕ → String) (id : String) (r : PebbleRecord) (get : Contents) (q : String) (t : ℕ)
    (j : String)
    → str_eq id j ≡ false
    → after (delete_batch hash id r) get (queue_index_key q t j) ≡ get (queue_index_key q t j)
unfolding after written key_eq delete_batch
get_queue-delete hash id r get q t j h = ground arith

pub delete-IsIndexed :
    (hash : List ℕ → String) (id : String) (r : PebbleRecord) (get : Contents)
    → IsIndexed get
    → IsIndexed (after (delete_batch hash id r) get)
delete-IsIndexed hash id r get i = record {
  named = λ j q hq. ground (arith, get-delete hash id r get j, i.named j q);
  identified = λ j q hq. ground (arith, get-delete hash id r get j, i.identified j q);
  by_expiry = λ j q hq. ground (
    arith,
    get-delete hash id r get j,
    get_exp-delete hash id r get q.expires_at j,
    i.by_expiry j q,
  );
  by_queue = λ j q hq p n. ground (
    arith,
    get-delete hash id r get j,
    get_queue-delete hash id r get q.queue_key q.job.created_at j,
    i.by_queue j q,
  );
}
