-- ===== src/Storage/Pebble/Engine.antt =====
-- The key-value engine below internal/storage/pebble.go: github.com/cockroachdb/pebble, which is not
-- part of the repository. The store uses point reads, batches that are applied whole or not at all,
-- and scans of a range of keys in the order of their bytes. A key's bytes are kept apart in its
-- parts, and a range is a test of keys.
use Prim.Native.String.{String}
use text.Mathlib.Text.{◌==◌ as str_eq}
use text.Mathlib.TextEquality.{eq_iff}
use aquifer.Base.{
  ℕ, ◌≡◌, ◌≢◌, ◌↔◌, ◌⊎◌, Bool, true, false, ◌&&◌, Option, none, some, List, [], ◌∷◌, All, arith,
  ◌==◌, ==_iff, if◌then◌else◌,
}
use aquifer.Base.Dict.{Eq}
use aquifer.Base.Int.{ℤ}
use aquifer.Jobs.Defs.{Job, Status}

-- The keys, by the functions that spell them.
pub data Key : Type 0 where
  job_key : String → Key
  idem_key : String → Key
  exp_key : ℕ → String → Key
  queue_index_key : String → ℕ → String → Key
  drain_seq_key : ℕ → Key
  drain_job_key : String → Key
  meta_key : String → Key

pub record Result : Type 0 where
  pub result_job_id : String
  pub result_status : Status
  pub response_status : ℤ
  pub content_type : String
  pub result_body : String
  pub body_truncated : Bool
  pub recorded_at : ℕ
  pub source : String

pub record PebbleRecord : Type 0 where
  pub job : Job
  pub queue_key : String
  pub expires_at : ℕ
  pub result : Option Result

pub record DrainEvent : Type 0 where
  pub sequence : ℕ
  pub hash_key : String
  pub event_job_id : String
  pub event_status : Status
  pub event_recorded_at : ℕ

-- A value, as its reader decodes it: `garbage` does not decode.
pub data Entry : Type 0 where
  stored : PebbleRecord → Entry
  id_entry : String → Entry
  number : ℕ → Entry
  event : DrainEvent → Entry
  nothing garbage : Entry

pub data Write : Type 0 where
  put : Key → Entry → Write
  del : Key → Write
  del_range : (Key → Bool) → Write

unfoldable pub key_eq : Key → Key → Bool
key_eq (job_key a) (job_key b) = str_eq a b
key_eq (idem_key a) (idem_key b) = str_eq a b
key_eq (exp_key t a) (exp_key u b) = t == u && str_eq a b
key_eq (queue_index_key q t a) (queue_index_key r u b) = str_eq q r && t == u && str_eq a b
key_eq (drain_seq_key n) (drain_seq_key m) = n == m
key_eq (drain_job_key a) (drain_job_key b) = str_eq a b
key_eq (meta_key a) (meta_key b) = str_eq a b
key_eq _ _ = false

pub key_eq_iff : (x y : Key) → (key_eq x y ≡ true) ↔ (x ≡ y)
unfolding key_eq
key_eq_iff (job_key a) (job_key b) = ground (arith, eq_iff a b)
key_eq_iff (idem_key a) (idem_key b) = ground (arith, eq_iff a b)
key_eq_iff (exp_key t a) (exp_key u b) = ground (arith, ==_iff t u, eq_iff a b)
key_eq_iff (queue_index_key q t a) (queue_index_key r u b) =
    ground (arith, eq_iff q r, ==_iff t u, eq_iff a b)
key_eq_iff (drain_seq_key n) (drain_seq_key m) = ground (arith, ==_iff n m)
key_eq_iff (drain_job_key a) (drain_job_key b) = ground (arith, eq_iff a b)
key_eq_iff (meta_key a) (meta_key b) = ground (arith, eq_iff a b)
key_eq_iff _ _ = ground arith

instance abbrev pub key_keys : Eq Key
key_keys = record { beq = key_eq; beq_iff = key_eq_iff }

-- The contents after one write, and after a batch.
unfoldable pub written : Write → (Key → Option Entry) → Key → Option Entry
written (put j v) get k = if key_eq j k then some v else get k
written (del j) get k = if key_eq j k then none else get k
written (del_range due) get k = if due k then none else get k

unfoldable pub after : List Write → (Key → Option Entry) → Key → Option Entry
after [] get = get
after (w ∷ ws) get = after ws (written w get)

abbrev pub Among : Key → List Key → Type 0
Among k [] = ⊥
Among k (j ∷ js) = ((key_eq j k ≡ true) ⊎ Among k js)

-- `get` is what a database holds under a key, `fails` tells which reads return an error other than
-- ErrNotFound, and a commit that returns an error leaves the database as it was (`none`).
pub record Engine : Type 1 where
  pub Db : Type 0
  pub get : Db → Key → Option Entry
  pub fails : Db → Key → Bool
  pub commit : List Write → Db → Option Db
  pub scan : Db → (Key → Bool) → List Key

pub record EngineLaws (e : Engine) : Type 0 where
  pub get-commit :
      (ws : List Write) (d : e.Db) {d' : e.Db}
      → e.commit ws d ≡ some d'
      → (k : Key) → e.get d' k ≡ after ws (e.get d) k
  pub scan_sound :
      (d : e.Db) (due : Key → Bool) → All (λ k. (due k ≡ true) × (e.get d k ≢ none)) (e.scan d due)
  pub scan_complete :
      (d : e.Db) (due : Key → Bool) (k : Key) (v : Entry)
      → e.get d k ≡ some v
      → due k ≡ true
      → Among k (e.scan d due)
