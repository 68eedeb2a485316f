-- ===== src/Jobs/Defs.antt =====
-- internal/jobs/job.go: requests and jobs. `now` is in nanoseconds, and a job's times in Unix
-- milliseconds, where every use treats a value of 0 or less alike: such a time is 0 here. SHA-256,
-- the clock, the random id and the settings are parameters.
use Prim.Native.String.{String}
use text.Mathlib.Text.{◌==◌ as str_eq}
use aquifer.Base.{
  ℕ, ◌+◌, ◌*◌, ◌/◌, Bool, true, not, ◌&&◌, ◌||◌, Option, none, some, List, ◌∷◌, ◌++◌, ltb, leb,
  ◌==◌, if◌then◌else◌,
}
use aquifer.Base.Int.{ℤ, pos, negsuc, pos_part, lebℤ, ltbℤ}
use aquifer.Base.Text.{codes, contains_code}

pub data Status : Type 0 where
  queued in_flight completed failed : Status

pub record Job : Type 0 where
  pub id : String
  pub user_id : String
  pub idempotent_key : String
  pub url : String
  pub pool_id : String
  pub method : String
  pub body : String
  pub webhook_url : String
  pub kind : String
  pub status : Status
  pub created_at : ℕ
  pub execute_before : ℕ
  pub idempotency_scope : String
  pub max_retries : ℤ
  pub attempts : ℕ
  pub webhook_max_retries : Option ℤ
  pub dedup_cache : String

pub record Request : Type 0 where
  pub req_user_id : String
  pub req_idempotent_key : String
  pub req_url : String
  pub req_pool_id : String
  pub req_method : String
  pub req_body : String
  pub req_webhook_url : String
  pub req_execute_before : ℤ
  pub req_idempotency_scope : String
  pub req_max_retries : Option ℤ
  pub req_webhook_max_retries : Option ℤ

-- The messages of `Validate`; `valid` is the empty one.
pub data Verdict : Type 0 where
  valid bad_execute_before no_user_id nul_user_id no_idempotent_key bad_max_retries : Verdict
  bad_webhook_max_retries bad_scope shared_disabled no_target two_targets no_method : Verdict
  url_not_allowed : Verdict

abbrev pub default_max_retries : ℤ
default_max_retries = pos 4

abbrev pub retry_until_complete : ℤ
retry_until_complete = negsuc 0

abbrev pub max_allowed_retries : ℤ
max_allowed_retries = pos 100

abbrev pub default_webhook_max_retries : ℤ
default_webhook_max_retries = pos 10

unfoldable pub valid_retry_limit : Option ℤ → Bool
valid_retry_limit none = true
valid_retry_limit (some n) = lebℤ retry_until_complete n && lebℤ n max_allowed_retries

abbrev pub is_empty : String → Bool
is_empty s = str_eq s ""

-- The rest of `Validate`, in two parts: first the target, then the settings.
unfoldable pub validate_target : (String → Bool) → Request → Verdict
validate_target allowed r =
    if is_empty r.req_url && is_empty r.req_pool_id
    then no_target
    else if not (is_empty r.req_url) && not (is_empty r.req_pool_id)
    then two_targets
    else if is_empty r.req_method
    then no_method
    else if not (is_empty r.req_url) && not (allowed r.req_url)
    then url_not_allowed
    else valid

unfoldable pub validate_scope : Bool → (String → Bool) → Request → Verdict
unfolding validate_target
validate_scope shared_enabled allowed r =
    if not (is_empty r.req_idempotency_scope)
      && not (str_eq r.req_idempotency_scope "user")
      && not (str_eq r.req_idempotency_scope "shared")
    then bad_scope
    else if str_eq r.req_idempotency_scope "shared" && not shared_enabled
    then shared_disabled
    else validate_target allowed r

-- `shared_enabled` is `SharedIdempotencyEnabled()` and `allowed` is `urlpolicy.Allowed`.
unfoldable pub validate : Bool → (String → Bool) → Request → Verdict
validate shared_enabled allowed r =
    if ltbℤ r.req_execute_before (pos 0)
    then bad_execute_before
    else if is_empty r.req_user_id
    then no_user_id
    else if contains_code 0 (codes r.req_user_id)
    then nul_user_id
    else if is_empty r.req_idempotent_key
    then no_idempotent_key
    else if not (valid_retry_limit r.req_max_retries)
    then bad_max_retries
    else if not (valid_retry_limit r.req_webhook_max_retries)
    then bad_webhook_max_retries
    else validate_scope shared_enabled allowed r

-- `hash` is the hex SHA-256 of a text, given by its code points.
unfoldable pub dedup_hash : (List ℕ → String) → String → String → String → String
dedup_hash hash user_id idempotent_key scope =
    if str_eq scope "shared"
    then hash (codes "shared" ++ 0 ∷ codes idempotent_key)
    else hash (codes user_id ++ b':' ∷ codes idempotent_key)

unfoldable pub idempotency_hash : (List ℕ → String) → Job → String
unfolding dedup_hash
idempotency_hash hash j =
    if not (is_empty j.dedup_cache)
    then j.dedup_cache
    else dedup_hash hash j.user_id j.idempotent_key j.idempotency_scope

unfoldable pub resolve_max_retries : Option ℤ → ℤ
resolve_max_retries none = default_max_retries
resolve_max_retries (some n) = n

-- `New`: the id, `strings.ToUpper` and the current time come from outside.
unfoldable pub new_job : (List ℕ → String) → (String → String) → String → ℕ → Request → Job
unfolding resolve_max_retries dedup_hash
new_job hash to_upper id now r = record {
  id = id;
  user_id = r.req_user_id;
  idempotent_key = r.req_idempotent_key;
  url = r.req_url;
  pool_id = r.req_pool_id;
  method = to_upper r.req_method;
  body = r.req_body;
  webhook_url = r.req_webhook_url;
  kind = "user";
  status = queued;
  created_at = now / 1_000_000;
  execute_before = pos_part r.req_execute_before;
  idempotency_scope = r.req_idempotency_scope;
  max_retries = resolve_max_retries r.req_max_retries;
  attempts = 0;
  webhook_max_retries = r.req_webhook_max_retries;
  dedup_cache = dedup_hash hash r.req_user_id r.req_idempotent_key r.req_idempotency_scope;
}

unfoldable pub webhook_retry_limit : Job → ℤ
webhook_retry_limit j = elim j.webhook_max_retries [
  | none ↦ default_webhook_max_retries
  | some n ↦ n
]

-- 24 hours, in milliseconds.
abbrev pub queued_ttl : ℕ
queued_ttl = 86_400_000

-- 15 minutes, in milliseconds.
abbrev pub pending_row_grace : ℕ
pending_row_grace = 900_000

-- As a time, in nanoseconds.
unfoldable pub retry_deadline : Job → ℕ
retry_deadline j =
    if ltb 0 j.execute_before
    then j.execute_before * 1_000_000
    else j.created_at * 1_000_000 + queued_ttl * 1_000_000

-- `int == int`, on integers
abbrev pub eqbℤ : ℤ → ℤ → Bool
eqbℤ x y = lebℤ x y && lebℤ y x

unfoldable pub has_retries_left : Job → Bool
has_retries_left j = eqbℤ j.max_retries retry_until_complete || ltbℤ (pos j.attempts) j.max_retries

abbrev pub unix_milli : ℕ → ℕ
unix_milli now = now / 1_000_000

unfoldable pub execution_expired : Job → ℕ → Bool
execution_expired j now = ltb 0 j.execute_before && leb j.execute_before (unix_milli now)

unfoldable pub is_webhook_delivery : Job → Bool
is_webhook_delivery j =
    if not (is_empty j.kind) then str_eq j.kind "webhook_delivery" else is_empty j.webhook_url

-- In Unix milliseconds, 0 when there is none.
unfoldable pub queue_deadline : Job → ℕ
queue_deadline j =
    if ltb 0 j.execute_before
    then j.execute_before
    else if ltb 0 j.created_at
    then j.created_at + queued_ttl
    else 0

unfoldable pub queue_expired : Job → ℕ → Bool
unfolding queue_deadline
queue_expired j now = ltb 0 (queue_deadline j) && leb (queue_deadline j) (unix_milli now)

unfoldable pub pending_expires_at : Job → ℕ → ℕ
unfolding queue_deadline
pending_expires_at j now =
    let exp = unix_milli (now + queued_ttl * 1_000_000) in
    (if ltb exp (queue_deadline j) then queue_deadline j else exp) + pending_row_grace

pub record PageCursor : Type 0 where
  pub cursor_created_at : ℕ
  pub cursor_id : String

unfoldable pub cursor_at : Job → PageCursor
cursor_at j = record { cursor_created_at = j.created_at; cursor_id = j.id }

-- `id_le` is `<=` on ids, byte by byte.
unfoldable pub covers : (String → String → Bool) → PageCursor → Job → Bool
covers id_le c j =
    ltb j.created_at c.cursor_created_at
    || (j.created_at == c.cursor_created_at && id_le j.id c.cursor_id)
