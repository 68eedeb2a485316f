-- ===== src/Admission/Controller/Defs.antt =====
-- internal/admission/admission.go. A limit of 0 or less is switched off and is 0 here. What the
-- process reads (its memory, the size of the database, the lag of the syncs, the clock) is an
-- argument; times are nanoseconds.
use aquifer.Base.{
  ℕ, zero, suc, ◌+◌, ◌-◌, ◌*◌, ◌/◌, Bool, true, false, ◌&&◌, Option, none, some, ltb, leb, ◌==◌,
  if◌then◌else◌,
}

pub record Limits : Type 0 where
  pub memory_limit_mb : ℕ
  pub max_body_bytes : ℕ
  pub db_max_bytes : ℕ
  pub retry_after_base : ℕ
  pub max_sync_lag_ms : ℕ
  pub memory_hard_limit_percent : ℕ

pub record Sampled : Type 0 where
  pub value : ℕ
  pub at : Option ℕ

-- 250 ms
abbrev pub sample_ttl : ℕ
sample_ttl = 250_000_000

unfoldable pub is_stale : ℕ → Option ℕ → Bool
is_stale now none = true
is_stale now (some at) = leb (at + sample_ttl) now

-- `reading` is what `read()` would give.
unfoldable pub sampled_get : ℕ → ℕ → Sampled → ℕ × Sampled
unfolding is_stale
sampled_get now reading s =
    if is_stale now s.at then (reading, record { value = reading; at = some now }) else (s.value, s)

pub data Reason : Type 0 where
  no_reason memory db_size sync_lag upstream_queue queue_fair_share : Reason

pub record Decision : Type 0 where
  pub allowed : Bool
  pub reason : Reason
  pub limit : ℕ
  pub current : ℕ
  pub soft : Bool

-- `has_db` is whether `dbPath` is set.
pub record Controller : Type 0 where
  pub limits : Limits
  pub has_db : Bool
  pub reject_streak : ℕ
  pub mem_sample : Sampled
  pub db_sample : Sampled

pub record Readings : Type 0 where
  pub now : ℕ
  pub memory_mb : ℕ
  pub db_bytes : ℕ
  pub sync_lag_ms : ℕ

unfoldable pub memory_hard_limit : Limits → ℕ
memory_hard_limit l =
    if leb l.memory_hard_limit_percent 100
    then l.memory_limit_mb
    else l.memory_limit_mb * l.memory_hard_limit_percent / 100

abbrev pub allowing : Decision
allowing = record { allowed = true; reason = no_reason; limit = 0; current = 0; soft = false }

abbrev pub refusing : Reason → ℕ → ℕ → Decision
refusing why limit current = record {
  allowed = false;
  reason = why;
  limit = limit;
  current = current;
  soft = false;
}

-- `Refused` and `Admitted`
unfoldable pub refused : Controller → Controller
refused c = record c { reject_streak = c.reject_streak + 1 }

unfoldable pub admitted : Controller → Controller
admitted c = record c { reject_streak = 0 }

-- The end of `Check`: a soft decision goes to the caller with the streak as it is.
unfoldable pub finish : Option Decision → Controller → Controller × Decision
finish none c = (admitted c, allowing)
finish (some d) c = (c, d)

-- The check of the sync lag, and what follows it.
unfoldable pub check_sync : Readings → Option Decision → Controller → Controller × Decision
unfolding finish
check_sync r soft c =
    if ltb 0 c.limits.max_sync_lag_ms && ltb c.limits.max_sync_lag_ms r.sync_lag_ms
    then (refused c, refusing sync_lag c.limits.max_sync_lag_ms r.sync_lag_ms)
    else finish soft c

-- The check of the database's size, and what follows it.
unfoldable pub check_db : Readings → Option Decision → Controller → Controller × Decision
unfolding check_sync
check_db r soft c =
    if ltb 0 c.limits.db_max_bytes && c.has_db
    then (let (size, sample) = sampled_get r.now r.db_bytes c.db_sample in
        let c' = record c { db_sample = sample } in
        if ltb c.limits.db_max_bytes size
        then (refused c', refusing db_size c.limits.db_max_bytes size)
        else check_sync r soft c')
    else check_sync r soft c

-- The memory's branch of `Check` once the reading is taken.
unfoldable pub check_memory : Readings → ℕ → Controller → Controller × Decision
unfolding check_db
check_memory r current c =
    let d = refusing memory c.limits.memory_limit_mb current in
    if ltb c.limits.memory_limit_mb current
    then if ltb (memory_hard_limit c.limits) current
      then (refused c, d)
      else check_db r (some (record d { soft = true })) c
    else check_db r none c

unfoldable pub check : Readings → Controller → Controller × Decision
unfolding check_memory
check r c =
    if ltb 0 c.limits.memory_limit_mb
    then (let (current, sample) = sampled_get r.now r.memory_mb c.mem_sample in
        check_memory r current (record c { mem_sample = sample }))
    else check_db r none c

abbrev pub max_retry_after : ℕ
max_retry_after = 60

-- The loop of `RetryAfterSeconds` with `rounds` left of its counter.
unfoldable pub doubled : ℕ → ℕ → ℕ
doubled zero backoff = backoff
doubled (suc rounds) backoff = elim (ltb backoff max_retry_after) [
  | true ↦ doubled rounds (backoff * 2)
  | false ↦ backoff
]

-- `RetryAfterSeconds` from its base and the streak.
unfoldable pub backoff_for : ℕ → ℕ → ℕ
unfolding doubled
backoff_for base streak =
    if leb streak 1
    then base
    else (let backoff = doubled (streak - 1) base in
        if ltb max_retry_after backoff then max_retry_after else backoff)

unfoldable pub retry_after_seconds : Controller → ℕ
unfolding backoff_for
retry_after_seconds c =
    backoff_for (if c.limits.retry_after_base == 0 then 5 else c.limits.retry_after_base)
      c.reject_streak
