-- ===== src/Jobs/Requests.antt =====
-- internal/jobs/job.go: what a request that passes `Validate` is, and the job that is made of it.
use Prim.Native.String.{String}
use text.Mathlib.Text.{◌==◌ as str_eq}
use aquifer.Base.{
  ℕ, ◌≤◌, ◌≡◌, ◌↔◌, refl, ◌⊎◌, inl, inr, Bool, true, false, not, Option, none, some, List, arith,
  ltb,
}
use aquifer.Base.Int.{ℤ, pos, negsuc, ◌≤ℤ◌, ltbℤ}
use aquifer.Base.Text.{codes, contains_code}
use aquifer.Jobs.Defs.{
  Request, valid, valid_retry_limit, is_empty, validate, validate_scope, validate_target, new_job,
  resolve_max_retries, webhook_retry_limit, has_retries_left, retry_until_complete,
  max_allowed_retries,
}

-- What `Validate` lets through.
pub record IsAcceptable (shared_enabled : Bool) (allowed : String → Bool) (r : Request)
    : Type 0 where
  pub deadline : pos 0 ≤ℤ r.req_execute_before
  pub user_given : is_empty r.req_user_id ≡ false
  pub no_nul : contains_code 0 (codes r.req_user_id) ≡ false
  pub key_given : is_empty r.req_idempotent_key ≡ false
  pub retries : valid_retry_limit r.req_max_retries ≡ true
  pub webhook_retries : valid_retry_limit r.req_webhook_max_retries ≡ true
  pub scope :
      (is_empty r.req_idempotency_scope ≡ true)
      ⊎ (str_eq r.req_idempotency_scope "user" ≡ true)
      ⊎ (str_eq r.req_idempotency_scope "shared" ≡ true)
  pub shared_allowed : str_eq r.req_idempotency_scope "shared" ≡ true → shared_enabled ≡ true
  pub one_target : is_empty r.req_url ≡ not (is_empty r.req_pool_id)
  pub method_given : is_empty r.req_method ≡ false
  pub url_allowed : is_empty r.req_url ≡ false → allowed r.req_url ≡ true

target_iff :
    (allowed : String → Bool) (r : Request)
    → (validate_target allowed r ≡ valid) ↔ (
        (is_empty r.req_url ≡ not (is_empty r.req_pool_id))
        × (is_empty r.req_method ≡ false)
        × (is_empty r.req_url ≡ false → allowed r.req_url ≡ true))
unfolding validate_target
target_iff allowed r =
    (λ h. (ground arith, ground arith, λ e. ground arith), λ h. ground (arith, h.2))

scope_iff :
    (shared_enabled : Bool) (allowed : String → Bool) (r : Request)
    → (validate_scope shared_enabled allowed r ≡ valid) ↔ (
        ((is_empty r.req_idempotency_scope ≡ true)
          ⊎ (str_eq r.req_idempotency_scope "user" ≡ true)
          ⊎ (str_eq r.req_idempotency_scope "shared" ≡ true))
        × (str_eq r.req_idempotency_scope "shared" ≡ true → shared_enabled ≡ true)
        × (validate_target allowed r ≡ valid))
unfolding validate_scope
scope_iff shared_enabled allowed r =
    (λ h. (ground arith, λ e. ground arith, ground arith), λ h. ground (arith, h.1))

not_before : (n : ℤ) → pos 0 ≤ℤ n → ltbℤ n (pos 0) ≡ false
not_before n h = ground arith

-- A request passes `Validate` exactly when its deadline is not negative, it has a user id without
-- NUL, a key and a method, its two retry limits are unset or between -1 and 100, its scope is
-- empty, `user` or (where that is switched on) `shared`, and it names a URL that is allowed or
-- else a pool, not both.
pub validate_iff :
    (shared_enabled : Bool) (allowed : String → Bool) (r : Request)
    → (validate shared_enabled allowed r ≡ valid) ↔ IsAcceptable shared_enabled allowed r
unfolding validate
validate_iff shared_enabled allowed r = (accepted, passes)
  where
    accepted : validate shared_enabled allowed r ≡ valid → IsAcceptable shared_enabled allowed r
    accepted h =
        let rest : validate_scope shared_enabled allowed r ≡ valid = ground arith in
        let scoped = (scope_iff shared_enabled allowed r).0 rest in
        let target = (target_iff allowed r).0 scoped.2 in
        record {
          deadline = ground arith;
          user_given = ground arith;
          no_nul = ground arith;
          key_given = ground arith;
          retries = ground arith;
          webhook_retries = ground arith;
          scope = scoped.0;
          shared_allowed = scoped.1;
          one_target = target.0;
          method_given = target.1;
          url_allowed = target.2;
        }

    passes : IsAcceptable shared_enabled allowed r → validate shared_enabled allowed r ≡ valid
    passes v =
        let target = (target_iff allowed r).1 (v.one_target, v.method_given, v.url_allowed) in
        let rest = (scope_iff shared_enabled allowed r).1 (v.scope, v.shared_allowed, target) in
        let later : ltbℤ r.req_execute_before (pos 0) ≡ false =
          not_before r.req_execute_before v.deadline in
        rw (later, v.user_given, v.no_nul, v.key_given, v.retries, v.webhook_retries) rest

-- The retries that a job made of an acceptable request has left: without end where it asked for
-- retries until it completes, and otherwise fewer than 101 in all, 4 if it did not say. A webhook
-- of such a job has a limit of the same range, 10 if it did not say.
pub new_job_retries :
    (hash : List ℕ → String) (to_upper : String → String) (id : String) (now : ℕ)
    (shared_enabled : Bool) (allowed : String → Bool) (r : Request)
    → validate shared_enabled allowed r ≡ valid
    → let j = new_job hash to_upper id now r in
      ((j.max_retries ≡ retry_until_complete) × (has_retries_left j ≡ true)
        ⊎ ((n : ℕ) × (j.max_retries ≡ pos n) × (n ≤ 100) × (has_retries_left j ≡ ltb 0 n)))
      × (retry_until_complete ≤ℤ webhook_retry_limit j)
      × (webhook_retry_limit j ≤ℤ max_allowed_retries)
unfolding new_job has_retries_left webhook_retry_limit valid_retry_limit resolve_max_retries
new_job_retries hash to_upper id now shared_enabled allowed r h =
    let v = (validate_iff shared_enabled allowed r).0 h in
    let w = webhook r.req_webhook_max_retries v.webhook_retries in
    (limits r.req_max_retries v.retries, w.0, w.1)
  where
    limits :
        (m : Option ℤ)
        → valid_retry_limit m ≡ true
        → let j = new_job hash to_upper id now (record r { req_max_retries = m }) in
          (j.max_retries ≡ retry_until_complete) × (has_retries_left j ≡ true)
          ⊎ ((n : ℕ) × (j.max_retries ≡ pos n) × (n ≤ 100) × (has_retries_left j ≡ ltb 0 n))
    limits none h = inr (4, refl, omega arith, refl)
    limits (some (pos n)) h = inr (n, refl, ground arith, ground arith)
    limits (some (negsuc n)) h = inl (ground arith, ground arith)

    webhook :
        (m : Option ℤ)
        → valid_retry_limit m ≡ true
        → let j = new_job hash to_upper id now (record r { req_webhook_max_retries = m }) in
          (retry_until_complete ≤ℤ webhook_retry_limit j)
          × (webhook_retry_limit j ≤ℤ max_allowed_retries)
    webhook none h = omega arith
    webhook (some n) h = (ground arith, ground arith)
