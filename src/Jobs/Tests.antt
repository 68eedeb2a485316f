-- ===== src/Jobs/Tests.antt =====
-- internal/jobs/job.go: the theorems at concrete inputs.
use Prim.Native.Char.{code}
use Prim.Native.String.{String}
use aquifer.Base.{
  ℕ, zero, suc, ◌<◌, ◌≡◌, refl, ap, Bool, true, false, none, some, List, [], ◌∷◌, arith,
}
use aquifer.Base.Int.{pos}
use aquifer.Base.Text.{codes}
use aquifer.Jobs.Defs.{
  Job, Request, valid, queued, validate, validate_scope, validate_target, valid_retry_limit,
  dedup_hash,
}
use aquifer.Jobs.Identity.{users_share_identity}

-- A hash without collisions: each number as a row of `a`, with a `b` behind it.
ticks : ℕ → String → String
ticks zero s = String.◌∷◌ "b" s
ticks (suc n) s = String.◌∷◌ "a" (ticks n s)

spell : List ℕ → String
spell [] = String.[]
spell (n ∷ ns) = ticks n (spell ns)

abbrev uncons : String → ℕ
uncons String.[] = 0
uncons (String.◌∷◌ c s) = code c

abbrev rest : String → String
rest String.[] = String.[]
rest (String.◌∷◌ c s) = s

ticks_injective : (n m : ℕ) (s t : String) → ticks n s ≡ ticks m t → (n ≡ m) × (s ≡ t)
unfolding ticks
ticks_injective zero zero s t e = (refl, ap rest e)
ticks_injective zero (suc m) s t e = absurd (omega (arith, ap uncons e))
ticks_injective (suc n) zero s t e = absurd (omega (arith, ap uncons e))
ticks_injective (suc n) (suc m) s t e =
    let r = ticks_injective n m s t (ap rest e) in (ap suc r.0, r.1)

ticks_nonempty : (n : ℕ) (s : String) → 0 < uncons (ticks n s)
unfolding ticks
ticks_nonempty zero s = omega arith
ticks_nonempty (suc n) s = omega arith

spell_injective : (x y : List ℕ) → spell x ≡ spell y → x ≡ y
unfolding spell
spell_injective [] [] e = refl
spell_injective [] (m ∷ ms) e = absurd (omega (arith, ap uncons e, ticks_nonempty m (spell ms)))
spell_injective (n ∷ ns) [] e = absurd (omega (arith, ap uncons e, ticks_nonempty n (spell ns)))
spell_injective (n ∷ ns) (m ∷ ms) e =
    let r = ticks_injective n m (spell ns) (spell ms) e in
    ground (arith, r.0, spell_injective ns ms r.1)

abbrev request : Request
request = record {
  req_user_id = "u1";
  req_idempotent_key = "k";
  req_url = "https://a.example/x";
  req_pool_id = "";
  req_method = "post";
  req_body = "";
  req_webhook_url = "";
  req_execute_before = pos 0;
  req_idempotency_scope = "";
  req_max_retries = some (pos 3);
  req_webhook_max_retries = none;
}

abbrev job : Job
job = record {
  id = "1";
  user_id = "u1";
  idempotent_key = "k";
  url = "https://a.example/x";
  pool_id = "";
  method = "POST";
  body = "";
  webhook_url = "";
  kind = "user";
  status = queued;
  created_at = 1000;
  execute_before = 5000;
  idempotency_scope = "";
  max_retries = pos 3;
  attempts = 0;
  webhook_max_retries = none;
  dedup_cache = "";
}

abbrev any_url : String → Bool
any_url _ = true

request_valid : validate false any_url request ≡ valid
unfolding validate validate_scope validate_target valid_retry_limit
request_valid = refl

users_share_identity_example : dedup_hash spell "a" "b:c" "user" ≡ dedup_hash spell "a:b" "c" "user"
users_share_identity_example =
    users_share_identity spell "a" "b:c" "a:b" "c" "user" (codes "b") refl refl refl
