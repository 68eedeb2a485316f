-- ===== src/Dispatch/UserLoad/Tests.antt =====
-- internal/dispatch/user_load.go: a tracker at concrete histories.
use native.Mathlib.Nat.{le-div_iff_mul-le}
use aquifer.Base.{ℕ, ◌*◌, ◌/◌, ◌≤◌, ◌<◌, ◌≡◌, refl, none, [], ◌∷◌, ◌==◌, false, arith}
use aquifer.Base.Dict.{lookup, string_keys}
use aquifer.Base.Int.{pos}
use aquifer.Base.Float.{milli, milli_laws}
use aquifer.Jobs.Defs.{Job, queued}
use aquifer.Dispatch.UserLoad.Defs.{Tracker}
use aquifer.Dispatch.UserLoad.Counts.{adds, dones, tracked, entry, owed, lookup-tracked}
use aquifer.Dispatch.UserLoad.Decision.{LoadLaws}

abbrev task : Job
task = record {
  id = "j1";
  user_id = "u";
  idempotent_key = "k";
  url = "https://api.example/v1";
  pool_id = "";
  method = "POST";
  body = "{}";
  webhook_url = "";
  kind = "user";
  status = queued;
  created_at = 1_000;
  execute_before = 0;
  idempotency_scope = "";
  max_retries = pos 2;
  attempts = 0;
  webhook_max_retries = none;
  dedup_cache = "";
}

lookup-tracked_example :
    lookup "u" (tracked (dones task ∷ adds task ∷ adds task ∷ [])).users
    ≡ entry (owed "u" (dones task ∷ adds task ∷ adds task ∷ []))
lookup-tracked_example = lookup-tracked "u" (dones task ∷ adds task ∷ adds task ∷ [])

milli_load : LoadLaws milli
milli_load = record {
  order = milli_laws;
  ratio = λ n l h k.
      let positive : 0 < l * 1000 = omega arith in
      let nonzero : (l * 1000 == 0) ≡ false = ground arith in
      rw nonzero (
        n * 1000 * 1000 / (l * 1000),
        refl,
        ground (arith, (le-div_iff_mul-le positive).1 (large n l k)),
      );
}
  where
    large : (n l : ℕ) → l ≤ n → 1000 * (l * 1000) ≤ n * 1000 * 1000
    large n l k = omega arith

-- One user is owed 5 webhooks and another one job; the limit is 2.
abbrev two_users : Tracker
two_users = record {
  users = ("u", record { jobs = 0; webhooks = 5 }) ∷ ("v", record { jobs = 1; webhooks = 0 }) ∷ [];
  accepted = 6;
}
