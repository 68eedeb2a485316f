-- ===== src/Dispatch/UserLoad/Defs.antt =====
-- internal/dispatch/user_load.go. A limit of 0 or less is none and is 0 here; a draw is a float in [0, 1).
use Prim.Native.String.{String}
use aquifer.Base.{
  ℕ, ◌+◌, ◌-◌, Bool, true, false, not, ◌&&◌, ◌||◌, Option, none, some, List, ltb, ◌==◌,
  if◌then◌else◌, length,
}
use aquifer.Base.Dict.{lookup, insert, erase, string_keys}
use aquifer.Base.Float.{FloatArith, F, flit, fint, fdiv, flt, fmin}
use aquifer.Jobs.Defs.{Job, is_webhook_delivery}

pub record UserLoad : Type 0 where
  pub jobs : ℕ
  pub webhooks : ℕ

pub record Tracker : Type 0 where
  pub users : List (String × UserLoad)
  pub accepted : ℕ

-- A user that is not tracked has no load.
unfoldable pub load_or_none : Option UserLoad → UserLoad
load_or_none none = record { jobs = 0; webhooks = 0 }
load_or_none (some l) = l

unfoldable pub with_job : Bool → UserLoad → UserLoad
with_job true l = record l { webhooks = l.webhooks + 1 }
with_job false l = record l { jobs = l.jobs + 1 }

unfoldable pub add : Job → Tracker → Tracker
unfolding load_or_none with_job
add j t =
    let l = load_or_none (lookup j.user_id t.users) in
    record {
      users = insert j.user_id (with_job (is_webhook_delivery j) l) t.users;
      accepted = t.accepted + 1;
    }

unfoldable pub without_job : Bool → UserLoad → UserLoad
without_job true l = record l { webhooks = l.webhooks - 1 }
without_job false l = record l { jobs = l.jobs - 1 }

abbrev pub is_idle : UserLoad → Bool
is_idle l = l.jobs == 0 && l.webhooks == 0

unfoldable pub done_for : String → Bool → Option UserLoad → Tracker → Tracker
unfolding without_job
done_for user hook none t = t
done_for user hook (some l) t =
    let left = without_job hook l in
    record t { users = if is_idle left then erase user t.users else insert user left t.users }

unfoldable pub done : Job → Tracker → Tracker
unfolding done_for
done j t = done_for j.user_id (is_webhook_delivery j) (lookup j.user_id t.users) t

unfoldable pub active : Tracker → ℕ
active t = length t.users

abbrev pub is_tracked : Option UserLoad → Bool
is_tracked none = false
is_tracked (some l) = true

module _ (a : FloatArith) where
  -- Whether new work of a user is rejected for its webhooks.
  unfoldable pub webhook_backlog_decision : ℕ → String → F a → Tracker → Bool
  unfolding load_or_none
  webhook_backlog_decision limit user draw t =
      let mine = lookup user t.users in
      let backlog = (load_or_none mine).webhooks in
      let others = ltb 1 (length t.users) || (length t.users == 1 && not (is_tracked mine)) in
      let probability = fmin a (fdiv a (fint a (backlog - limit)) (fint a limit)) (flit a 1 0) in
      not (limit == 0) && others && ltb limit backlog && flt a draw probability
