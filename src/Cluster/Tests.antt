-- ===== src/Cluster/Tests.antt =====
-- internal/cluster/router.go at concrete inputs.
use Prim.Native.String.{String}
use text.Mathlib.Text.{◌==◌ as str_eq}
use aquifer.Base.{ℕ, ◌≡◌, refl, Bool, false, none, some, [], ◌∷◌, if◌then◌else◌, arith}
use aquifer.Base.{List, All}
use aquifer.Base.Dict.{lookup, insert, string_keys}
use aquifer.Cluster.Routing.{
  Member, Router, before, expire_pruned, is_pruned, is_candidate, select_members, ranked_owners,
  prune_member, resolve_owner, track_local_job, complete_local_job, active_scope_count,
}
use aquifer.Cluster.Iteration.{switch, ranked_owners-Reordered}
use aquifer.Cluster.Pruning.{is_other, ranked_owners-prune_member, owner_stays}

abbrev node : String → Member
node id = record { id = id; address = "http://node"; state = "active" }

abbrev three : Router
three = record {
  self_id = "a";
  prune_ttl = 30;
  idle_ttl = 60;
  members = node "c" ∷ node "a" ∷ node "b" ∷ [];
  pruned_until = [];
  local_scopes = [];
}

-- Node b has the highest score for every key; a and c have the same.
abbrev prefers_b : String → String → ℕ
prefers_b id key = if str_eq id "b" then 9 else 4

abbrev nobody : String → Bool
nobody id = false

b_then_a_then_c :
    (ranked_owners prefers_b 5 "user-1" nobody three).1 ≡ node "b" ∷ node "a" ∷ node "c" ∷ []
unfolding ranked_owners expire_pruned is_candidate is_pruned before lookup
b_then_a_then_c = refl

ranked_owners-prune_member_example :
    (ranked_owners prefers_b 10 "user-1" nobody (prune_member 5 "b" three)).1
    ≡ select_members (is_other "b") (ranked_owners prefers_b 10 "user-1" nobody three).1
ranked_owners-prune_member_example =
    ranked_owners-prune_member prefers_b 5 10 "b" "user-1" nobody three refl refl (omega arith)
      (omega arith)

without_b :
    (ranked_owners prefers_b 10 "user-1" nobody (prune_member 5 "b" three)).1
    ≡ node "a" ∷ node "c" ∷ []
unfolding ranked_owners expire_pruned is_candidate is_pruned before lookup insert prune_member
without_b = refl

b_owns : (resolve_owner prefers_b 10 "user-1" nobody none three).1 ≡ some (node "b")
unfolding resolve_owner ranked_owners expire_pruned is_candidate is_pruned before lookup
b_owns = refl

owner_stays_example :
    (resolve_owner prefers_b 10 "user-1" nobody none (prune_member 5 "c" three)).1 ≡ some (node "b")
owner_stays_example =
    owner_stays prefers_b 5 10 "c" "user-1" nobody three (node "b") refl refl (omega arith)
      (omega arith) b_owns refl

-- A job of a key is counted until it is complete, and for a minute after.
key_is_active :
    let tracked = track_local_job 5 "user-1" three in
    let done = complete_local_job 9 "user-1" tracked in
    (active_scope_count 60 1_000 tracked.local_scopes ≡ 1)
    × (active_scope_count 60 68 done.local_scopes ≡ 1)
    × (active_scope_count 60 69 done.local_scopes ≡ 0)
unfolding track_local_job complete_local_job active_scope_count lookup insert
key_is_active = (refl, refl, refl)

-- The map of the members, and another order in which it may be read.
abbrev table : List (String × Member)
table = ("a", node "a") ∷ ("b", node "b") ∷ ("c", node "c") ∷ []

abbrev read_again : List Member
read_again = node "a" ∷ node "c" ∷ node "b" ∷ []

members_stand : All (λ m. lookup m.id table ≡ some m) three.members
unfolding lookup
members_stand = (refl, (refl, (refl, tt)))

ranked_owners-Reordered_example :
    (ranked_owners prefers_b 5 "user-1" nobody three).1
    ≡ (ranked_owners prefers_b 5 "user-1" nobody (record three { members = read_again })).1
ranked_owners-Reordered_example =
    ranked_owners-Reordered prefers_b 5 "user-1" nobody three table read_again members_stand
      (switch (node "c") (node "a") (node "b" ∷ []))
