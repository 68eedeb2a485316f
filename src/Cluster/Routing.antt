-- ===== src/Cluster/Routing.antt =====
-- internal/cluster/router.go: the members of a cluster, their ranking for a key and the keys that this
-- node works on. The score of a member and a key is an argument, as the number that its hex digits spell.
-- Strings compare by code points, as UTF-8 does by bytes. The members are a list: a map gives them in
-- any order.
use Prim.Native.String.{String}
use text.Mathlib.Text.{◌==◌ as str_eq}
use aquifer.Base.{
  ℕ, ◌+◌, ◌-◌, Bool, true, false, not, ◌&&◌, ◌||◌, Option, none, some, List, [], ◌∷◌, ◌==◌, ltb,
  if◌then◌else◌, if_some,
}
use aquifer.Base.Text.{codes}
use aquifer.Base.Dict.{lookup, insert, erase, string_keys}

-- The fields of a member that routing reads.
pub record Member : Type 0 where
  pub id : String
  pub address : String
  pub state : String

-- A key that this node works on.
pub record ScopeActivity : Type 0 where
  pub last_seen : ℕ
  pub outstanding : ℕ

pub record Router : Type 0 where
  pub self_id : String
  pub prune_ttl : ℕ
  pub idle_ttl : ℕ
  pub members : List Member
  pub pruned_until : List (String × ℕ)
  pub local_scopes : List (String × ScopeActivity)

abbrev pub lex_lt : List ℕ → List ℕ → Bool
lex_lt xs [] = false
lex_lt [] (y ∷ ys) = true
lex_lt (x ∷ xs) (y ∷ ys) = ltb x y || ((x == y) && lex_lt xs ys)

unfoldable pub before : (String → ℕ) → Member → Member → Bool
before score m n =
    if score m.id == score n.id
    then lex_lt (codes m.id) (codes n.id)
    else ltb (score n.id) (score m.id)

abbrev pub place : (String → ℕ) → Member → List Member → List Member
place score m [] = m ∷ []
place score m (n ∷ ns) = if before score m n then m ∷ n ∷ ns else n ∷ place score m ns

abbrev pub sort : (String → ℕ) → List Member → List Member
sort score [] = []
sort score (m ∷ ms) = place score m (sort score ms)

unfoldable pub expire_pruned : ℕ → List (String × ℕ) → List (String × ℕ)
expire_pruned now [] = []
expire_pruned now ((id, until) ∷ p) =
    let rest = expire_pruned now p in
    if not (ltb now until) then erase id rest else (id, until) ∷ rest

-- A member that has no entry was pruned until the zero time.
unfoldable pub is_pruned : ℕ → List (String × ℕ) → String → Bool
is_pruned now pruned id = if_some (lookup id pruned) false (λ until. ltb now until)

unfoldable pub is_candidate : (String → Bool) → ℕ → List (String × ℕ) → Member → Bool
unfolding is_pruned
is_candidate excluded now pruned m = not (
    excluded m.id
    || is_pruned now pruned m.id
    || str_eq m.state "draining"
    || str_eq m.state "offline")

abbrev pub select_members : (Member → Bool) → List Member → List Member
select_members p [] = []
select_members p (m ∷ ms) = if p m then m ∷ select_members p ms else select_members p ms

unfoldable pub ranked_owners :
    (String → String → ℕ) → ℕ → String → (String → Bool) → Router → Router × List Member
unfolding expire_pruned is_candidate
ranked_owners score now key excluded r = if str_eq key "" then (r, []) else (
  record r { pruned_until = expire_pruned now r.pruned_until },
  sort (λ id. score id key)
      (select_members (is_candidate excluded now (expire_pruned now r.pruned_until)) r.members),
)

unfoldable pub prune_member : ℕ → String → Router → Router
prune_member now id r =
    if str_eq id "" || str_eq id r.self_id || (r.prune_ttl == 0)
    then r
    else record r { pruned_until = insert id (now + r.prune_ttl) r.pruned_until }

abbrev pub activity : String → Router → ScopeActivity
activity key r =
    if_some (lookup key r.local_scopes) (record { last_seen = 0; outstanding = 0 }) (λ a. a)

unfoldable pub touch_local_scope : ℕ → String → Router → Router
touch_local_scope now key r = record r {
  local_scopes = insert key (record (activity key r) { last_seen = now }) r.local_scopes;
}

-- `assigned` is what the state store answers, if there is one: an error or a member.
unfoldable pub resolve_owner :
    (String → String → ℕ)
    → ℕ
    → String
    → (String → Bool)
    → Option (Option Member)
    → Router
    → Router × Option Member
unfolding ranked_owners touch_local_scope
resolve_owner score now key excluded assigned r = elim (ranked_owners score now key excluded r).1 [
  | [] ↦ ((ranked_owners score now key excluded r).0, none)
  | first ∷ later ↦
      let r' = (ranked_owners score now key excluded r).0 in
      if_some assigned (r', some first)
        (λ answer.
          let owner =
            if_some answer first
              (λ m. if str_eq m.id "" || str_eq m.address "" then first else m) in
          (if str_eq owner.id r.self_id then touch_local_scope now key r' else r', some owner))
]

-- With a state store.
unfoldable pub track_local_job : ℕ → String → Router → Router
track_local_job now key r = if str_eq key "" then r else record r {
  local_scopes =
      insert key (record { last_seen = now; outstanding = (activity key r).outstanding + 1 })
        r.local_scopes;
}

unfoldable pub complete_local_job : ℕ → String → Router → Router
complete_local_job now key r =
    if str_eq key ""
    then r
    else if_some (lookup key r.local_scopes) r (λ a. record r {
      local_scopes =
          insert key (record { last_seen = now; outstanding = a.outstanding - 1 }) r.local_scopes;
    })

unfoldable pub active_scope_count : ℕ → ℕ → List (String × ScopeActivity) → ℕ
active_scope_count idle_ttl now [] = 0
active_scope_count idle_ttl now ((key, a) ∷ scopes) =
    if ltb 0 a.outstanding || ltb (now - a.last_seen) idle_ttl
    then active_scope_count idle_ttl now scopes + 1
    else active_scope_count idle_ttl now scopes
