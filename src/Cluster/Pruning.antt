-- ===== src/Cluster/Pruning.antt =====
-- internal/cluster/router.go: what a pruned member changes in the ranking of a key.
use Prim.Native.String.{String}
use text.Mathlib.Text.{◌==◌ as str_eq}
use aquifer.Base.{
  ℕ, ◌+◌, ◌≤◌, ◌<◌, ◌≡◌, inl, inr, refl, sym, ◌∙◌, ap, subst, Bool, true, false, not, ◌&&◌, ◌||◌,
  Option, none, some, List, [], ◌∷◌, ◌==◌, arith, All, All-imp, if◌then◌else◌, if_some, Bool-cases,
}
use aquifer.Base.Dict.{lookup, insert, string_keys, lookup-insert, lookup-erase}
use aquifer.Cluster.Routing.{
  Member, Router, before, place, sort, expire_pruned, is_pruned, is_candidate, select_members,
  ranked_owners, prune_member, resolve_owner,
}
use aquifer.Cluster.Order.{before-split, IsRanked, sort-IsRanked}

module _ (score : String → ℕ) (p : Member → Bool) where
  ahead-place :
      (m : Member) (ns : List Member)
      → All (λ n. before score m n ≡ true) ns
      → place score m (select_members p ns) ≡ m ∷ select_members p ns
  ahead-place m [] a = refl
  ahead-place m (n ∷ ns) a = elim (Bool-cases (p n)) [
    | inl in_ ↦ rw in_ (rw a.0 refl)
    | inr out ↦ rw out (ahead-place m ns a.1)
  ]

  -- Placing a member among ranked ones and leaving some out can change places.
  select_members-place :
      (m : Member) (ns : List Member)
      → IsRanked score ns
      → select_members p (place score m ns)
        ≡ (if p m then place score m (select_members p ns) else select_members p ns)
  select_members-place m [] r = ground arith
  select_members-place m (n ∷ ns) r = elim (Bool-cases (before score m n)) [
    | inl up ↦ elim (Bool-cases (p m)) [
      | inl in_ ↦
          rw (up, in_)
            (sym (
              ahead-place m (n ∷ ns) (
                up,
                All-imp (λ o later. ground (arith, before-split score m n o up, later)) ns r.0,
              )))
      | inr out ↦ rw (up, out) refl
    ]
    | inr down ↦ elim (Bool-cases (p n)) [
      | inl in_ ↦
          rw (down, in_)
            (rw (select_members-place m ns r.1) (elim (Bool-cases (p m)) [
              | inl placed ↦ rw placed (rw down refl)
              | inr left_out ↦ rw left_out refl
            ]))
      | inr out ↦ rw (down, out) (select_members-place m ns r.1)
    ]
  ]

  pub select_members-sort :
      (ms : List Member) → select_members p (sort score ms) ≡ sort score (select_members p ms)
  select_members-sort [] = refl
  select_members-sort (m ∷ ms) =
      select_members-place m (sort score ms) (sort-IsRanked score ms)
      ∙ rw (select_members-sort ms)
          (elim (Bool-cases (p m)) [ inl in_ ↦ rw in_ refl | inr out ↦ rw out refl ])

select_members-twice :
    (p q both : Member → Bool)
    → ((m : Member) → both m ≡ (p m && q m))
    → (ms : List Member) → select_members q (select_members p ms) ≡ select_members both ms
select_members-twice p q both h [] = refl
select_members-twice p q both h (m ∷ ms) = elim (Bool-cases (p m)) [
  | inl in_ ↦ ground (arith, h m, select_members-twice p q both h ms, in_)
  | inr out ↦ ground (arith, h m, select_members-twice p q both h ms, out)
]

is_pruned-expire :
    (now : ℕ) (pruned : List (String × ℕ)) (id : String)
    → is_pruned now (expire_pruned now pruned) id ≡ is_pruned now pruned id
unfolding is_pruned expire_pruned lookup
is_pruned-expire now [] id = refl
is_pruned-expire now ((k, until) ∷ p) id =
    ground (arith, lookup-erase k id (expire_pruned now p), is_pruned-expire now p id)

is_pruned-prune :
    (pruned : List (String × ℕ)) (id : String) (until later : ℕ)
    → later < until
    → (k : String)
    → is_pruned later (insert id until pruned) k ≡ (str_eq id k || is_pruned later pruned k)
unfolding is_pruned
is_pruned-prune pruned id until later h k = ground (arith, lookup-insert id k until pruned)

-- Leaving out one member.
abbrev pub is_other : String → Member → Bool
is_other id m = not (str_eq id m.id)

candidates_after :
    (excluded : String → Bool) (later until : ℕ) (pruned : List (String × ℕ)) (id : String)
    → later < until
    → (m : Member)
    → is_candidate excluded later (expire_pruned later (insert id until pruned)) m
      ≡ (is_candidate excluded later (expire_pruned later pruned) m && is_other id m)
unfolding is_candidate
candidates_after excluded later until pruned id h m = ground (
  arith,
  is_pruned-expire later (insert id until pruned) m.id,
  is_pruned-expire later pruned m.id,
  is_pruned-prune pruned id until later h m.id,
)

module _ (score : String → String → ℕ) (now later : ℕ) (id key : String) (excluded : String → Bool)
    (r : Router) where
  -- While a member is pruned, the ranking of every key is the one before without that member: all
  -- others keep their order.
  pub ranked_owners-prune_member :
      str_eq id "" ≡ false
      → str_eq id r.self_id ≡ false
      → later < now + r.prune_ttl
      → now ≤ later
      → (ranked_owners score later key excluded (prune_member now id r)).1
        ≡ select_members (is_other id) (ranked_owners score later key excluded r).1
  unfolding ranked_owners prune_member
  ranked_owners-prune_member named other pruned_still after =
      let s : String → ℕ = λ k. score k key in
      let was : Member → Bool = is_candidate excluded later (expire_pruned later r.pruned_until) in
      let is_now : Member → Bool =
        is_candidate excluded later
          (expire_pruned later (insert id (now + r.prune_ttl) r.pruned_until)) in
      let has_ttl : (r.prune_ttl == 0) ≡ false = ground arith in
      elim (Bool-cases (str_eq key "")) [
        | inl none_ ↦ rw none_ refl
        | inr some_ ↦
            rw (named, other, has_ttl, some_)
              (ap (sort s) (
                  sym (
                    select_members-twice was (is_other id) is_now
                      (candidates_after excluded later (now + r.prune_ttl) r.pruned_until id
                        pruned_still)
                      r.members))
                ∙ sym (select_members-sort s (is_other id) (select_members was r.members)))
      ]

  abbrev pub first_of : List Member → Option Member
  first_of [] = none
  first_of (m ∷ ms) = some m

  first_of-ranked_owners :
      (q : Router)
      → (resolve_owner score later key excluded none q).1
        ≡ first_of (ranked_owners score later key excluded q).1
  unfolding resolve_owner
  first_of-ranked_owners q = ground arith

  first_of-select_members :
      (m : Member) (ms : List Member)
      → first_of ms ≡ some m
      → is_other id m ≡ true
      → first_of (select_members (is_other id) ms) ≡ some m
  first_of-select_members m [] h o = ground (arith, h)
  first_of-select_members m (n ∷ ns) h o =
      let same : n ≡ m = ap (λ x. if_some x n (λ y. y)) h in
      rw (subst (λ x. is_other id x ≡ true) (sym same) o) h

  -- Without a state store, a member that is pruned moves only the keys that it owned: a key of another
  -- owner keeps its owner.
  pub owner_stays :
      (m : Member)
      → str_eq id "" ≡ false
      → str_eq id r.self_id ≡ false
      → later < now + r.prune_ttl
      → now ≤ later
      → (resolve_owner score later key excluded none r).1 ≡ some m
      → str_eq id m.id ≡ false
      → (resolve_owner score later key excluded none (prune_member now id r)).1 ≡ some m
  owner_stays m named other pruned_still after owns apart =
      first_of-ranked_owners (prune_member now id r)
      ∙ ap first_of (ranked_owners-prune_member named other pruned_still after)
      ∙ first_of-select_members m (ranked_owners score later key excluded r).1
          (sym (first_of-ranked_owners r) ∙ owns) (rw apart refl)
