-- ===== src/Dispatch/UserLoad/Decision.antt =====
-- internal/dispatch/user_load.go: whom the webhook backlog throttles.
use Prim.Native.String.{String}
use aquifer.Base.{
  ℕ, ◌-◌, ◌*◌, ◌≤◌, ◌<◌, ◌≡◌, true, not, ◌&&◌, ◌||◌, ltb, ◌==◌, arith, length, both_branches,
}
use aquifer.Base.Dict.{lookup, string_keys}
use aquifer.Base.Float.{FloatArith, FloatLaws, F, nan, num, flit, fint, fdiv, flt, fmin}
use aquifer.Dispatch.UserLoad.Defs.{Tracker, load_or_none, is_tracked, webhook_backlog_decision}

-- Facts of IEEE 754: the quotient of a count by a smaller positive one is a number, and at least 1.
pub record LoadLaws (a : FloatArith) : Type 0 where
  pub order : FloatLaws a
  pub ratio :
      (n l : ℕ)
      → 0 < l
      → l ≤ n
      → (q : a.Num) × (fdiv a (fint a n) (fint a l) ≡ num q) × (a.leb_num (a.lit 1 0) q ≡ true)

-- Whether somebody else is tracked.
abbrev pub HasOthers : String → Tracker → Type 0
HasOthers user t =
    (ltb 1 (length t.users) || (length t.users == 1 && not (is_tracked (lookup user t.users))))
    ≡ true

-- The webhooks that a user is owed.
abbrev pub webhooks_of : String → Tracker → ℕ
webhooks_of user t = (load_or_none (lookup user t.users)).webhooks

module _ (a : FloatArith) (laws : LoadLaws a) where
  below_ratio :
      (q : a.Num) (draw : F a)
      → a.leb_num (a.lit 1 0) q ≡ true
      → flt a draw (flit a 1 0) ≡ true
      → flt a draw (fmin a (num q) (flit a 1 0)) ≡ true
  below_ratio q nan h k = absurd (ground (arith, k))
  below_ratio q (num d) h k =
      both_branches (λ (x : F a). flt a (num d) x ≡ true) (a.leb_num q (a.lit 1 0))
        (ground (arith, h, k, laws.order.le_transitive (a.lit 1 0) q d h)) k

  -- At twice the limit, with other users active, new work is rejected whatever the draw, which is
  -- below 1.
  pub rejected_past_twice :
      (limit : ℕ) (user : String) (draw : F a) (t : Tracker)
      → 0 < limit
      → 2 * limit ≤ webhooks_of user t
      → HasOthers user t
      → flt a draw (flit a 1 0) ≡ true
      → webhook_backlog_decision a limit user draw t ≡ true
  unfolding webhook_backlog_decision load_or_none
  rejected_past_twice limit user draw t h twice others below =
      let mine = webhooks_of user t in
      let (q, quotient, most) = laws.ratio (mine - limit) limit h (omega arith) in
      let draws : flt a draw (fmin a (fdiv a (fint a (mine - limit)) (fint a limit)) (flit a 1 0))
          ≡ true =
        rw quotient (below_ratio q draw most below) in
      ground (arith, draws, others)

-- New work of a user is rejected for its webhooks only if there is a limit, the user is owed more
-- webhooks than that, and other users are active: a user alone is never throttled.
pub rejects_only_past_limit :
    (a : FloatArith) (limit : ℕ) (user : String) (draw : F a) (t : Tracker)
    → webhook_backlog_decision a limit user draw t ≡ true
    → (0 < limit) × (limit < webhooks_of user t) × HasOthers user t
unfolding webhook_backlog_decision load_or_none
rejects_only_past_limit a limit user draw t e =
    (ground (arith, e), ground (arith, e), ground (arith, e))
