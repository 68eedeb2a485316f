-- ===== src/Dispatch/SharedPace/Turns.antt =====
-- internal/dispatch/shared_pace.go: slots go to the queues in the order in which they started
-- waiting.
use aquifer.Base.{
  ℕ, ◌+◌, ◌*◌, ◌≤◌, ◌<◌, ◌≡◌, ◌≢◌, ◌↔◌, refl, sym, ◌⊎◌, inl, inr, true, false, Option, none, some,
  [], ◌∷◌, arith, ltb, ◌==◌, ==_iff, if◌then◌else◌, Bool-cases, All,
}
use aquifer.Base.Dict.{lookup, nat_keys, lookup-insert, lookup-erase}
use aquifer.Dispatch.SharedPace.Defs.{
  PaceWaiter, Waiting, SharedPace, forget_stale, since_or, wait_turn, behind, without_stale,
  reserve_fresh, reserve_at,
}

-- Nobody else in the list has waited longer: every other entry began no earlier than `mine`.
abbrev pub FirstInLine : ℕ → Option PaceWaiter → Waiting → Type 0
FirstInLine who mine = All (λ (kw : ℕ × PaceWaiter).
    (kw.0 ≡ who) ⊎ ((m : PaceWaiter) × (mine ≡ some m) × (m.since ≤ kw.1.since)))

first_of_not-behind :
    (who : ℕ) (mine : Option PaceWaiter) (ws : Waiting)
    → behind who mine ws ≡ false
    → FirstInLine who mine ws
unfolding behind
first_of_not-behind who mine [] h = tt
first_of_not-behind who none ((k, w) ∷ ws) h =
    (inl (ground arith), first_of_not-behind who none ws (ground arith))
first_of_not-behind who (some m) ((k, w) ∷ ws) h = (
  elim (Bool-cases (k == who)) [
    | inl same ↦ inl ((==_iff k who).0 same)
    | inr other ↦ inr (m, refl, ground arith)
  ],
  first_of_not-behind who (some m) ws (ground arith),
)

not-behind_of_first :
    (who : ℕ) (mine : Option PaceWaiter) (ws : Waiting)
    → FirstInLine who mine ws
    → behind who mine ws ≡ false
unfolding behind
not-behind_of_first who mine [] h = refl
not-behind_of_first who none ((k, w) ∷ ws) h = elim h.0 [
  | inl e ↦ ground (arith, e, not-behind_of_first who none ws h.1)
  | inr (m, e, l) ↦ cc e
]
not-behind_of_first who (some m) ((k, w) ∷ ws) h = elim h.0 [
  | inl e ↦ ground (arith, e, not-behind_of_first who (some m) ws h.1)
  | inr (n, e, l) ↦ ground (arith, e, l, not-behind_of_first who (some m) ws h.1)
]

-- The queues that are still asking at `now`.
abbrev pub asking : ℕ → ℕ → SharedPace → Waiting
asking gap now s = forget_stale (2 * gap + 100_000_000) now s.waiting

wait_turn_pos : (gap who now : ℕ) (s : SharedPace) → 0 < gap → 0 < (wait_turn gap who now s).1
unfolding wait_turn
wait_turn_pos gap who now s h = ground arith

-- Where a slot lasts some time, a call takes the slot exactly when the slot is due and, of the
-- queues that are still asking, none but the caller has waited longer.
pub reserve_turn :
    (gap who now : ℕ) (s : SharedPace)
    → 0 < gap
    → ((reserve_at gap who now s).1 ≡ 0) ↔ (
        (s.granted ≡ true → s.last + gap ≤ now)
        × FirstInLine who (lookup who (asking gap now s)) (asking gap now s))
unfolding reserve_at reserve_fresh
reserve_turn gap who now s h = (taken, free)
  where
    fresh : SharedPace
    fresh = without_stale gap now s

    taken :
        (reserve_at gap who now s).1 ≡ 0
        → (s.granted ≡ true → s.last + gap ≤ now)
          × FirstInLine who (lookup who (asking gap now s)) (asking gap now s)
    taken e =
        let p = wait_turn_pos gap who now fresh h in
        (λ g. ground (arith, p), first_of_not-behind who _ _ (ground (arith, p)))

    free :
        (s.granted ≡ true → s.last + gap ≤ now)
          × FirstInLine who (lookup who (asking gap now s)) (asking gap now s)
        → (reserve_at gap who now s).1 ≡ 0
    free k = ground (arith, k.0, not-behind_of_first who _ _ k.1)

-- A queue's entry, if it has asked lately.
abbrev pub if_asking : ℕ → ℕ → Option PaceWaiter → Option PaceWaiter
if_asking gap now none = none
if_asking gap now (some w) = if ltb (w.asked + (2 * gap + 100_000_000)) now then none else some w

lookup-asking :
    (gap now k : ℕ) (ws : Waiting)
    → lookup k (forget_stale (2 * gap + 100_000_000) now ws) ≡ if_asking gap now (lookup k ws)
unfolding forget_stale lookup
lookup-asking gap now k [] = refl
lookup-asking gap now k ((i, w) ∷ ws) = ground (
  arith,
  lookup-erase i k (forget_stale (2 * gap + 100_000_000) now ws),
  lookup-asking gap now k ws,
)

-- A queue that is turned away keeps its place: it is listed with the time at which it first asked
-- (now, if it was not listed or had not asked for two intervals and a tenth of a second). Every other
-- queue's entry is as it was, unless that queue had not asked for that long, and then it is gone.
pub turned_away_keeps_place :
    (gap who now : ℕ) (s : SharedPace)
    → (reserve_at gap who now s).1 ≢ 0
    → (k : ℕ)
    → lookup k (reserve_at gap who now s).0.waiting ≡ (
        if who == k
        then some (record {
          since = since_or now (if_asking gap now (lookup who s.waiting));
          asked = now;
        })
        else if_asking gap now (lookup k s.waiting))
unfolding reserve_at reserve_fresh wait_turn
turned_away_keeps_place gap who now s h k =
    rw (sym (lookup-asking gap now who s.waiting), sym (lookup-asking gap now k s.waiting))
      (ground (
        arith,
        lookup-insert who k
            (record { since = since_or now (lookup who (asking gap now s)); asked = now })
            (asking gap now s),
      ))
