-- ===== src/Dispatch/SharedPace/Defs.antt =====
-- internal/dispatch/shared_pace.go: the pace that all queues of one target share. A queue is a
-- number, times are nanoseconds, and `rate()` is read by the caller.
use aquifer.Base.{
  ℕ, ◌+◌, ◌-◌, ◌*◌, Bool, true, false, not, ◌&&◌, ◌||◌, Option, none, some, List, [], ◌∷◌, ltb,
  ◌==◌, if◌then◌else◌, min,
}
use aquifer.Base.Dict.{lookup, insert, erase, nat_keys}
use aquifer.Base.Float.{FloatArith, F, flit, fle, fmax, interval}

pub record PaceWaiter : Type 0 where
  pub since : ℕ
  pub asked : ℕ

abbrev pub Waiting : Type 0
Waiting = List (ℕ × PaceWaiter)

pub record SharedPace : Type 0 where
  pub last : ℕ
  pub granted : Bool
  pub waiting : Waiting

unfoldable pub new_shared_pace : SharedPace
new_shared_pace = record { last = 0; granted = false; waiting = [] }

-- The loop that forgets the queues that stopped asking.
unfoldable pub forget_stale : ℕ → ℕ → Waiting → Waiting
forget_stale stale now [] = []
forget_stale stale now ((k, w) ∷ ws) =
    let rest = forget_stale stale now ws in
    if ltb (w.asked + stale) now then erase k rest else (k, w) ∷ rest

abbrev pub since_or : ℕ → Option PaceWaiter → ℕ
since_or now none = now
since_or now (some w) = w.since

-- The closure `wait`.
unfoldable pub wait_turn : ℕ → ℕ → ℕ → SharedPace → SharedPace × ℕ
wait_turn gap who now s =
    let w : PaceWaiter = record { since = since_or now (lookup who s.waiting); asked = now } in
    (
      record s { waiting = insert who w s.waiting },
      if s.granted && ltb now (s.last + gap) then s.last + gap - now else min gap 5_000_000,
    )

abbrev pub waited_longer : Option PaceWaiter → PaceWaiter → Bool
waited_longer none w = true
waited_longer (some mine) w = ltb w.since mine.since

-- Whether the loop over the waiting queues finds one that goes first.
unfoldable pub behind : ℕ → Option PaceWaiter → Waiting → Bool
behind who mine [] = false
behind who mine ((k, w) ∷ ws) = (not (k == who) && waited_longer mine w) || behind who mine ws

-- `start`: at most one interval of unused credit is carried.
unfoldable pub slot_start : ℕ → ℕ → SharedPace → ℕ
slot_start gap now s =
    if s.granted && ltb (now - gap) (s.last + gap) then s.last + gap else now - gap

-- `now` is before the time of the next slot.
abbrev pub is_early : ℕ → ℕ → SharedPace → Bool
is_early gap now s = s.granted && ltb now (s.last + gap)

abbrev pub is_behind : ℕ → SharedPace → Bool
is_behind who s = behind who (lookup who s.waiting) s.waiting

abbrev pub take_slot : ℕ → ℕ → ℕ → SharedPace → SharedPace
take_slot gap who now s = record {
  last = slot_start gap now s;
  granted = true;
  waiting = erase who s.waiting;
}

-- `reserve` once the stale queues are forgotten: the state, and how long to wait (0: the slot is
-- taken).
unfoldable pub reserve_fresh : ℕ → ℕ → ℕ → SharedPace → SharedPace × ℕ
reserve_fresh gap who now s =
    if is_early gap now s
    then wait_turn gap who now s
    else if is_behind who s
    then wait_turn gap who now s
    else (take_slot gap who now s, 0)

abbrev pub without_stale : ℕ → ℕ → SharedPace → SharedPace
without_stale gap now s = record s { waiting = forget_stale (2 * gap + 100_000_000) now s.waiting }

-- `reserve` from the computed interval on.
unfoldable pub reserve_at : ℕ → ℕ → ℕ → SharedPace → SharedPace × ℕ
unfolding reserve_fresh
reserve_at gap who now s = reserve_fresh gap who now (without_stale gap now s)

module _ (a : FloatArith) where
  abbrev pub min_rps : F a
  min_rps = flit a 5 1

  -- `none` is a nil `*sharedPace`.
  unfoldable pub reserve : F a → ℕ → ℕ → Option SharedPace → Option SharedPace × ℕ
  reserve rate who now none = (none, 0)
  reserve rate who now (some s) =
      if fle a rate (flit a 0 0)
      then (some s, 0)
      else (let (t, wait) = reserve_at (interval a (fmax a rate min_rps)) who now s in
          (some t, wait))
