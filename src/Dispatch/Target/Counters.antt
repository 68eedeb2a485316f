-- ===== src/Dispatch/Target/Counters.antt =====
-- internal/dispatch/account_queue.go: the counters that the queues of a target share add up.
use aquifer.Base.{ℕ, zero, suc, ◌+◌, ◌≡◌, ap, List, [], ◌∷◌, arith, if◌then◌else◌}
use aquifer.Base.Int.{ℤ, pos, pos_part, ◌+ℤ◌, ◌-ℤ◌, ◌≤ℤ◌, ◌<ℤ◌, ltbℤ}
use aquifer.Dispatch.Target.Defs.{Counters, reserve_backlog, release_backlog, clear_backlog}

-- The calls on the queues of a target, by the queue's index.
pub data Call : Type 0 where
  reserves releases clears : ℕ → Call

-- A target: the backlog of each of its queues, and the two shared counters.
pub record Shared : Type 0 where
  pub backlogs : List ℤ
  pub active : ℤ
  pub total : ℤ

abbrev pub view : Shared → ℤ → Counters
view s b = record { backlog = b; served = 0; active_queues = s.active; target_backlog = s.total }

-- `op` on the queue at index `i`.
unfoldable pub at_queue : (Counters → Counters) → ℕ → List ℤ → ℤ → ℤ → Shared
at_queue op i [] active total = record { backlogs = []; active = active; total = total }
at_queue op zero (b ∷ bs) active total =
    let c =
      op (record { backlog = b; served = 0; active_queues = active; target_backlog = total }) in
    record { backlogs = c.backlog ∷ bs; active = c.active_queues; total = c.target_backlog }
at_queue op (suc i) (b ∷ bs) active total =
    let rest = at_queue op i bs active total in
    record { backlogs = b ∷ rest.backlogs; active = rest.active; total = rest.total }

unfoldable pub call : Shared → Call → Shared
call s (reserves i) = at_queue reserve_backlog i s.backlogs s.active s.total
call s (releases i) = at_queue release_backlog i s.backlogs s.active s.total
call s (clears i) = at_queue clear_backlog i s.backlogs s.active s.total

-- The number of queues with work, and the work of all of them.
abbrev pub busy : List ℤ → ℕ
busy [] = 0
busy (b ∷ bs) = (if ltbℤ (pos 0) b then 1 else 0) + busy bs

abbrev pub work : List ℤ → ℕ
work [] = 0
work (b ∷ bs) = pos_part b + work bs

abbrev pub AllNonneg : List ℤ → Type 0
AllNonneg [] = Unit
AllNonneg (b ∷ bs) = (pos 0 ≤ℤ b) × AllNonneg bs

-- The backlog at an index, 0 past the end.
abbrev pub backlog_at : ℕ → List ℤ → ℤ
backlog_at i [] = pos 0
backlog_at zero (b ∷ bs) = b
backlog_at (suc i) (b ∷ bs) = backlog_at i bs

-- A release is of work that was reserved.
abbrev pub IsOwed : Shared → Call → Type 0
IsOwed s (reserves i) = Unit
IsOwed s (releases i) = pos 0 <ℤ backlog_at i s.backlogs
IsOwed s (clears i) = Unit

-- The shared counters of a target are right: no queue's backlog is below 0, `active` is the number
-- of queues with work, and `total` the work of all of them; `offset` counts what other parts add.
pub record AddsUp (n w : ℕ) (s : Shared) : Type 0 where
  pub nonneg : AllNonneg s.backlogs
  pub counted : s.active ≡ pos (n + busy s.backlogs)
  pub summed : s.total ≡ pos (w + work s.backlogs)

at_reserve :
    (i : ℕ) (bs : List ℤ) (n w : ℕ) (active total : ℤ)
    → AllNonneg bs
    → active ≡ pos (n + busy bs)
    → total ≡ pos (w + work bs)
    → AddsUp n w (at_queue reserve_backlog i bs active total)
unfolding at_queue reserve_backlog ◌+ℤ◌
at_reserve i [] n w active total v c s = record { nonneg = tt; counted = c; summed = s }
at_reserve zero (b ∷ bs) n w active total v c s = record {
  nonneg = (ground arith, v.1);
  counted = ground arith;
  summed = ground arith;
}
at_reserve (suc i) (b ∷ bs) n w active total v c s =
    let rest =
      at_reserve i bs (n + (if ltbℤ (pos 0) b then 1 else 0)) (w + pos_part b) active total v.1
        (rw c (ap pos (omega arith))) (rw s (ap pos (omega arith))) in
    record {
      nonneg = (v.0, rest.nonneg);
      counted = rw rest.counted (ap pos (omega arith));
      summed = rw rest.summed (ap pos (omega arith));
    }

at_release :
    (i : ℕ) (bs : List ℤ) (n w : ℕ) (active total : ℤ)
    → pos 0 <ℤ backlog_at i bs
    → AllNonneg bs
    → active ≡ pos (n + busy bs)
    → total ≡ pos (w + work bs)
    → AddsUp n w (at_queue release_backlog i bs active total)
unfolding at_queue release_backlog ◌-ℤ◌
at_release i [] n w active total p v c s = record { nonneg = tt; counted = c; summed = s }
at_release zero (b ∷ bs) n w active total p v c s = record {
  nonneg = (ground arith, v.1);
  counted = ground arith;
  summed = ground arith;
}
at_release (suc i) (b ∷ bs) n w active total p v c s =
    let rest =
      at_release i bs (n + (if ltbℤ (pos 0) b then 1 else 0)) (w + pos_part b) active total p v.1
        (rw c (ap pos (omega arith))) (rw s (ap pos (omega arith))) in
    record {
      nonneg = (v.0, rest.nonneg);
      counted = rw rest.counted (ap pos (omega arith));
      summed = rw rest.summed (ap pos (omega arith));
    }

at_clear :
    (i : ℕ) (bs : List ℤ) (n w : ℕ) (active total : ℤ)
    → AllNonneg bs
    → active ≡ pos (n + busy bs)
    → total ≡ pos (w + work bs)
    → AddsUp n w (at_queue clear_backlog i bs active total)
unfolding at_queue clear_backlog ◌-ℤ◌
at_clear i [] n w active total v c s = record { nonneg = tt; counted = c; summed = s }
at_clear zero (b ∷ bs) n w active total v c s = record {
  nonneg = (ground arith, v.1);
  counted = ground arith;
  summed = ground arith;
}
at_clear (suc i) (b ∷ bs) n w active total v c s =
    let rest =
      at_clear i bs (n + (if ltbℤ (pos 0) b then 1 else 0)) (w + pos_part b) active total v.1
        (rw c (ap pos (omega arith))) (rw s (ap pos (omega arith))) in
    record {
      nonneg = (v.0, rest.nonneg);
      counted = rw rest.counted (ap pos (omega arith));
      summed = rw rest.summed (ap pos (omega arith));
    }

call-AddsUp : (s : Shared) (k : Call) → IsOwed s k → AddsUp 0 0 s → AddsUp 0 0 (call s k)
unfolding call
call-AddsUp s (reserves i) owed v =
    at_reserve i s.backlogs 0 0 s.active s.total v.nonneg v.counted v.summed
call-AddsUp s (releases i) owed v =
    at_release i s.backlogs 0 0 s.active s.total owed v.nonneg v.counted v.summed
call-AddsUp s (clears i) owed v =
    at_clear i s.backlogs 0 0 s.active s.total v.nonneg v.counted v.summed

unfoldable pub calls : Shared → List Call → Shared
calls s [] = s
calls s (k ∷ ks) = calls (call s k) ks

-- Every release along the history is of work that was reserved before.
abbrev pub AllOwed : Shared → List Call → Type 0
AllOwed s [] = Unit
AllOwed s (k ∷ ks) = IsOwed s k × AllOwed (call s k) ks

-- The queues of one target, called in any order: as long as a queue only releases work that it has
-- reserved, no backlog falls below 0, the shared count of active queues is the number of queues
-- with work, and the shared backlog is the sum of theirs.
pub calls-AddsUp :
    (s : Shared) (ks : List Call) → AllOwed s ks → AddsUp 0 0 s → AddsUp 0 0 (calls s ks)
unfolding calls
calls-AddsUp s [] owed v = v
calls-AddsUp s (k ∷ ks) owed v = calls-AddsUp (call s k) ks owed.1 (call-AddsUp s k owed.0 v)
