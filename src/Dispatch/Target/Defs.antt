-- ===== src/Dispatch/Target/Defs.antt =====
-- internal/dispatch/dead_target.go (health) and internal/dispatch/account_queue.go (backlog). The
-- counters are signed as in the source, and do not come near 2^63; times are nanoseconds.
use aquifer.Base.{ℕ, ◌+◌, ◌-◌, ◌*◌, ◌/◌, Bool, true, false, ◌||◌, leb, ◌==◌, if◌then◌else◌}
use aquifer.Base.Int.{ℤ, pos, ◌+ℤ◌, ◌-ℤ◌, lebℤ, ltbℤ}
use aquifer.Jobs.Defs.{eqbℤ}

-- `failing_since` is in Unix milliseconds, 0 while the target is up.
pub record Health : Type 0 where
  pub failing_since : ℕ
  pub target_served : ℕ

unfoldable pub answered : Health → Health
answered h = record h { failing_since = 0 }

-- The compare-and-swap from 0.
unfoldable pub failed_at : ℕ → Health → Health
failed_at now h = if h.failing_since == 0 then record h { failing_since = now / 1_000_000 } else h

unfoldable pub failing_for : ℕ → Health → ℕ
failing_for now h = if h.failing_since == 0 then 0 else now - h.failing_since * 1_000_000

unfoldable pub retryable_status : ℕ → Bool
retryable_status code = leb 500 code || code == 429 || code == 408

-- The outcome of a direct attempt: an error, local or not, or a status.
pub data Attempted : Type 0 where
  errored : Bool → Attempted
  status_was : ℕ → Attempted

unfoldable pub report_answer : ℕ → Attempted → Health → Health
unfolding failed_at answered retryable_status
report_answer now (errored true) h = h
report_answer now (errored false) h = failed_at now h
report_answer now (status_was code) h =
    if retryable_status code then failed_at now h else answered h

-- A queue's own counters, and the two that it shares with the other queues of the target.
pub record Counters : Type 0 where
  pub backlog : ℤ
  pub served : ℕ
  pub active_queues : ℤ
  pub target_backlog : ℤ

unfoldable pub reserve_backlog : Counters → Counters
reserve_backlog c =
    let backlog' = c.backlog +ℤ pos 1 in
    record c {
      backlog = backlog';
      active_queues = if eqbℤ backlog' (pos 1) then c.active_queues +ℤ pos 1 else c.active_queues;
      target_backlog = c.target_backlog +ℤ pos 1;
    }

unfoldable pub release_backlog : Counters → Counters
release_backlog c =
    let backlog' = c.backlog -ℤ pos 1 in
    record c {
      backlog = backlog';
      active_queues = if eqbℤ backlog' (pos 0) then c.active_queues -ℤ pos 1 else c.active_queues;
      target_backlog = c.target_backlog -ℤ pos 1;
    }

unfoldable pub clear_backlog : Counters → Counters
clear_backlog c =
    let cleared = record c { backlog = pos 0 } in
    if lebℤ c.backlog (pos 0) then cleared else record cleared {
      active_queues = c.active_queues -ℤ pos 1;
      target_backlog = c.target_backlog -ℤ c.backlog;
    }

unfoldable pub mark_served : Counters → Health → Counters × Health
mark_served c h =
    (record c { served = c.served + 1 }, record h { target_served = h.target_served + 1 })

unfoldable pub is_active : Counters → Bool
is_active c = ltbℤ (pos 0) c.backlog
