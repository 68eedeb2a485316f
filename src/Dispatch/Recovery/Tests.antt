-- ===== src/Dispatch/Recovery/Tests.antt =====
-- internal/dispatch/paged_recovery.go: a queue with jobs on disk at concrete inputs.
use Prim.Native.String.{String}
use aquifer.Base.{
  ℕ, ◌≡◌, refl, inl, Bool, true, false, none, some, List, [], ◌∷◌, All, length, arith,
}
use aquifer.Base.Int.{pos, ◌+ℤ◌}
use aquifer.Jobs.Defs.{Job, covers, cursor_at}
use aquifer.Dispatch.Recovery.Defs.{
  SpillSource, PagedQueue, no_cursor, attach_spill, take_spills, job_at, counts, load_rows,
  accept_handoff,
}
use aquifer.Dispatch.Recovery.Loops.{Store, Refilled, refill, sweep_spilled, last_cursor}
use aquifer.Dispatch.Recovery.Balance.{Refills, own_rows, own_loaded, refill-Refills, Level}
use aquifer.Dispatch.Recovery.Ends.{to_serve, first_rows, past, refill-ends}
use aquifer.Dispatch.Recovery.Sweeps.{Due, sweep_spilled-Failed}

abbrev any_order : String → String → Bool
any_order x y = true

abbrev row : ℕ → String → Job
row t id = record (job_at no_cursor) { id = id; created_at = t }

abbrev rows : String → List Job
rows key = row 10 "a" ∷ row 20 "b" ∷ row 30 "c" ∷ []

abbrev disk : Store
disk key c before n = some (first_rows n (past any_order c (rows key)))

-- A new queue that is told of the three jobs on disk.
abbrev idle : PagedQueue
idle = record {
  own_key = "api|shared";
  spill_pending = [];
  spills = [];
  present = [];
  backlog = pos 0;
  paged_own_until = 0;
  refill_retry_at = 0;
  last_spill_sweep = 0;
}

abbrev told : PagedQueue
told = take_spills (attach_spill "api|shared" no_cursor 3 100 idle)

abbrev begun : Refilled
begun = record { queue_after = told; line_after = []; held_after = 0 }

refill-Refills_example :
    Refills begun (refill any_order 5 disk 7 2 begun).0 (own_loaded any_order 5 disk 7 2 begun)
refill-Refills_example = refill-Refills any_order 5 disk 7 2 begun

-- One page of two, of jobs that all count against what was reserved.
refill_counts :
    ((refill any_order 5 disk 7 2 begun).0.held_after ≡ 2)
    × (own_loaded any_order 5 disk 7 2 begun ≡ 0)
    × ((refill any_order 5 disk 7 2 begun).0.queue_after.backlog ≡ pos 3)
unfolding refill own_loaded take_spills attach_spill first_rows past covers counts load_rows
    last_cursor cursor_at own_rows ◌+ℤ◌
refill_counts = (refl, refl, refl)

refill-ends_example : (refill any_order 5 disk 7 2 begun).1 ≡ true
unfolding take_spills attach_spill covers to_serve past
refill-ends_example =
    refill-ends any_order (λ x y. inl refl) (λ x y z p q. refl) rows 5 disk 7 2 begun
      (λ key c n. refl) (omega arith) (omega arith)

abbrev stale : PagedQueue
stale = record told { present = "a" ∷ [] }

sweep_spilled-Failed_example :
    let r = sweep_spilled any_order 5 disk 90_000_000_000_000 2 stale in
    All (Due 90_000_000_000_000 stale.present) r.1.0
    × Level r.0.backlog (length r.1.0) stale.backlog 0
sweep_spilled-Failed_example = sweep_spilled-Failed any_order 5 disk 90_000_000_000_000 2 stale

abbrev source : SpillSource
source = record {
  source_key = "api|shared";
  after = cursor_at (row 20 "b");
  reserved = 3;
  consumed = 2;
  cutoff = 100;
  consumed_through = no_cursor;
}

-- A job past the cursor of the queue's own key loads in its turn; the others come in by hand-off.
handoffs :
    (accept_handoff any_order 7 (λ id. none) (row 30 "c") (record told { spills = source ∷ [] })
      ≡ false)
    × (accept_handoff any_order 7 (λ id. none) (row 10 "a") (record told { spills = source ∷ [] })
        ≡ true)
unfolding accept_handoff take_spills attach_spill covers cursor_at
handoffs = (refl, refl)
