-- ===== src/Dispatch/Queue/Loop.antt =====
-- internal/dispatch/account_queue.go: the run loop as a pass before each select, and the cases of the
-- select. The clock is read anew for each turn of the dispatch loop; one reading stands for those of a
-- turn, of the sweeps of a pass, or of a case. The dispatched jobs that have not handed their message
-- back are `flying`, and `cmds` is the channel of that name. Metrics, the reported depth and rate, and the jitter of the timers are left out.
use Prim.Native.String.{String}
use aquifer.Base.{
  ℕ, zero, suc, ◌+◌, ◌-◌, Bool, true, false, not, Option, none, some, List, [], ◌∷◌, ◌++◌, map, ltb,
  if◌then◌else◌, length,
}
use aquifer.Base.Int.{ℤ}
use aquifer.Base.Float.{FloatArith, Float, interval}
use aquifer.Jobs.Defs.{Job, queue_expired}
use aquifer.Dispatch.SharedPace.Defs.{SharedPace, reserve}
use aquifer.Dispatch.Target.Defs.{Counters, Health}
use aquifer.Dispatch.Execute.Effects.{Effect, Outside}
use aquifer.Dispatch.Queue.Defs.{
  WaitingJob, Ledger, drop_expired_jobs, drop_expired_waiting, dead_sweep_is_due, fail_dead_target,
}
use aquifer.Dispatch.Queue.Rate.{pool_rps, start_rps}

-- `N` are the numbers of a float64.
pub record Queue (N : Type 0) : Type 0 where
  pub cmds : List Job
  pub queue : List Job
  pub waiting : List WaitingJob
  pub flying : List Job
  pub in_flight : ℕ
  pub max_conc : ℕ
  pub rate : Float N
  pub last_request : Option ℕ
  pub next_deadline : ℕ
  pub last_dead_sweep : Option ℕ
  pub books : Ledger
  pub pace : Option SharedPace

-- What `run` is started with, `deadAfter`, the most that a backoff waits, and the queue's number
-- among those that share its pace.
pub record Settings (N : Type 0) : Type 0 where
  pub configured_rps : Float N
  pub configured_max_conc : ℕ
  pub dead_after : ℕ
  pub max_backoff : ℕ
  pub me : ℕ

-- What a turn of the dispatch loop reads: the clock, the target's ceiling, and the member that the pool
-- picks, if there is a pool (`some none`: it is empty).
pub record Reading (N : Type 0) : Type 0 where
  pub now : ℕ
  pub target_rate : Float N
  pub picked : Option (Option String)

-- What a round reads: the clock for the sweeps and for the case, the capacity of the pool if there is
-- one, and what each turn of the dispatch loop reads, by the fuel that is left after it.
pub record Readings (N : Type 0) : Type 0 where
  pub swept_at : ℕ
  pub capacity : Option (Float N)
  pub turns : ℕ → Reading N
  pub selected_at : ℕ

pub data Output : Type 0 where
  does : Effect → Output
  sends : Job → ℕ → Option String → Output
  slow_start_signal : Bool → Output
  max_backlog_signal : ℤ → Output
  account_queue_signal : String → Output
  position : String → ℕ → Output

-- Why the dispatch loop stops: nothing to send or no free slot, the pace (with the time that its
-- timer runs), or an empty pool.
pub data Stop : Type 0 where
  out_of_fuel nothing_to_send pool_empty : Stop
  paced : ℕ → Stop

-- What one turn of the dispatch loop comes to.
pub data Turn (N : Type 0) : Type 0 where
  stops : Queue N → Stop → Turn N
  goes_on : Queue N → List Output → Turn N

abbrev pub does_all : List Effect → List Output
does_all = map does

-- The pace does not allow a dispatch yet.
abbrev pub too_soon : ℕ → Option ℕ → ℕ → Bool
too_soon now none gap = false
too_soon now (some last) gap = ltb (now - last) gap

abbrev pub time_left : ℕ → Option ℕ → ℕ → ℕ
time_left now none gap = 0
time_left now (some last) gap = gap - (now - last)

abbrev pub no_member : Option (Option String) → Bool
no_member (some none) = true
no_member _ = false

abbrev pub member_of : Option (Option String) → Option String
member_of none = none
member_of (some m) = m

module _ (a : FloatArith) (o : Outside) (s : Settings a.Num) where
  abbrev pub take_head : Reading a.Num → Job → List Job → Queue a.Num → Queue a.Num
  take_head r j js q = record q {
    queue = js;
    flying = j ∷ q.flying;
    in_flight = q.in_flight + 1;
    last_request = some r.now;
  }

  -- A turn from the pace on, for a job at the head that may be sent.
  unfoldable pub send_head : Reading a.Num → Job → List Job → Queue a.Num → Turn a.Num
  send_head r j js q =
      let gap = interval a q.rate in
      let (pace', wait) = reserve a r.target_rate s.me r.now q.pace in
      let q' = record q { pace = pace' } in
      if too_soon r.now q.last_request gap
      then stops q (paced (time_left r.now q.last_request gap))
      else if ltb 0 wait
      then stops q' (paced wait)
      else if no_member r.picked
      then stops q' pool_empty
      else goes_on (take_head r j js q') (sends j r.now (member_of r.picked) ∷ [])

  unfoldable pub drop_expired : ℕ → Queue a.Num → Queue a.Num × List Effect
  unfolding drop_expired_jobs
  drop_expired now q =
      let (next, swept) = drop_expired_jobs o now q.queue q.next_deadline q.books in
      (record q { queue = swept.kept; next_deadline = next; books = swept.ledger }, swept.effects)

  unfoldable pub turn : Reading a.Num → Queue a.Num → List Job → Turn a.Num
  unfolding send_head drop_expired
  turn r q [] = stops q nothing_to_send
  turn r q (j ∷ js) =
      let (q', es) = drop_expired r.now q in
      if not (ltb q.in_flight q.max_conc)
      then stops q nothing_to_send
      else if queue_expired j r.now
      then goes_on q' (does_all es)
      else send_head r j js q

  unfoldable pub dispatch :
      ℕ → (ℕ → Reading a.Num) → Queue a.Num → Queue a.Num × (List Output × Stop)
  unfolding turn
  dispatch zero rs q = (q, ([], out_of_fuel))
  dispatch (suc fuel) rs q = elim (turn (rs fuel) q q.queue) [
    | stops q' why ↦ (q', ([], why))
    | goes_on q' out ↦ let rest = dispatch fuel rs q' in (rest.0, (out ++ (rest.1).0, (rest.1).1))
  ]

  unfoldable pub drop_waiting : ℕ → Queue a.Num → Queue a.Num × List Effect
  unfolding drop_expired_waiting
  drop_waiting now q =
      let swept = drop_expired_waiting o now q.waiting q.books in
      (record q { waiting = swept.kept; books = swept.ledger }, swept.effects)

  unfoldable pub drop_dead : ℕ → Queue a.Num → Queue a.Num × List Effect
  unfolding fail_dead_target dead_sweep_is_due
  drop_dead now q =
      let (js, ws) = fail_dead_target o s.dead_after now q.queue q.waiting q.books in
      if dead_sweep_is_due o s.dead_after now q.last_dead_sweep q.books.health
      then (
        record q {
          queue = js.kept;
          waiting = ws.kept;
          books = ws.ledger;
          last_dead_sweep = some now;
        },
        js.effects ++ ws.effects,
      )
      else (q, [])

  -- The loop's body before the select: the sweeps, the pool's capacity, and the dispatch loop.
  unfoldable pub pass : Readings a.Num → Queue a.Num → Queue a.Num × (List Output × Stop)
  unfolding drop_expired drop_waiting drop_dead dispatch
  pass r q =
      let (q₁, es₁) = drop_expired r.swept_at q in
      let (q₂, es₂) = drop_waiting r.swept_at q₁ in
      let (q₃, es₃) = drop_dead r.swept_at q₂ in
      let q₄ = record q₃ { rate = pool_rps a s.configured_rps q₃.rate r.capacity } in
      let (q₅, (out, why)) = dispatch (length q₄.queue + 1) r.turns q₄ in
      (q₅, (does_all (es₁ ++ (es₂ ++ es₃)) ++ out, why))

  -- `newAccountQueue` and the start of `run`, beside the target's counters, health and pace.
  unfoldable pub new_queue : Bool → Counters → Health → Option SharedPace → Queue a.Num
  unfolding start_rps
  new_queue slow_start c h p = record {
    cmds = [];
    queue = [];
    waiting = [];
    flying = [];
    in_flight = 0;
    max_conc = s.configured_max_conc;
    rate = start_rps a slow_start s.configured_rps;
    last_request = none;
    next_deadline = 0;
    last_dead_sweep = none;
    books = record { counters = c; health = h; present = [] };
    pace = p;
  }
