-- ===== src/Websocket/Scheduler/Defs.antt =====
-- internal/websocket/queue.go: the connection queue of one node. A waiter is a pointer in the
-- source: here a number, looked up in `store`. Every method runs under the scheduler's lock, so it
-- is one function on the state. Times are nanoseconds; an `int` that the code treats alike when it
-- is 0 or less is a natural number.
use aquifer.Base.{
  ℕ, suc, ◌+◌, ◌-◌, Bool, true, false, not, ◌&&◌, Option, none, some, List, [], ◌∷◌, ◌++◌, ltb, leb,
  ◌==◌, if◌then◌else◌, length,
}
use aquifer.Base.Int.{ℤ, pos, ◌+ℤ◌, ◌-ℤ◌, lebℤ, ltbℤ}
use aquifer.Base.Float.{FloatArith, F, flit, fmul, fle, flt, interval}
use aquifer.Retry.{jitter}

pub data SchedulerError : Type 0 where
  client_limit waiting_limit scheduler_closed : SchedulerError

-- `ready` is whether the channel is closed, `positions` what its one-element buffer holds, and
-- `failed` whether `err` is set (only ever to the scheduler-closed error).
pub record Waiter : Type 0 where
  pub ready : Bool
  pub positions : Option ℕ
  pub position : ℕ
  pub granted : Bool
  pub canceled : Bool
  pub failed : Bool

abbrev pub Store : Type 0
Store = ℕ → Waiter

abbrev pub update : Store → ℕ → Waiter → Store
update st w x v = if v == w then x else st v

-- The loop of `publishPositionsLocked`: under the lock the buffer is emptied and filled at once.
unfoldable pub publish_one : ℕ → ℕ → Store → Store
publish_one position w st =
    if (st w).position == position
    then st
    else update st w (record (st w) { position = position; positions = some position })

unfoldable pub publish_from : ℕ → List ℕ → Store → Store
publish_from i [] st = st
publish_from i (w ∷ ws) st = publish_from (suc i) ws (publish_one (suc i) w st)

-- `removeWaiterLocked`, on the queue.
unfoldable pub remove : ℕ → List ℕ → List ℕ
remove target [] = []
remove target (w ∷ ws) = if w == target then ws else w ∷ remove target ws

-- The first loop of `grantReady`; it publishes the positions after each waiter it drops.
unfoldable pub drop_canceled : List ℕ → Store → List ℕ × Store
drop_canceled [] st = ([], st)
drop_canceled (w ∷ ws) st =
    let rest = drop_canceled ws (publish_from 0 ws st) in
    if (st w).canceled then rest else (w ∷ ws, st)

unfoldable pub fail_all : List ℕ → Store → Store
fail_all [] st = st
fail_all (w ∷ ws) st = fail_all ws (update st w (record (st w) { failed = true; ready = true }))

pub data Enqueued : Type 0 where
  refused : SchedulerError → Enqueued
  -- The waiter and the position that the `Admission` carries.
  admitted : ℕ → ℕ → Enqueued

module _ (a : FloatArith) where
  pub record SchedulerConfig : Type 0 where
    pub cfg_clients : ℕ
    pub cfg_upstreams : ℕ
    pub cfg_waiting : ℕ
    pub cfg_connect_rps : F a
    pub cfg_slow_start_rps : F a

  pub record Scheduler : Type 0 where
    pub max_clients : ℕ
    pub max_upstreams : ℕ
    pub max_waiting : ℕ
    pub configured_rps : F a
    pub slow_start_rps : F a
    pub ramp_rps : F a
    pub advertised_max : ℕ
    pub advertised_rps : F a
    pub clients : ℕ
    pub active_upstreams : ℤ
    pub waiters : List ℕ
    pub next_grant : ℕ
    pub wake : Bool
    pub stopped : Bool
    pub store : Store
    pub next_id : ℕ

  abbrev pub blank_waiter : Waiter
  blank_waiter = record {
    ready = false;
    positions = none;
    position = 0;
    granted = false;
    canceled = false;
    failed = false;
  }

  abbrev pub or_default : ℕ → ℕ → ℕ
  or_default n d = if n == 0 then d else n

  abbrev pub or_rate : F a → ℕ → F a
  or_rate r d = if fle a r (flit a 0 0) then flit a d 0 else r

  unfoldable pub new_scheduler : SchedulerConfig → Scheduler
  new_scheduler cfg =
      let connect = or_rate cfg.cfg_connect_rps 20 in
      let slow = or_rate cfg.cfg_slow_start_rps 1 in
      let start = if flt a connect slow then connect else slow in
      record {
        max_clients = or_default cfg.cfg_clients 1000;
        max_upstreams = or_default cfg.cfg_upstreams 1000;
        max_waiting = or_default cfg.cfg_waiting 1000;
        configured_rps = connect;
        slow_start_rps = start;
        ramp_rps = start;
        advertised_max = 0;
        advertised_rps = flit a 0 0;
        clients = 0;
        active_upstreams = pos 0;
        waiters = [];
        next_grant = 0;
        wake = false;
        stopped = false;
        store = λ _. blank_waiter;
        next_id = 0;
      }

  abbrev pub notify : Scheduler → Scheduler
  notify s = record s { wake = true }

  abbrev pub publish_positions : Scheduler → Scheduler
  publish_positions s = record s { store = publish_from 0 s.waiters s.store }

  unfoldable pub acquire_client : Scheduler → Scheduler × Option SchedulerError
  acquire_client s =
      if s.stopped
      then (s, some scheduler_closed)
      else if leb s.max_clients s.clients
      then (s, some client_limit)
      else (record s { clients = s.clients + 1 }, none)

  unfoldable pub release_client : Scheduler → Scheduler
  release_client s = if ltb 0 s.clients then record s { clients = s.clients - 1 } else s

  unfoldable pub enqueue_upstream : Scheduler → Scheduler × Enqueued
  enqueue_upstream s =
      if s.stopped
      then (s, refused scheduler_closed)
      else if leb s.max_waiting (length s.waiters)
      then (s, refused waiting_limit)
      else (
        notify (record s {
          waiters = s.waiters ++ s.next_id ∷ [];
          store =
              update s.store s.next_id (record blank_waiter { position = length s.waiters + 1 });
          next_id = s.next_id + 1;
        }),
        admitted s.next_id (length s.waiters + 1),
      )

  abbrev pub give_back : Scheduler → ℕ → Scheduler
  give_back s w = record s {
    active_upstreams = s.active_upstreams -ℤ pos 1;
    store = update s.store w (record (s.store w) { granted = false });
  }

  abbrev pub withdraw : Scheduler → ℕ → Scheduler
  withdraw s w = publish_positions (record s {
    waiters = remove w s.waiters;
    store = update s.store w (record (s.store w) { canceled = true });
  })

  -- `Admission.Cancel`
  unfoldable pub cancel : Scheduler → ℕ → Scheduler
  cancel s w = notify (
      if (s.store w).granted
      then give_back s w
      else if not (s.store w).canceled
      then withdraw s w
      else s)

  -- What `Wait` does when its context ends: as `Cancel`, without the test on `canceled`.
  unfoldable pub wait_done : Scheduler → ℕ → Scheduler
  wait_done s w = notify (if (s.store w).granted then give_back s w else withdraw s w)

  -- `Wait` takes a position out of the waiter's buffer.
  unfoldable pub wait_position : Scheduler → ℕ → Scheduler × Option ℕ
  wait_position s w = (
    record s { store = update s.store w (record (s.store w) { positions = none }) },
    (s.store w).positions,
  )

  -- What `Wait` returns once `ready` is closed; `none` while it is open.
  unfoldable pub wait_ready : Scheduler → ℕ → Option (Option SchedulerError)
  wait_ready s w =
      if (s.store w).ready
      then some (if (s.store w).failed then some scheduler_closed else none)
      else none

  -- One call of the function of `releaseFunc`, whose `sync.Once` is the Boolean.
  unfoldable pub release_upstream : Bool → Scheduler → Bool × Scheduler
  release_upstream once s = if once then (true, s) else (
    true,
    notify (
        if ltbℤ (pos 0) s.active_upstreams
        then record s { active_upstreams = s.active_upstreams -ℤ pos 1 }
        else s),
  )

  unfoldable pub effective_max : Scheduler → ℕ
  effective_max s =
      if ltb 0 s.advertised_max && ltb s.advertised_max s.max_upstreams
      then s.advertised_max
      else s.max_upstreams

  abbrev pub lower_rate : F a → F a → F a
  lower_rate r effective = if flt a (flit a 0 0) r && flt a r effective then r else effective

  unfoldable pub effective_rps : Scheduler → F a
  effective_rps s = lower_rate s.advertised_rps (lower_rate s.ramp_rps s.configured_rps)

  unfoldable pub report_success : Scheduler → Scheduler
  report_success s =
      let doubled = fmul a s.ramp_rps (flit a 2 0) in
      notify (record s {
        ramp_rps = if flt a s.configured_rps doubled then s.configured_rps else doubled;
      })

  unfoldable pub report_failure : ℕ → ℕ → Scheduler → Scheduler
  report_failure now draw s =
      let slowed = record s { ramp_rps = s.slow_start_rps } in
      let earliest = now + jitter a draw (interval a (effective_rps slowed)) in
      notify (
        if ltb 0 (length s.waiters) && ltb s.next_grant earliest
        then record slowed { next_grant = earliest }
        else slowed)

  abbrev pub take_max : Option ℕ → ℕ → ℕ
  take_max none old = old
  take_max (some n) old = if ltb 0 n then n else old

  abbrev pub take_rps : Option (F a) → F a → F a
  take_rps none old = old
  take_rps (some r) old = if flt a (flit a 0 0) r then r else old

  unfoldable pub update_capacity : Option ℕ → Option (F a) → Scheduler → Scheduler
  update_capacity max_connections connect_rps s = notify (record s {
    advertised_max = take_max max_connections s.advertised_max;
    advertised_rps = take_rps connect_rps s.advertised_rps;
  })

  abbrev pub grant_to : ℕ → ℕ → ℕ → List ℕ → Scheduler → Scheduler
  grant_to now draw w ws s =
      let published = publish_from 0 ws s.store in
      record s {
        waiters = ws;
        active_upstreams = s.active_upstreams +ℤ pos 1;
        next_grant = now + jitter a draw (interval a (effective_rps s));
        store = update published w (record (published w) { granted = true; ready = true });
      }

  -- The second half of `grantReady`, on the queue it has left.
  unfoldable pub grant_head : ℕ → ℕ → List ℕ → Scheduler → Scheduler × ℕ × Bool
  grant_head now draw [] s = (s, 0, false)
  grant_head now draw (w ∷ ws) s =
      if lebℤ (pos (effective_max s)) s.active_upstreams
      then (s, 0, false)
      else if ltb now s.next_grant
      then (s, s.next_grant - now, true)
      else (grant_to now draw w ws s, 0, ltb 0 (length ws))

  unfoldable pub grant_ready : ℕ → ℕ → Scheduler → Scheduler × ℕ × Bool
  unfolding grant_head drop_canceled
  grant_ready now draw s =
      let (ws, st) = drop_canceled s.waiters s.store in
      grant_head now draw ws (record s { waiters = ws; store = st })

  -- `failWaiters`
  unfoldable pub fail_waiters : Scheduler → Scheduler
  unfolding fail_all
  fail_waiters s = record s { waiters = []; store = fail_all s.waiters s.store }

  unfoldable pub close : Scheduler → Scheduler
  close s = if s.stopped then s else notify (record s { stopped = true })
