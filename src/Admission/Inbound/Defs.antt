-- ===== src/Admission/Inbound/Defs.antt =====
-- internal/admission/inbound_rate.go: the rate that a node advertises to its callers. Times are
-- nanoseconds. A tick is given the 95th percentile of the latencies of its submissions.
use aquifer.Base.{
  ℕ, ◌+◌, ◌-◌, Bool, true, false, not, ◌&&◌, ◌||◌, Option, none, some, ltb, leb, ◌==◌,
  if◌then◌else◌,
}
use aquifer.Base.Float.{FloatArith, F, flit, fint, fadd, fmul, fdiv, fle, flt, fmax, fmin, duration}

pub data Adjustment : Type 0 where
  cut_latency cut_disk cut_backlog : Adjustment
  hold hold_last_cut hold_backlog hold_overshoot raise : Adjustment

-- `prev_backlog` is `none` where the source has -1.
pub record InboundRate (a : FloatArith) : Type 0 where
  pub floor : F a
  pub ceiling : F a
  pub inbound_rate : F a
  pub threshold : F a
  pub cooldown : ℕ
  pub congested : Bool
  pub episode : ℕ
  pub prev_backlog : Option ℕ
  pub backlog_grows : ℕ
  pub baseline : ℕ

-- What a tick reads: the inserts and the number of latencies since the last one, their 95th
-- percentile, the backlog and the sync lag if they are wired in.
pub record Reading : Type 0 where
  pub inserts : ℕ
  pub samples : ℕ
  pub p95 : ℕ
  pub backlog : Option ℕ
  pub sync_lag : Option ℕ

-- What a tick makes of it.
pub record Signals : Type 0 where
  pub latency_healthy : Bool
  pub backlog_growing : Bool
  pub backlog_overloaded : Bool
  pub disk_behind : Bool
  pub overshoot : Bool
  pub used : Bool

abbrev pub is_healthy : Signals → Bool
is_healthy s = s.latency_healthy && not s.backlog_overloaded && not s.disk_behind

abbrev pub cut_reason : Signals → Adjustment
cut_reason s =
    if not s.latency_healthy then cut_latency else if s.disk_behind then cut_disk else cut_backlog

module _ (a : FloatArith) where
  unfoldable pub new_inbound_rate : F a → F a → InboundRate a
  new_inbound_rate benchmark start_percent =
      let benchmark' = if fle a benchmark (flit a 0 0) then flit a 400 0 else benchmark in
      record {
        floor = flit a 1 0;
        ceiling = fmul a benchmark' (flit a 10 0);
        inbound_rate =
            fmax a (fdiv a (fmul a benchmark' start_percent) (flit a 100 0)) (flit a 1 0);
        threshold = benchmark';
        cooldown = 0;
        congested = false;
        episode = 0;
        prev_backlog = none;
        backlog_grows = 0;
        baseline = 0;
      }

  unfoldable pub next_baseline : ℕ → ℕ → ℕ → ℕ
  next_baseline samples p95 baseline =
      if ltb samples 20
      then baseline
      else if baseline == 0 || ltb p95 baseline
      then p95
      else duration a
          (fadd a (fmul a (fint a baseline) (flit a 99 2)) (fmul a (fint a p95) (flit a 1 2)))

  -- Whether the backlog grew by more than 10 and a tenth of the inserts.
  unfoldable pub is_growing : ℕ → Option ℕ → Option ℕ → Bool
  is_growing inserts none now = false
  is_growing inserts (some was) none = false
  is_growing inserts (some was) (some now) =
      leb was now
      && flt a (fmax a (flit a 10 0) (fmul a (flit a 1 1) (fint a inserts))) (fint a (now - was))

  abbrev pub is_behind : ℕ → Option ℕ → Bool
  is_behind limit none = false
  is_behind limit (some lag) = ltb limit lag

  -- The signals of a tick; `limit` is `syncLagLimit`.
  unfoldable pub signals_of : ℕ → Reading → InboundRate a → Signals
  unfolding next_baseline is_growing
  signals_of limit r c =
      let growing = is_growing r.inserts c.prev_backlog r.backlog in
      let baseline' = next_baseline r.samples r.p95 c.baseline in
      let healthy_up_to = duration a (fmul a (fint a baseline') (flit a 15 1)) + 2_000_000 in
      record {
        latency_healthy = ltb r.samples 20 || leb r.p95 healthy_up_to;
        backlog_growing = growing;
        backlog_overloaded = growing && leb 3 (c.backlog_grows + 1);
        disk_behind = is_behind limit r.sync_lag;
        overshoot = flt a (fmul a c.inbound_rate (flit a 15 1)) (fint a r.inserts);
        used = fle a (fmul a c.inbound_rate (flit a 8 1)) (fint a r.inserts);
      }

  -- The first steps of the tick after its signals: the end of an episode, the cooldown, its age.
  unfoldable pub age : Bool → InboundRate a → InboundRate a
  age healthy c =
      let congested' = c.congested && not healthy in
      record c {
        congested = congested';
        cooldown = c.cooldown - 1;
        episode = if congested' then c.episode + 1 else c.episode;
      }

  abbrev pub may_cut : InboundRate a → Bool
  may_cut c = (not c.congested || leb 10 c.episode) && c.cooldown == 0

  abbrev pub cut : InboundRate a → InboundRate a
  cut c = record c {
    threshold =
        if c.congested then c.threshold else fmax a (fmul a c.inbound_rate (flit a 9 1)) c.floor;
    congested = true;
    episode = 0;
    inbound_rate = fmax a (fmul a c.inbound_rate (flit a 7 1)) c.floor;
    cooldown = 3;
  }

  abbrev pub grow : InboundRate a → InboundRate a
  grow c =
      let growth = if fle a c.threshold c.inbound_rate then flit a 105 2 else flit a 15 1 in
      record c { congested = false; inbound_rate = fmin a (fmul a c.inbound_rate growth) c.ceiling }

  -- The switch of the tick.
  unfoldable pub adjust : Signals → InboundRate a → InboundRate a × Adjustment
  adjust s c =
      if not (is_healthy s) && may_cut c
      then (cut c, cut_reason s)
      else if not (is_healthy s)
      then (c, hold_last_cut)
      else if s.backlog_growing
      then (c, hold_backlog)
      else if s.overshoot
      then (c, hold_overshoot)
      else if s.used
      then (grow c, raise)
      else (c, hold)

  -- The tick up to its switch.
  unfoldable pub observe : ℕ → Reading → InboundRate a → InboundRate a
  unfolding signals_of next_baseline age
  observe limit r c =
      let s = signals_of limit r c in
      age (is_healthy s) (record c {
        baseline = next_baseline r.samples r.p95 c.baseline;
        backlog_grows = if s.backlog_growing then c.backlog_grows + 1 else 0;
        prev_backlog = r.backlog;
      })

  unfoldable pub tick : ℕ → Reading → InboundRate a → InboundRate a × Adjustment
  unfolding observe adjust
  tick limit r c = adjust (signals_of limit r c) (observe limit r c)
