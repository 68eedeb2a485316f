-- ===== src/Dispatch/Queue/Rate.antt =====
-- internal/dispatch/account_queue.go: how the run loop moves its pace and its concurrency.
use aquifer.Base.{ℕ, Bool, Option, none, some, ltb, if◌then◌else◌, min}
use aquifer.Base.Int.{ℤ, pos, negsuc}
use aquifer.Base.Float.{FloatArith, F, flit, fmul, fdiv, flt, fmax, fmin}
use aquifer.Dispatch.SharedPace.Defs.{min_rps}
use aquifer.Dispatch.Execute.Signals.{DoneMsg}

module _ (a : FloatArith) where
  -- The pace that a failure leads to.
  abbrev pub rps_after_failure : F a → Option (F a) → F a
  rps_after_failure rps none = fmax a (fdiv a rps (flit a 2 0)) (min_rps a)
  rps_after_failure rps (some r) = fmax a (fmin a (fdiv a rps (flit a 2 0)) r) (min_rps a)

  abbrev pub rps_after_answer : F a → F a → Option (F a) → F a
  rps_after_answer configured rps none =
      if flt a rps configured then fmin a (fmul a rps (flit a 105 2)) configured else rps
  rps_after_answer configured rps (some r) = fmax a (fmin a r configured) (min_rps a)

  -- The switch on a message.
  unfoldable pub next_rps : F a → F a → DoneMsg a.Num → F a
  next_rps configured rps msg =
      if msg.has_failed
      then rps_after_failure rps msg.rps
      else rps_after_answer configured rps msg.rps

  unfoldable pub next_max_concurrent : ℕ → ℕ → Option ℤ → ℕ
  next_max_concurrent configured current none = current
  next_max_concurrent configured current (some (negsuc n)) = current
  next_max_concurrent configured current (some (pos n)) =
      if ltb 0 n then min n configured else current

  -- A queue in front of a pool takes the pool's capacity at every pass.
  unfoldable pub pool_rps : F a → F a → Option (F a) → F a
  pool_rps configured rps none = rps
  pool_rps configured rps (some cap) =
      if flt a (flit a 0 0) cap then fmax a (fmin a cap configured) (min_rps a) else rps

  unfoldable pub start_rps : Bool → F a → F a
  start_rps slow_start configured = if slow_start then min_rps a else configured
