-- ===== src/Dispatch/Worker/Defs.antt =====
-- internal/dispatch/url_worker.go: the worker of a target, with the backlog of each of its queues by
-- its key. A budget of 0 is none; times are nanoseconds.
use Prim.Native.String.{String}
use text.Mathlib.Text.{◌==◌ as str_eq}
use aquifer.Base.{
  ℕ, ◌+◌, ◌-◌, Bool, true, false, not, ◌&&◌, ◌||◌, Option, none, some, List, [], ◌∷◌, ltb, leb,
  ◌==◌, if◌then◌else◌, min,
}
use aquifer.Base.Float.{FloatArith, F}
use aquifer.Admission.Fair.Defs.{FairDecision, decide_fair_with_floor}

pub record Worker : Type 0 where
  pub queues : List (String × ℕ)
  pub backlog : ℕ
  pub max_backlog : ℕ
  pub shrink_floor : ℕ
  pub account_queue_mode : Bool
  pub node_default : Bool
  pub sender_opt_in : Bool
  pub destination_mode : Option Bool
  pub breaker_until : Option ℕ
  pub breaker_kind : String
  pub is_stopped : Bool

unfoldable pub breaker_open : ℕ → Worker → Bool
breaker_open now w = elim w.breaker_until [ none ↦ false | some until ↦ ltb now until ]

unfoldable pub trip_breaker : ℕ → ℕ → String → Worker → Worker
trip_breaker now cooldown kind w = record w {
  breaker_until = some (now + cooldown);
  breaker_kind = kind;
}

-- The floor after the budget moves to `v`.
unfoldable pub moved_floor : ℕ → Worker → ℕ
moved_floor v w =
    if ltb v w.max_backlog && ltb v w.backlog
    then w.backlog
    else if ltb w.max_backlog v
    then (if ltb 0 w.shrink_floor && ltb v w.backlog then min w.shrink_floor w.backlog else 0)
    else w.shrink_floor

unfoldable pub set_max_backlog : ℕ → Worker → Worker
unfolding moved_floor
set_max_backlog v w = record w { shrink_floor = moved_floor v w; max_backlog = v }

-- The sums of the loop over the queues: their backlog, and how many have any.
unfoldable pub pending : List (String × ℕ) → ℕ
pending [] = 0
pending ((k, n) ∷ qs) = n + pending qs

unfoldable pub busy_queues : List (String × ℕ) → ℕ
busy_queues [] = 0
busy_queues ((k, n) ∷ qs) = (if ltb 0 n then 1 else 0) + busy_queues qs

-- The backlog of the queue with a key, 0 if there is none.
unfoldable pub pending_of : String → List (String × ℕ) → ℕ
pending_of key [] = 0
pending_of key ((k, n) ∷ qs) = if str_eq k key then n else pending_of key qs

-- `reserveBacklog` on the queue with a key, which is made if there is none.
unfoldable pub reserve_on : String → List (String × ℕ) → List (String × ℕ)
reserve_on key [] = (key, 1) ∷ []
reserve_on key ((k, n) ∷ qs) = if str_eq k key then (k, n + 1) ∷ qs else (k, n) ∷ reserve_on key qs

unfoldable pub queue_key : String → Worker → String
queue_key tenant w = if w.account_queue_mode then tenant else "__shared__"

-- How `reserve` ends: the worker is stopped, the target is full, or the slot is taken.
pub data Reserved : Type 0 where
  stopped_worker refused_by_share taken : Reserved

-- `shrinkFloor` as `reserve` reads it: it is gone once the backlog is within the budget.
unfoldable pub live_floor : Worker → ℕ
unfolding pending
live_floor w =
    if ltb 0 w.shrink_floor && leb (pending w.queues) w.max_backlog then 0 else w.shrink_floor

-- The backlog that the share is measured by, and the number of active queues, this one included.
unfoldable pub queue_pending : String → Worker → ℕ
unfolding pending pending_of
queue_pending key w = if w.account_queue_mode then pending_of key w.queues else pending w.queues

unfoldable pub active_queues : String → Worker → ℕ
unfolding busy_queues pending_of
active_queues key w =
    if w.account_queue_mode
    then (if pending_of key w.queues == 0 then 1 else 0) + busy_queues w.queues
    else 1

-- The end of `reserve`.
unfoldable pub take_place : String → Worker → Worker × Reserved
unfolding reserve_on
take_place key w = (record w { queues = reserve_on key w.queues; backlog = w.backlog + 1 }, taken)

module _ (a : FloatArith) where
  unfoldable pub decision : F a → String → F a → Worker → FairDecision a
  unfolding queue_pending pending active_queues live_floor
  decision below_one key draw w =
      decide_fair_with_floor a below_one (queue_pending key w) (pending w.queues)
        (active_queues key w) w.max_backlog (live_floor w) draw

  -- `reserve`: `tenant` is the job's own queue key, and `enforce` whether admission applies.
  unfoldable pub reserve : F a → String → F a → Bool → Worker → Worker × Reserved
  unfolding decision live_floor queue_key take_place
  reserve below_one tenant draw enforce w =
      let key = queue_key tenant w in
      let w' = record w { shrink_floor = live_floor w } in
      if w.is_stopped
      then (w, stopped_worker)
      else if not enforce
      then take_place key w
      else if (decision below_one key draw w).fair_allowed
      then take_place key w'
      else (w', refused_by_share)

-- A job of the queue with a key leaves.
unfoldable pub release_on : String → List (String × ℕ) → List (String × ℕ)
release_on key [] = []
release_on key ((k, n) ∷ qs) = if str_eq k key then (k, n - 1) ∷ qs else (k, n) ∷ release_on key qs

unfoldable pub release : String → Worker → Worker
unfolding release_on
release key w = record w { queues = release_on key w.queues; backlog = w.backlog - 1 }

abbrev pub erase_key : String → List (String × ℕ) → List (String × ℕ)
erase_key key [] = []
erase_key key ((k, n) ∷ qs) = if str_eq k key then qs else (k, n) ∷ erase_key key qs

-- The callback of an idle queue: it is retired if nothing was reserved on it (a job in its channel
-- holds a reservation).
unfoldable pub retire : String → Worker → Worker
unfolding pending_of
retire key w =
    if ltb 0 (pending_of key w.queues)
    then w
    else (let left = erase_key key w.queues in
        record w { queues = left; is_stopped = w.is_stopped || is_empty_map left })
  where
    is_empty_map : List (String × ℕ) → Bool
    is_empty_map [] = true
    is_empty_map (x ∷ xs) = false

-- What the destination said, if it did, and the default otherwise.
abbrev pub answer_or : Option Bool → Bool → Bool
answer_or none default = default
answer_or (some on) default = on

unfoldable pub apply_mode : Worker → Worker
apply_mode w = record w {
  account_queue_mode = answer_or w.destination_mode (w.node_default || w.sender_opt_in);
}

-- A sender's header, once it is read: `none` if it means neither on nor off.
unfoldable pub sender_asks : Option Bool → Worker → Worker
unfolding apply_mode
sender_asks none w = w
sender_asks (some false) w = w
sender_asks (some true) w = apply_mode (record w { sender_opt_in = true })

unfoldable pub set_policy : Bool → Option Bool → Worker → Worker
unfolding apply_mode
set_policy default destination w =
    apply_mode (record w { node_default = default; destination_mode = destination })

-- The destination's answer, and whether the registry is told to remember it.
unfoldable pub destination_says : Bool → Worker → Worker × Bool
unfolding apply_mode
destination_says on w =
    (apply_mode (record w { destination_mode = some on }), changes w.destination_mode)
  where
    changes : Option Bool → Bool
    changes none = true
    changes (some was) = if was then not on else on
