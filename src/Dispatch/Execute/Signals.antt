-- ===== src/Dispatch/Execute/Signals.antt =====
-- internal/dispatch/account_queue.go: the message that an attempt hands back to its queue, and the
-- pacing signals that it reads from a response.
use Prim.Native.String.{String}
use text.Mathlib.Text.{◌==◌ as str_eq}
use Prim.Native.String.{◌++◌ as str_append}
use aquifer.Base.{Bool, false, not, ◌&&◌, ◌||◌, Option, none, some, if◌then◌else◌}
use aquifer.Base.Int.{ℤ, pos, lebℤ}
use aquifer.Base.Float.{Float}
use aquifer.Jobs.Defs.{Job, is_empty}
use aquifer.Dispatch.Execute.Effects.{FailReason}

-- `N` are the numbers of a float64. The user id is the job's.
pub record DoneMsg (N : Type 0) : Type 0 where
  pub done_job : Option Job
  pub has_completed : Bool
  pub rps : Option (Float N)
  pub max_concurrent : Option ℤ
  pub account_queue : Option String
  pub slow_start : Option Bool
  pub max_backlog : Option ℤ
  pub has_failed : Bool
  pub reached : Bool
  pub local : Bool
  -- The job to retry, the time for it, and why the attempt before failed.
  pub retry : Option (Job × ℤ × FailReason)

abbrev pub empty_msg : (N : Type 0) → DoneMsg N
empty_msg N = record {
  done_job = none;
  has_completed = false;
  rps = none;
  max_concurrent = none;
  account_queue = none;
  slow_start = none;
  max_backlog = none;
  has_failed = false;
  reached = false;
  local = false;
  retry = none;
}

-- `http.Header.Get`: "" for a header that is missing.
abbrev pub Headers : Type 0
Headers = String → String

unfoldable pub pacing_header : Headers → String → String
pacing_header get name =
    if not (is_empty (get (str_append "X-Aqueduct-" name)))
    then get (str_append "X-Aqueduct-" name)
    else get (str_append "X-Aquifer-" name)

-- The readers of header values: `fmt.Sscanf` with %f and %d leaves 0 where it reads no number, and
-- says whether it did; `strconv.Atoi`; and `orca.Rps`.
pub record Readers (N : Type 0) : Type 0 where
  pub scan_float : String → Float N
  pub scan_int : String → ℤ × Bool
  pub atoi : String → Option ℤ
  pub orca_rps : Headers → Option (Float N)

module _ {N : Type 0} (r : Readers N) where
  unfoldable pub signalled_rps : Headers → Option (Float N)
  unfolding pacing_header
  signalled_rps get =
      let val = pacing_header get "Rps" in
      if not (is_empty val) then some (r.scan_float val) else r.orca_rps get

  unfoldable pub signalled_max_concurrent : Headers → Option ℤ
  unfolding pacing_header
  signalled_max_concurrent get =
      let val = pacing_header get "Max-Concurrent" in
      if not (is_empty val) then some ((r.scan_int val).0) else none

  unfoldable pub signalled_max_backlog : Headers → Option ℤ
  unfolding pacing_header
  signalled_max_backlog get =
      let val = pacing_header get "Max-Backlog" in
      let (n, ok) = r.scan_int val in
      if not (is_empty val) && ok && lebℤ (pos 0) n then some n else none

  unfoldable pub pacing_signals : Headers → DoneMsg N
  unfolding pacing_header signalled_rps signalled_max_concurrent signalled_max_backlog
  pacing_signals get =
      let queue = pacing_header get "Account-Queue" in
      let slow = pacing_header get "Slow-Start" in
      record (empty_msg N) {
        rps = signalled_rps get;
        max_concurrent = signalled_max_concurrent get;
        account_queue = if not (is_empty queue) then some queue else none;
        slow_start =
            if str_eq slow "true" || str_eq slow "false" then some (str_eq slow "true") else none;
        max_backlog = signalled_max_backlog get;
      }
