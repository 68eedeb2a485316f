-- ===== src/Websocket/Scheduler/Pacing.antt =====
-- internal/websocket/queue.go: when a connection may be opened, and to whom the slot goes.
use aquifer.Base.{
  ℕ, ◌+◌, ◌-◌, ◌≤◌, ◌<◌, ◌≡◌, ◌≢◌, refl, ◌⊎◌, inl, inr, Bool, true, false, List, [], ◌∷◌, arith,
  ltb, by_branch,
}
use aquifer.Base.Int.{pos, ◌+ℤ◌, ◌≤ℤ◌, ◌<ℤ◌, lebℤ}
use aquifer.Base.Float.{FloatArith, interval}
use aquifer.Retry.{le-jitter}
use aquifer.Websocket.Scheduler.Defs.{
  Scheduler, acquire_client, release_client, enqueue_upstream, cancel, wait_done, wait_position,
  release_upstream, effective_max, effective_rps, report_success, report_failure, update_capacity,
  grant_head, grant_ready, fail_waiters, close,
}
use aquifer.Websocket.Scheduler.Invariant.{
  Inv, Event, grants, step, run, step-Inv, run_keeps-Inv, grant_ready_lem,
}

module _ (a : FloatArith) where
  -- What one call of `grantReady` may do to `s` at the time `now`.
  pub data Outcome (s : Scheduler a) (now : ℕ) (t : Scheduler a × ℕ × Bool) : Type 0 where
    -- Nobody waits, or every upstream connection that is allowed is open.
    nothing_to_do :
        (s.waiters ≡ []) ⊎ (pos (effective_max a s) ≤ℤ s.active_upstreams)
        → t ≡ (s, 0, false)
        → Outcome s now t
    too_early : now < s.next_grant → t ≡ (s, s.next_grant - now, true) → Outcome s now t
    granted :
        (w : ℕ) (ws : List ℕ)
        → s.waiters ≡ w ∷ ws
        → t.0.waiters ≡ ws
        → (t.0.store w).granted ≡ true
        → (t.0.store w).ready ≡ true
        → s.active_upstreams <ℤ pos (effective_max a s)
        → t.0.active_upstreams ≡ s.active_upstreams +ℤ pos 1
        → s.next_grant ≤ now
        → now + interval a (effective_rps a s) ≤ t.0.next_grant
        → Outcome s now t

  grant_head-Outcome :
      (s : Scheduler a) (now draw : ℕ) (ws : List ℕ)
      → s.waiters ≡ ws
      → Outcome s now (grant_head a now draw ws s)
  unfolding grant_head
  grant_head-Outcome s now draw [] e = nothing_to_do (inl e) refl
  grant_head-Outcome s now draw (w ∷ ws) e =
      by_branch (Outcome s now) (lebℤ (pos (effective_max a s)) s.active_upstreams)
        (λ full. nothing_to_do (inr (ground arith)) refl)
        (λ room.
          by_branch (Outcome s now) (ltb now s.next_grant) (λ early. too_early (ground arith) refl)
            (λ due.
              granted w ws e refl (ground arith) (ground arith) (ground arith) refl (ground arith)
                (omega (arith, le-jitter a draw (interval a (effective_rps a s))))))

  -- Between calls, one call of `grantReady` does one of three things: it does nothing as nobody
  -- waits or the connections that the target allows are all open; it asks to be called again when
  -- the next connection may be opened; or it grants a connection to the waiter that stands first,
  -- below the limit and not before its time, and sets the next time at least one interval later.
  pub grant_ready-Outcome :
      (s : Scheduler a) (now draw : ℕ) → Inv a s → Outcome s now (grant_ready a now draw s)
  grant_ready-Outcome s now draw v =
      rw (grant_ready_lem a s now draw v) (grant_head-Outcome s now draw s.waiters refl)

  Outcome-next_grant :
      {s : Scheduler a} {now : ℕ} {t : Scheduler a × ℕ × Bool}
      → Outcome s now t
      → s.next_grant ≤ t.0.next_grant
  Outcome-next_grant (nothing_to_do h e) = rw e (omega arith)
  Outcome-next_grant (too_early h e) = rw e (omega arith)
  Outcome-next_grant (granted w ws e1 e2 g r room up due next) = omega arith

  step-next_grant :
      (s : Scheduler a) (e : Event a) → Inv a s → s.next_grant ≤ (step a s e).next_grant
  unfolding step acquire_client release_client enqueue_upstream wait_position wait_done cancel
      report_success report_failure update_capacity close fail_waiters release_upstream
  step-next_grant s (grants now draw) v = Outcome-next_grant (grant_ready-Outcome s now draw v)
  step-next_grant s e v = ground arith

  run-next_grant :
      (s : Scheduler a) (es : List (Event a)) → Inv a s → s.next_grant ≤ (run a s es).next_grant
  unfolding run
  run-next_grant s [] v = omega arith
  run-next_grant s (e ∷ es) v =
      omega (arith, step-next_grant s e v, run-next_grant (step a s e) es (step-Inv a s e v))

  -- A connection is granted at `now`: the queue changes.
  abbrev pub Grants : Scheduler a → ℕ → ℕ → Type 0
  Grants s now draw = (grant_ready a now draw s).0.waiters ≢ s.waiters

  Outcome-due :
      {s : Scheduler a} {now : ℕ} {t : Scheduler a × ℕ × Bool}
      → Outcome s now t
      → t.0.waiters ≢ s.waiters
      → (s.next_grant ≤ now) × (now + interval a (effective_rps a s) ≤ t.0.next_grant)
  Outcome-due (nothing_to_do h e) g = absurd (g (rw e refl))
  Outcome-due (too_early h e) g = absurd (g (rw e refl))
  Outcome-due (granted w ws e1 e2 g r room up due next) h = (due, next)

  -- Two connections are opened at least one interval apart, at the rate in force when the first
  -- was opened, whatever calls come between them.
  pub Grants-spaced :
      (s : Scheduler a) (first draw : ℕ) (es : List (Event a)) (second draw' : ℕ)
      → Inv a s
      → Grants s first draw
      → Grants (run a (grant_ready a first draw s).0 es) second draw'
      → first + interval a (effective_rps a s) ≤ second
  unfolding step
  Grants-spaced s first draw es second draw' v g g' =
      let s1 = (grant_ready a first draw s).0 in
      let v1 : Inv a s1 = step-Inv a s (grants first draw) v in
      omega (
        arith,
        Outcome-due (grant_ready-Outcome s first draw v) g,
        run-next_grant s1 es v1,
        Outcome-due (grant_ready-Outcome (run a s1 es) second draw' (run_keeps-Inv a s1 es v1)) g',
      )
