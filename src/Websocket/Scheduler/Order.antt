-- ===== src/Websocket/Scheduler/Order.antt =====
-- internal/websocket/queue.go: connections are granted in the order in which they were asked for.
use mathlib.Core.List.{Sublist, append-nil, append_assoc}
use mathlib.Core.List.Sublist
use mathlib.Core.List.{sublist-append_left, nil-sublist}
use aquifer.Base.{
  ℕ, ◌≡◌, refl, Bool, not, List, [], ◌∷◌, ◌++◌, arith, ◌==◌, length, leb, ltb, both_branches,
}
use aquifer.Base.Int.{pos, lebℤ}
use aquifer.Base.Float.{FloatArith}
use aquifer.Websocket.Scheduler.Defs.{
  Scheduler, Enqueued, remove, acquire_client, release_client, enqueue_upstream, cancel, wait_done,
  wait_position, release_upstream, effective_max, report_success, report_failure, update_capacity,
  grant_head, grant_ready, fail_waiters, close, drop_canceled, Store, publish_from,
}
use aquifer.Websocket.Scheduler.Invariant.{
  Event, acquires, leaves, enqueues, stops, fails_all, succeeds, cancels, ends, takes_position,
  releases, fails, grants, updates, step, run,
}

remove-sublist : (w : ℕ) (ws : List ℕ) → Sublist (remove w ws) ws
unfolding remove
remove-sublist w [] = Sublist.refl []
remove-sublist w (v ∷ ws) =
    both_branches (λ r. Sublist r (v ∷ ws)) (v == w) (Sublist.cons v (Sublist.refl ws))
      (Sublist.cons-cons v (remove-sublist w ws))

drop_canceled-sublist : (ws : List ℕ) (st : Store) → Sublist (drop_canceled ws st).0 ws
unfolding drop_canceled
drop_canceled-sublist [] st = Sublist.refl []
drop_canceled-sublist (w ∷ ws) st =
    both_branches (λ (r : List ℕ × Store). Sublist r.0 (w ∷ ws)) (st w).canceled
      (Sublist.cons w (drop_canceled-sublist ws (publish_from 0 ws st))) (Sublist.refl (w ∷ ws))

module _ (a : FloatArith) where
  abbrev entered_at : Scheduler a → Event a → List ℕ
  entered_at s enqueues = s.next_id ∷ []
  entered_at s _ = []

  -- The waiters that ask for a connection along a history, in the order in which they ask.
  unfoldable pub entered : Scheduler a → List (Event a) → List ℕ
  entered s [] = []
  entered s (e ∷ es) = entered_at s e ++ entered (step a s e) es

  grant_head-sublist :
      (now draw : ℕ) (ws : List ℕ) (s : Scheduler a)
      → s.waiters ≡ ws
      → Sublist (grant_head a now draw ws s).0.waiters ws
  unfolding grant_head
  grant_head-sublist now draw [] s e = rw e (Sublist.refl [])
  grant_head-sublist now draw (w ∷ ws) s e =
      both_branches (λ (r : Scheduler a × ℕ × Bool). Sublist r.0.waiters (w ∷ ws))
        (lebℤ (pos (effective_max a s)) s.active_upstreams) (rw e (Sublist.refl (w ∷ ws)))
        (both_branches (λ (r : Scheduler a × ℕ × Bool). Sublist r.0.waiters (w ∷ ws))
          (ltb now s.next_grant) (rw e (Sublist.refl (w ∷ ws))) (Sublist.cons w (Sublist.refl ws)))

  abbrev Thins : Scheduler a → Scheduler a → Type 0
  Thins s t = Sublist t.waiters s.waiters

  leave-Thins : (s : Scheduler a) (w : ℕ) → Thins s (cancel a s w)
  unfolding cancel
  leave-Thins s w = both_branches (Thins s) (s.store w).granted (Sublist.refl s.waiters) (
      both_branches (Thins s) (not (s.store w).canceled) (remove-sublist w s.waiters)
        (Sublist.refl s.waiters))

  -- The calls that leave the queue as it is.
  step_keeps :
      (s : Scheduler a) (e : Event a)
      → (step a s e).waiters ≡ s.waiters
      → entered_at s e ≡ []
      → Sublist (step a s e).waiters (s.waiters ++ entered_at s e)
  step_keeps s e kept none_new = rw (kept, none_new, append-nil) (Sublist.refl s.waiters)

  step-sublist :
      (s : Scheduler a) (e : Event a) → Sublist (step a s e).waiters (s.waiters ++ entered_at s e)
  unfolding step acquire_client release_client enqueue_upstream wait_position wait_done
      report_success report_failure update_capacity close fail_waiters release_upstream grant_ready
  step-sublist s enqueues =
      both_branches
        (λ (r : Scheduler a × Enqueued). Sublist r.0.waiters (s.waiters ++ s.next_id ∷ []))
        s.stopped (sublist-append_left s.waiters _)
        (both_branches
          (λ (r : Scheduler a × Enqueued). Sublist r.0.waiters (s.waiters ++ s.next_id ∷ []))
          (leb s.max_waiting (length s.waiters)) (sublist-append_left s.waiters _)
          (Sublist.refl (s.waiters ++ s.next_id ∷ [])))
  step-sublist s acquires = step_keeps s acquires (ground arith) refl
  step-sublist s leaves = step_keeps s leaves (ground arith) refl
  step-sublist s stops = step_keeps s stops (ground arith) refl
  step-sublist s fails_all = nil-sublist _
  step-sublist s succeeds = step_keeps s succeeds refl refl
  step-sublist s (cancels w) = rw append-nil (leave-Thins s w)
  step-sublist s (ends w) = rw append-nil (
      both_branches (Thins s) (s.store w).granted (Sublist.refl s.waiters)
        (remove-sublist w s.waiters))
  step-sublist s (takes_position w) = step_keeps s (takes_position w) refl refl
  step-sublist s (releases once) = step_keeps s (releases once) (ground arith) refl
  step-sublist s (fails now draw) = step_keeps s (fails now draw) (ground arith) refl
  step-sublist s (grants now draw) =
      let (ws, st) = drop_canceled s.waiters s.store in
      rw append-nil (
        Sublist.trans (grant_head-sublist now draw ws (record s { waiters = ws; store = st }) refl)
          (drop_canceled-sublist s.waiters s.store))
  step-sublist s (updates m r) = step_keeps s (updates m r) refl refl

  -- Whatever calls are made, the waiters that are left in line stand in the order in which they
  -- asked: they are the old queue followed by those that came, less the ones that left.
  pub run-order :
      (s : Scheduler a) (es : List (Event a))
      → Sublist (run a s es).waiters (s.waiters ++ entered s es)
  unfolding run entered
  run-order s [] = rw append-nil (Sublist.refl s.waiters)
  run-order s (e ∷ es) = rw (← append_assoc) (
      Sublist.trans (run-order (step a s e) es)
        (Sublist.append (step-sublist s e) (Sublist.refl (entered (step a s e) es))))
