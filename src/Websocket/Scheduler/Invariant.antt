-- ===== src/Websocket/Scheduler/Invariant.antt =====
-- internal/websocket/queue.go: what holds of the scheduler between two calls.
use native.Mathlib.Numerals.{add-one}
use aquifer.Base.{
  ℕ, ◌≤◌, ◌<◌, ◌≡◌, refl, Bool, true, Option, List, [], ◌∷◌, arith, ap, leb, ltb, not,
  both_branches, by_branch, length, length-append, All, All-append, All-lt_suc, NotIn-above,
  Distinct, Distinct-snoc,
}
use aquifer.Base.Int.{pos, ◌≤ℤ◌, ◌<ℤ◌, int_laws, lebℤ, ltbℤ}
use aquifer.Base.Float.{FloatArith, F}
use aquifer.Websocket.Scheduler.Defs.{
  Enqueued, SchedulerError, notify, SchedulerConfig, Scheduler, new_scheduler, acquire_client,
  release_client, enqueue_upstream, cancel, wait_done, wait_position, release_upstream,
  effective_max, report_success, report_failure, update_capacity, grant_head, grant_ready,
  fail_waiters, close, withdraw, give_back, grant_to,
}
use aquifer.Websocket.Scheduler.Queue.{
  Queued, Queued-AllWait, update_self, Queued-update, AllWait-update, Queued-touch,
  publish_from-Queued, Queued-snoc, remove-All, remove-Distinct, NotIn-remove, remove-AllWait,
  length-remove, drop_canceled_of_AllWait,
}

module _ (a : FloatArith) where
  pub record Inv (s : Scheduler a) : Type 0 where
    pub clients_bound : s.clients ≤ s.max_clients
    pub waiting_bound : length s.waiters ≤ s.max_waiting
    pub upstreams_bound : s.active_upstreams ≤ℤ pos s.max_upstreams
    pub fresh : All (λ w. w < s.next_id) s.waiters
    pub distinct : Distinct s.waiters
    pub queued : Queued 0 s.waiters s.store

  -- A call of the scheduler, or a turn of its loop, with the clock and the draw that it reads.
  pub data Event : Type 0 where
    acquires leaves enqueues stops fails_all succeeds : Event
    cancels ends takes_position : ℕ → Event
    releases : Bool → Event
    fails grants : ℕ → ℕ → Event
    updates : Option ℕ → Option (F a) → Event

  unfoldable pub step : Scheduler a → Event → Scheduler a
  step s acquires = (acquire_client a s).0
  step s leaves = release_client a s
  step s enqueues = (enqueue_upstream a s).0
  step s stops = close a s
  step s fails_all = fail_waiters a s
  step s succeeds = report_success a s
  step s (cancels w) = cancel a s w
  step s (ends w) = wait_done a s w
  step s (takes_position w) = (wait_position a s w).0
  step s (releases once) = (release_upstream a once s).1
  step s (fails now draw) = report_failure a now draw s
  step s (grants now draw) = (grant_ready a now draw s).0
  step s (updates m r) = update_capacity a m r s

  unfoldable pub run : Scheduler a → List Event → Scheduler a
  run s [] = s
  run s (e ∷ es) = run (step s e) es

  withdraw-Inv : (s : Scheduler a) (w : ℕ) → Inv s → Inv (withdraw a s w)
  withdraw-Inv s w v = record {
    clients_bound = v.clients_bound;
    waiting_bound = omega (arith, length-remove w s.waiters, v.waiting_bound);
    upstreams_bound = v.upstreams_bound;
    fresh = remove-All w (λ x. x < s.next_id) s.waiters v.fresh;
    distinct = remove-Distinct w s.waiters v.distinct;
    queued = publish_from-Queued 0 _ _ (remove-Distinct w s.waiters v.distinct) (
        AllWait-update _ s.store w _ (NotIn-remove w s.waiters v.distinct)
          (remove-AllWait w s.waiters s.store (Queued-AllWait 0 s.waiters s.store v.queued)));
  }

  give_back-Inv : (s : Scheduler a) (w : ℕ) → Inv s → Inv (give_back a s w)
  give_back-Inv s w v = record {
    clients_bound = v.clients_bound;
    waiting_bound = v.waiting_bound;
    upstreams_bound = omega (int_laws, v.upstreams_bound);
    fresh = v.fresh;
    distinct = v.distinct;
    queued = Queued-touch 0 s.waiters s.store w _ refl (λ h. ground arith) v.queued;
  }

  notify-Inv : (s : Scheduler a) → Inv s → Inv (notify a s)
  notify-Inv s v = record {
    clients_bound = v.clients_bound;
    waiting_bound = v.waiting_bound;
    upstreams_bound = v.upstreams_bound;
    fresh = v.fresh;
    distinct = v.distinct;
    queued = v.queued;
  }

  -- A change of the other fields.
  copy-Inv :
      (s t : Scheduler a)
      → t.clients ≡ s.clients
      → t.max_clients ≡ s.max_clients
      → t.waiters ≡ s.waiters
      → t.max_waiting ≡ s.max_waiting
      → t.active_upstreams ≡ s.active_upstreams
      → t.max_upstreams ≡ s.max_upstreams
      → t.next_id ≡ s.next_id
      → t.store ≡ s.store
      → Inv s
      → Inv t
  copy-Inv s t e1 e2 e3 e4 e5 e6 e7 e8 v = record {
    clients_bound = rw (e1, e2) v.clients_bound;
    waiting_bound = rw (e3, e4) v.waiting_bound;
    upstreams_bound = rw (e5, e6) v.upstreams_bound;
    fresh = rw (e3, e7) v.fresh;
    distinct = rw e3 v.distinct;
    queued = rw (e3, e8) v.queued;
  }

  cancel-Inv : (s : Scheduler a) (w : ℕ) → Inv s → Inv (cancel a s w)
  unfolding cancel
  cancel-Inv s w v = notify-Inv _ (
      both_branches Inv (s.store w).granted (give_back-Inv s w v)
        (both_branches Inv (not (s.store w).canceled) (withdraw-Inv s w v) v))

  wait_done-Inv : (s : Scheduler a) (w : ℕ) → Inv s → Inv (wait_done a s w)
  unfolding wait_done
  wait_done-Inv s w v =
      notify-Inv _
        (both_branches Inv (s.store w).granted (give_back-Inv s w v) (withdraw-Inv s w v))

  wait_position-Inv : (s : Scheduler a) (w : ℕ) → Inv s → Inv (wait_position a s w).0
  unfolding wait_position
  wait_position-Inv s w v = record {
    clients_bound = v.clients_bound;
    waiting_bound = v.waiting_bound;
    upstreams_bound = v.upstreams_bound;
    fresh = v.fresh;
    distinct = v.distinct;
    queued = Queued-touch 0 s.waiters s.store w _ refl (λ h. ground arith) v.queued;
  }

  enqueue-Inv : (s : Scheduler a) → Inv s → Inv (enqueue_upstream a s).0
  unfolding enqueue_upstream
  enqueue-Inv s v =
      by_branch (λ (r : Scheduler a × Enqueued). Inv r.0) s.stopped (λ _. v)
        (λ _.
          by_branch (λ (r : Scheduler a × Enqueued). Inv r.0) (leb s.max_waiting (length s.waiters))
            (λ _. v)
            (λ room. record {
              clients_bound = v.clients_bound;
              waiting_bound = ground (arith, length-append s.waiters (s.next_id ∷ []));
              upstreams_bound = v.upstreams_bound;
              fresh = rw add-one (
                  All-append _ s.waiters _ (All-lt_suc s.next_id s.waiters v.fresh)
                    (omega arith, tt));
              distinct = Distinct-snoc s.next_id s.waiters v.fresh v.distinct;
              queued =
                  Queued-snoc 0 s.next_id s.waiters _
                    (Queued-update 0 s.waiters s.store s.next_id _
                      (NotIn-above s.next_id s.waiters v.fresh) v.queued)
                    (rw (update_self s.store s.next_id) (omega arith))
                    (rw (update_self s.store s.next_id)
                      (record { not_granted = refl; not_ready = refl; not_canceled = refl }));
            }))

  effective_max-le : (s : Scheduler a) → effective_max a s ≤ s.max_upstreams
  unfolding effective_max
  effective_max-le s = ground arith

  grant_to-Inv :
      (s : Scheduler a) (now draw w : ℕ) (ws : List ℕ)
      → s.waiters ≡ w ∷ ws
      → s.active_upstreams <ℤ pos s.max_upstreams
      → Inv s
      → Inv (grant_to a now draw w ws s)
  grant_to-Inv s now draw w ws e room v =
      let fresh = rw e at v.fresh in
      let distinct = rw e at v.distinct in
      let queued = rw e at v.queued in
      record {
        clients_bound = v.clients_bound;
        waiting_bound = omega (arith, ap length e, v.waiting_bound);
        upstreams_bound = omega (int_laws, room);
        fresh = fresh.1;
        distinct = distinct.1;
        queued =
            Queued-update 0 ws _ w _ distinct.0
              (publish_from-Queued 0 ws s.store distinct.1 (Queued-AllWait 1 ws s.store queued.2));
      }

  grant_head-Inv :
      (s : Scheduler a) (now draw : ℕ) (ws : List ℕ)
      → s.waiters ≡ ws
      → Inv s
      → Inv (grant_head a now draw ws s).0
  unfolding grant_head
  grant_head-Inv s now draw [] e v = v
  grant_head-Inv s now draw (w ∷ ws) e v =
      by_branch (λ (r : Scheduler a × ℕ × Bool). Inv r.0)
        (lebℤ (pos (effective_max a s)) s.active_upstreams) (λ _. v)
        (λ room.
          both_branches (λ (r : Scheduler a × ℕ × Bool). Inv r.0) (ltb now s.next_grant) v
            (grant_to-Inv s now draw w ws e (ground (arith, effective_max-le s)) v))

  pub grant_ready_lem :
      (s : Scheduler a) (now draw : ℕ)
      → Inv s
      → grant_ready a now draw s ≡ grant_head a now draw s.waiters s
  unfolding grant_ready
  grant_ready_lem s now draw v =
      rw (drop_canceled_of_AllWait s.waiters s.store (Queued-AllWait 0 s.waiters s.store v.queued))

  grant_ready-Inv : (s : Scheduler a) (now draw : ℕ) → Inv s → Inv (grant_ready a now draw s).0
  grant_ready-Inv s now draw v =
      rw (grant_ready_lem s now draw v) (grant_head-Inv s now draw s.waiters refl v)

  -- Every call of the scheduler and every turn of its loop, on any branch, keeps the invariant:
  -- the clients, the waiters and the connections stay within the configured limits, no waiter
  -- stands in the queue twice, and the `position` of each waiter in it is the place where it stands.
  pub step-Inv : (s : Scheduler a) (e : Event) → Inv s → Inv (step s e)
  unfolding step acquire_client release_client report_success report_failure update_capacity close
      fail_waiters release_upstream
  step-Inv s acquires v =
      by_branch (λ (r : Scheduler a × Option SchedulerError). Inv r.0) s.stopped (λ _. v)
        (λ _.
          by_branch (λ (r : Scheduler a × Option SchedulerError). Inv r.0)
            (leb s.max_clients s.clients) (λ _. v)
            (λ room. record {
              clients_bound = ground arith;
              waiting_bound = v.waiting_bound;
              upstreams_bound = v.upstreams_bound;
              fresh = v.fresh;
              distinct = v.distinct;
              queued = v.queued;
            }))
  step-Inv s leaves v =
      both_branches Inv (ltb 0 s.clients)
        (record {
          clients_bound = omega (arith, v.clients_bound);
          waiting_bound = v.waiting_bound;
          upstreams_bound = v.upstreams_bound;
          fresh = v.fresh;
          distinct = v.distinct;
          queued = v.queued;
        })
        v
  step-Inv s enqueues v = enqueue-Inv s v
  step-Inv s stops v = both_branches Inv s.stopped v (
      copy-Inv s (notify a (record s { stopped = true })) refl refl refl refl refl refl refl refl v)
  step-Inv s fails_all v = record {
    clients_bound = v.clients_bound;
    waiting_bound = omega arith;
    upstreams_bound = v.upstreams_bound;
    fresh = tt;
    distinct = tt;
    queued = tt;
  }
  step-Inv s succeeds v = copy-Inv s _ refl refl refl refl refl refl refl refl v
  step-Inv s (cancels w) v = cancel-Inv s w v
  step-Inv s (ends w) v = wait_done-Inv s w v
  step-Inv s (takes_position w) v = wait_position-Inv s w v
  step-Inv s (releases once) v =
      both_branches (λ (r : Bool × Scheduler a). Inv r.1) once v
        (notify-Inv _ (
          both_branches Inv (ltbℤ (pos 0) s.active_upstreams)
            (record {
              clients_bound = v.clients_bound;
              waiting_bound = v.waiting_bound;
              upstreams_bound = omega (int_laws, v.upstreams_bound);
              fresh = v.fresh;
              distinct = v.distinct;
              queued = v.queued;
            })
            v))
  step-Inv s (fails now draw) v = notify-Inv _ (
      both_branches Inv _ (copy-Inv s _ refl refl refl refl refl refl refl refl v)
        (copy-Inv s _ refl refl refl refl refl refl refl refl v))
  step-Inv s (grants now draw) v = grant_ready-Inv s now draw v
  step-Inv s (updates m r) v = copy-Inv s _ refl refl refl refl refl refl refl refl v

  pub run_keeps-Inv : (s : Scheduler a) (es : List Event) → Inv s → Inv (run s es)
  unfolding run
  run_keeps-Inv s [] v = v
  run_keeps-Inv s (e ∷ es) v = run_keeps-Inv (step s e) es (step-Inv s e v)

  new-Inv : (cfg : SchedulerConfig a) → Inv (new_scheduler a cfg)
  unfolding new_scheduler
  new-Inv cfg = record {
    clients_bound = omega arith;
    waiting_bound = omega arith;
    upstreams_bound = omega arith;
    fresh = tt;
    distinct = tt;
    queued = tt;
  }

  -- From a new scheduler, any history of calls and turns of the loop keeps the invariant: the
  -- clients, the waiters and the open connections stay within the configured limits, no waiter
  -- stands in the queue twice, and each waiter in it is still in line, with the place where it
  -- stands as its position.
  pub run-Inv : (cfg : SchedulerConfig a) (es : List Event) → Inv (run (new_scheduler a cfg) es)
  run-Inv cfg es = run_keeps-Inv (new_scheduler a cfg) es (new-Inv cfg)
