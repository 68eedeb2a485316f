-- ===== src/Websocket/Scheduler/Queue.antt =====
-- internal/websocket/queue.go: lemmas on the queue of waiters and their positions.
use aquifer.Base.{
  ℕ, suc, ◌+◌, ◌≤◌, ◌≡◌, refl, sym, ◌∙◌, ◌≢◌, inl, inr, false, List, [], ◌∷◌, ◌++◌, arith, ◌==◌,
  ==_iff, Bool-cases, length, All, NotIn, Distinct,
}
use aquifer.Websocket.Scheduler.Defs.{
  Waiter, Store, update, publish_one, publish_from, remove, drop_canceled,
}

-- A waiter that is still in line.
pub record Waits (w : Waiter) : Type 0 where
  pub not_granted : w.granted ≡ false
  pub not_ready : w.ready ≡ false
  pub not_canceled : w.canceled ≡ false

-- The waiters stand at the positions i + 1, i + 2, …, and are all still in line.
abbrev pub Queued : ℕ → List ℕ → Store → Type 0
Queued i [] st = Unit
Queued i (w ∷ ws) st = ((st w).position ≡ suc i) × Waits (st w) × Queued (suc i) ws st

abbrev pub AllWait : List ℕ → Store → Type 0
AllWait [] st = Unit
AllWait (w ∷ ws) st = Waits (st w) × AllWait ws st

pub Queued-AllWait : (i : ℕ) (ws : List ℕ) (st : Store) → Queued i ws st → AllWait ws st
Queued-AllWait i [] st q = tt
Queued-AllWait i (w ∷ ws) st q = (q.1, Queued-AllWait (suc i) ws st q.2)

update_other : (st : Store) (w v : ℕ) (x : Waiter) → v ≢ w → update st w x v ≡ st v
update_other st w v x h = ground arith

pub update_self : (st : Store) (w : ℕ) (x : Waiter) → update st w x w ≡ x
update_self st w x = ground arith

pub Queued-update :
    (i : ℕ) (ws : List ℕ) (st : Store) (w : ℕ) (x : Waiter)
    → NotIn w ws
    → Queued i ws st
    → Queued i ws (update st w x)
Queued-update i [] st w x h q = tt
Queued-update i (v ∷ ws) st w x h q =
    let e = update_other st w v x (λ p. h.0 (sym p)) in
    (rw e q.0, rw e q.1, Queued-update (suc i) ws st w x h.1 q.2)

pub AllWait-update :
    (ws : List ℕ) (st : Store) (w : ℕ) (x : Waiter)
    → NotIn w ws
    → AllWait ws st
    → AllWait ws (update st w x)
AllWait-update [] st w x h q = tt
AllWait-update (v ∷ ws) st w x h q =
    (rw (update_other st w v x (λ p. h.0 (sym p))) q.0, AllWait-update ws st w x h.1 q.1)

-- A write that leaves the waiter's position and stage alone.
pub Queued-touch :
    (i : ℕ) (ws : List ℕ) (st : Store) (w : ℕ) (x : Waiter)
    → x.position ≡ (st w).position
    → (Waits (st w) → Waits x)
    → Queued i ws st
    → Queued i ws (update st w x)
Queued-touch i [] st w x p k q = tt
Queued-touch i (v ∷ ws) st w x p k q = elim (Bool-cases (v == w)) [
  | inl same ↦
      let e : v ≡ w = (==_iff v w).0 same in
      (
        rw (e, update_self st w x) (p ∙ rw e at q.0),
        rw (e, update_self st w x) (k (rw e at q.1)),
        Queued-touch (suc i) ws st w x p k q.2,
      )
  | inr other ↦
      let e = update_other st w v x (λ p. ground (arith, p)) in
      (rw e q.0, rw e q.1, Queued-touch (suc i) ws st w x p k q.2)
]

publish_one_other : (p w v : ℕ) (st : Store) → v ≢ w → publish_one p w st v ≡ st v
unfolding publish_one
publish_one_other p w v st h = ground arith

publish_one-Waits : (p w v : ℕ) (st : Store) → Waits (st v) → Waits (publish_one p w st v)
unfolding publish_one
publish_one-Waits p w v st h = elim (Bool-cases (v == w)) [
  | inl same ↦ let e : v ≡ w = (==_iff v w).0 same in ground (arith, e)
  | inr other ↦ rw (publish_one_other p w v st (λ e. ground (arith, e))) h
]

publish_one_position : (p w : ℕ) (st : Store) → (publish_one p w st w).position ≡ p
unfolding publish_one
publish_one_position p w st = ground arith

publish_one-AllWait :
    (p w : ℕ) (ws : List ℕ) (st : Store) → AllWait ws st → AllWait ws (publish_one p w st)
publish_one-AllWait p w [] st h = tt
publish_one-AllWait p w (v ∷ ws) st h =
    (publish_one-Waits p w v st h.0, publish_one-AllWait p w ws st h.1)

pub publish_from_other :
    (i : ℕ) (ws : List ℕ) (st : Store) (v : ℕ) → NotIn v ws → publish_from i ws st v ≡ st v
unfolding publish_from
publish_from_other i [] st v h = refl
publish_from_other i (w ∷ ws) st v h =
    publish_from_other (suc i) ws (publish_one (suc i) w st) v h.1
    ∙ publish_one_other (suc i) w v st h.0

-- Publishing puts every waiter at its place in the queue.
pub publish_from-Queued :
    (i : ℕ) (ws : List ℕ) (st : Store)
    → Distinct ws
    → AllWait ws st
    → Queued i ws (publish_from i ws st)
unfolding publish_from
publish_from-Queued i [] st d h = tt
publish_from-Queued i (w ∷ ws) st d h =
    let st' = publish_one (suc i) w st in
    let e = publish_from_other (suc i) ws st' w d.0 in
    (
      rw e (publish_one_position (suc i) w st),
      rw e (publish_one-Waits (suc i) w w st h.0),
      publish_from-Queued (suc i) ws st' d.1 (publish_one-AllWait (suc i) w ws st h.1),
    )

pub Queued-snoc :
    (i n : ℕ) (ws : List ℕ) (st : Store)
    → Queued i ws st
    → (st n).position ≡ suc (i + length ws)
    → Waits (st n)
    → Queued i (ws ++ n ∷ []) st
Queued-snoc i n [] st q p w = (omega (arith, p), w, tt)
Queued-snoc i n (v ∷ ws) st q p w = (q.0, q.1, Queued-snoc (suc i) n ws st q.2 (omega (arith, p)) w)

module _ (w : ℕ) where
  pub remove-All {κ} : (P : ℕ → Type κ) (ws : List ℕ) → All P ws → All P (remove w ws)
  unfolding remove
  remove-All P [] h = tt
  remove-All P (v ∷ ws) h = elim (Bool-cases (v == w)) [
    | inl same ↦ rw same h.1
    | inr other ↦ rw other (h.0, remove-All P ws h.1)
  ]

  pub remove-NotIn : (v : ℕ) (ws : List ℕ) → NotIn v ws → NotIn v (remove w ws)
  unfolding remove
  remove-NotIn v [] h = tt
  remove-NotIn v (u ∷ ws) h = elim (Bool-cases (u == w)) [
    | inl same ↦ rw same h.1
    | inr other ↦ rw other (h.0, remove-NotIn v ws h.1)
  ]

  pub remove-Distinct : (ws : List ℕ) → Distinct ws → Distinct (remove w ws)
  unfolding remove
  remove-Distinct [] h = tt
  remove-Distinct (u ∷ ws) h = elim (Bool-cases (u == w)) [
    | inl same ↦ rw same h.1
    | inr other ↦ rw other (remove-NotIn u ws h.0, remove-Distinct ws h.1)
  ]

  pub NotIn-remove : (ws : List ℕ) → Distinct ws → NotIn w (remove w ws)
  unfolding remove
  NotIn-remove [] h = tt
  NotIn-remove (u ∷ ws) h = elim (Bool-cases (u == w)) [
    | inl same ↦ let e : u ≡ w = (==_iff u w).0 same in rw same (rw e at h.0)
    | inr other ↦ rw other ((λ e. ground (arith, e)), NotIn-remove ws h.1)
  ]

  pub remove-AllWait : (ws : List ℕ) (st : Store) → AllWait ws st → AllWait (remove w ws) st
  unfolding remove
  remove-AllWait [] st h = tt
  remove-AllWait (u ∷ ws) st h = elim (Bool-cases (u == w)) [
    | inl same ↦ rw same h.1
    | inr other ↦ rw other (h.0, remove-AllWait ws st h.1)
  ]

  pub length-remove : (ws : List ℕ) → length (remove w ws) ≤ length ws
  unfolding remove
  length-remove [] = omega arith
  length-remove (u ∷ ws) = ground (arith, length-remove ws)

-- While nobody in the queue is cancelled, the loop that skips cancelled waiters does nothing.
pub drop_canceled_of_AllWait :
    (ws : List ℕ) (st : Store) → AllWait ws st → drop_canceled ws st ≡ (ws, st)
unfolding drop_canceled
drop_canceled_of_AllWait [] st h = refl
drop_canceled_of_AllWait (w ∷ ws) st h = rw h.0.not_canceled
