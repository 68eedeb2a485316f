-- ===== src/Dispatch/Broker/Delivery.antt =====
-- internal/dispatch/broker.go: which streams get an event, and what a publisher learns of its delivery.
use Prim.Native.String.{String}
use text.Mathlib.Text.{◌==◌ as str_eq}
use text.Mathlib.TextEquality.{eq_iff}
use aquifer.Base.{
  ℕ, ◌≡◌, refl, ◌∙◌, ap, Bool, true, false, ◌&&◌, Option, some, List, [], ◌∷◌, ◌==◌, arith,
  if◌then◌else◌, by_branch,
}
use aquifer.Base.Dict.{lookup, string_keys, lookup-insert, lookup-insert_self, lookup-erase}
use aquifer.Dispatch.Broker.Defs.{
  Broker, entry, is_empty, send_all, publish, publish_terminal, await_delivery, end_terminal,
  close_confirmation, confirm_delivered, subscribe, unsubscribe, close_channel, receive, send,
}
use aquifer.Dispatch.Broker.Steps.{
  streams_to, Inv, World, at_start, Step, subscribes, publishes, publishes_terminal, ends_terminal,
  confirms, unsubscribes, closes, receives, Reach,
}
use aquifer.Dispatch.Broker.Keeps.{slice_open}
use aquifer.Dispatch.Broker.Runs.{broker-Inv, Step-Inv}
use aquifer.Dispatch.Broker.Sends.{same_number, with_room, send_all-Sent}

module _ {E : Type 0} where
  held-publish :
      (w : World E) (job : String) (event : E)
      → Inv w
      → (k : ℕ)
      → ((publish job event w.broker).channels k).buffer ≡ (
          if streams_to job (w.phases k)
          then with_room event (w.broker.channels k).buffer
          else (w.broker.channels k).buffer)
  unfolding publish
  held-publish w job event v k =
      let s =
        send_all-Sent event (entry job w.broker.subscribers) w.broker (slice_open job w v)
          (v.streams.apart job) in
      s.held k ∙ rw (v.streams.listed k job) refl

  -- At any time, a published event is added once to the channel of each stream of the job that has room
  -- for it, and to no other channel.
  pub held-published :
      {w : World E}
      → Reach at_start w
      → (job : String) (event : E) (k : ℕ)
      → ((publish job event w.broker).channels k).buffer ≡ (
          if streams_to job (w.phases k)
          then with_room event (w.broker.channels k).buffer
          else (w.broker.channels k).buffer)
  held-published {w} r job event k = held-publish w job event (broker-Inv r) k

  delivered-send : (event : E) (i : ℕ) (b : Broker E) → (send event i b).delivered ≡ b.delivered
  unfolding send
  delivered-send event i b = ground arith

  delivered-send_all :
      (event : E) (ids : List ℕ) (b : Broker E) → (send_all event ids b).delivered ≡ b.delivered
  unfolding send_all
  delivered-send_all event [] b = refl
  delivered-send_all event (i ∷ ids) b =
      delivered-send_all event ids (send event i b) ∙ delivered-send event i b

  -- The steps that change what a publisher of this job waits for.
  abbrev pub touches : {w u : World E} → String → ℕ → Step w u → Bool
  touches job d (subscribes w k) = false
  touches job d (publishes w k event) = false
  touches job d (publishes_terminal w k event) = str_eq k job
  touches job d (ends_terminal w k done) = str_eq k job && (done == d)
  touches job d (confirms w k) = str_eq k job
  touches job d (unsubscribes w k i e) = false
  touches job d (closes w i e) = false
  touches job d (receives w i) = false

  -- Runs without such steps.
  pub data Untouched (job : String) (d : ℕ) (w : World E) : World E → Type 0 where
    begins : Untouched job d w w
    goes_on :
        {t u : World E}
        → Untouched job d w t
        → (st : Step t u) → touches job d st ≡ false
        → Untouched job d w u

  waits-publish_terminal :
      (k job : String) (d : ℕ) (event : E) (b : Broker E)
      → str_eq k job ≡ false
      → lookup job b.delivered ≡ some d
      → lookup job (publish_terminal k event b).0.delivered ≡ some d
  unfolding publish_terminal await_delivery
  waits-publish_terminal k job d event b other found =
      by_branch {A = Broker E × Option ℕ} (λ r. lookup job r.0.delivered ≡ some d)
        (is_empty (entry k b.subscribers))
        (λ quiet. ap (lookup job) (delivered-send_all event (entry k b.subscribers) b) ∙ found)
        (λ streamed.
          ap (lookup job) (delivered-send_all event (entry k b.subscribers) (await_delivery k b))
          ∙ lookup-insert k job b.confirmations b.delivered
          ∙ rw other found)

  waits-end_terminal :
      (k job : String) (done d : ℕ) (b : Broker E)
      → (str_eq k job && (done == d)) ≡ false
      → lookup job b.delivered ≡ some d
      → lookup job (end_terminal k done b).delivered ≡ some d
  unfolding end_terminal
  waits-end_terminal k job done d b other found =
      ground (arith, lookup-erase k job b.delivered, eq_iff k job)

  waits-confirm_delivered :
      (k job : String) (d : ℕ) (b : Broker E)
      → str_eq k job ≡ false
      → lookup job b.delivered ≡ some d
      → lookup job (confirm_delivered k b).delivered ≡ some d
  unfolding confirm_delivered close_confirmation
  waits-confirm_delivered k job d b other found = ground (arith, lookup-erase k job b.delivered)

  Step-waits :
      {w u : World E} (job : String) (d : ℕ) (st : Step w u)
      → touches job d st ≡ false
      → lookup job w.broker.delivered ≡ some d
      → lookup job u.broker.delivered ≡ some d
  unfolding publish subscribe unsubscribe close_channel receive
  Step-waits job d (subscribes w k) e found = found
  Step-waits job d (publishes w k event) e found =
      ap (lookup job) (delivered-send_all event (entry k w.broker.subscribers) w.broker) ∙ found
  Step-waits job d (publishes_terminal w k event) e found =
      waits-publish_terminal k job d event w.broker e found
  Step-waits job d (ends_terminal w k done) e found =
      waits-end_terminal k job done d w.broker e found
  Step-waits job d (confirms w k) e found = waits-confirm_delivered k job d w.broker e found
  Step-waits job d (unsubscribes w k i p) e found = found
  Step-waits job d (closes w i p) e found = ground arith
  Step-waits job d (receives w i) e found = found

  Untouched-keeps :
      (job : String) (d : ℕ) {w u : World E}
      → Untouched job d w u
      → Inv w
      → lookup job w.broker.delivered ≡ some d
      → Inv u × (lookup job u.broker.delivered ≡ some d)
  Untouched-keeps job d begins v found = (v, found)
  Untouched-keeps job d (goes_on run st e) v found =
      let before = Untouched-keeps job d run v found in
      (Step-Inv st before.0, Step-waits job d st e before.1)

  awaited :
      (job : String) (event : E) (b : Broker E) (d : ℕ)
      → (publish_terminal job event b).1 ≡ some d
      → lookup job (publish_terminal job event b).0.delivered ≡ some d
  unfolding publish_terminal await_delivery
  awaited job event b d =
      by_branch {A = Broker E × Option ℕ} (λ r. r.1 ≡ some d → lookup job r.0.delivered ≡ some d)
        (is_empty (entry job b.subscribers)) (λ quiet e. ground (arith, e))
        (λ streamed e.
          ap (lookup job)
            (delivered-send_all event (entry job b.subscribers) (await_delivery job b))
          ∙ lookup-insert_self job b.confirmations b.delivered
          ∙ e)

  confirmed-confirm_delivered :
      (job : String) (d : ℕ) (b : Broker E)
      → b.confirmed d ≡ false
      → lookup job b.delivered ≡ some d
      → (confirm_delivered job b).confirmed d ≡ true
  unfolding confirm_delivered close_confirmation
  confirmed-confirm_delivered job d b open_here found =
      rw (found, open_here) (rw (same_number d) refl)

  -- While a publisher waits for the delivery of a job's final event, and until the wait for that job is
  -- confirmed, renewed or given up, whatever else happens, it is not told of a delivery, and the next
  -- confirmation for the job reaches it.
  pub confirmation_reaches :
      {w u : World E}
      → Reach at_start w
      → (job : String) (event : E) (d : ℕ) → (publish_terminal job event w.broker).1 ≡ some d
      → Untouched job d (record w { broker = (publish_terminal job event w.broker).0 }) u
      → (u.broker.confirmed d ≡ false) × ((confirm_delivered job u.broker).confirmed d ≡ true)
  confirmation_reaches {w} {u} r job event d e run =
      let after =
        Untouched-keeps job d run (Step-Inv (publishes_terminal w job event) (broker-Inv r))
          (awaited job event w.broker d e) in
      let waiting = (after.0.pending.waits job d after.1).0 in
      (waiting, confirmed-confirm_delivered job d u.broker waiting after.1)
