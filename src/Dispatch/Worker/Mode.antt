-- ===== src/Dispatch/Worker/Mode.antt =====
-- internal/dispatch/url_worker.go: who decides whether each tenant has a queue of its own, and the breaker.
use Prim.Native.String.{String}
use aquifer.Base.{
  ℕ, ◌+◌, ◌<◌, ◌≡◌, ◌↔◌, refl, Bool, true, false, ◌||◌, Option, none, some, List, [], ◌∷◌, arith,
}
use aquifer.Dispatch.Worker.Defs.{
  Worker, answer_or, apply_mode, sender_asks, destination_says, breaker_open, trip_breaker,
}

-- A sender's header, as it is read, or the destination's answer.
pub data ModeCall : Type 0 where
  sender : Option Bool → ModeCall
  destination : Bool → ModeCall

unfoldable pub mode_call : ModeCall → Worker → Worker
unfolding sender_asks destination_says
mode_call (sender v) w = sender_asks v w
mode_call (destination on) w = (destination_says on w).0

unfoldable pub mode_calls : List ModeCall → Worker → Worker
unfolding mode_call
mode_calls [] w = w
mode_calls (c ∷ cs) w = mode_calls cs (mode_call c w)

-- The last answer of the destination, if there was any after the first one given.
abbrev pub last_answer : List ModeCall → Option Bool → Option Bool
last_answer [] was = was
last_answer (sender v ∷ cs) was = last_answer cs was
last_answer (destination on ∷ cs) was = last_answer cs (some on)

-- Whether a sender asked for a queue for each tenant.
abbrev pub was_asked : List ModeCall → Bool
was_asked [] = false
was_asked (sender none ∷ cs) = was_asked cs
was_asked (sender (some on) ∷ cs) = on || was_asked cs
was_asked (destination on ∷ cs) = was_asked cs

-- The mode is in force that the three say.
abbrev pub IsApplied : Worker → Type 0
IsApplied w =
    w.account_queue_mode ≡ answer_or w.destination_mode (w.node_default || w.sender_opt_in)

or_false : (b : Bool) → (b || false) ≡ b
or_false true = refl
or_false false = refl

or_true : (b : Bool) → (b || true) ≡ true
or_true true = refl
or_true false = refl

-- From a worker whose mode is in force, after any headers of senders and answers of the destination
-- the mode is what the destination answered last; if it never did, it is on if the node's owner
-- or any sender wants it: no sender can turn it off.
pub mode_decided :
    (cs : List ModeCall) (w : Worker)
    → IsApplied w
    → (mode_calls cs w).account_queue_mode
      ≡ answer_or
          (last_answer cs w.destination_mode)
          (w.node_default || (w.sender_opt_in || was_asked cs))
unfolding mode_calls mode_call sender_asks destination_says apply_mode
mode_decided [] w h = rw (or_false w.sender_opt_in) h
mode_decided (sender none ∷ cs) w h = mode_decided cs w h
mode_decided (sender (some false) ∷ cs) w h = mode_decided cs w h
mode_decided (sender (some true) ∷ cs) w h =
    rw (or_true w.sender_opt_in)
      (mode_decided cs (apply_mode (record w { sender_opt_in = true })) refl)
mode_decided (destination on ∷ cs) w h =
    mode_decided cs (apply_mode (record w { destination_mode = some on })) refl

-- A tripped breaker is open exactly until its cooldown has passed.
pub breaker_until_cooldown :
    (now cooldown later : ℕ) (kind : String) (w : Worker)
    → (breaker_open later (trip_breaker now cooldown kind w) ≡ true) ↔ (later < now + cooldown)
unfolding breaker_open trip_breaker
breaker_until_cooldown now cooldown later kind w = (λ h. ground arith, λ h. ground arith)
