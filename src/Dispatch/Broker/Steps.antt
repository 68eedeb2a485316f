-- ===== src/Dispatch/Broker/Steps.antt =====
-- internal/dispatch/broker.go: what streams and publishers do with a broker, one critical section at a
-- time, in any order. A stream calls the function that `Subscribe` returned once, and the closing of its
-- channel comes some time after the removal.
use Prim.Native.String.{String}
use text.Mathlib.Text.{◌==◌ as str_eq}
use aquifer.Base.{ℕ, ◌≤◌, ◌<◌, ◌≡◌, ◌≢◌, Bool, true, false, some, List, [], ◌∷◌, length}
use aquifer.Base.Dict.{lookup, string_keys}
use aquifer.Dispatch.Broker.Defs.{
  channel_size, Chan, Broker, put_at, among, entry, new_broker, publish, publish_terminal,
  end_terminal, confirm_delivered, subscribe, unsubscribe, close_channel, receive,
}

-- Where the stream of a channel stands.
pub data Phase : Type 0 where
  unborn leaving left : Phase
  streaming : String → Phase

pub record World (E : Type 0) : Type 0 where
  pub broker : Broker E
  pub phases : ℕ → Phase

abbrev pub at_start : {E : Type 0} → World E
at_start = record { broker = new_broker; phases = λ i. unborn }

module _ {E : Type 0} where
  pub data Step : World E → World E → Type 0 where
    subscribes :
        (w : World E) (job : String)
        → Step w (record {
          broker = (subscribe job w.broker).0;
          phases = put_at w.broker.made (streaming job) w.phases;
        })
    publishes :
        (w : World E) (job : String) (event : E)
        → Step w (record w { broker = publish job event w.broker })
    publishes_terminal :
        (w : World E) (job : String) (event : E)
        → Step w (record w { broker = (publish_terminal job event w.broker).0 })
    ends_terminal :
        (w : World E) (job : String) (done : ℕ)
        → Step w (record w { broker = end_terminal job done w.broker })
    confirms :
        (w : World E) (job : String) → Step w (record w { broker = confirm_delivered job w.broker })
    unsubscribes :
        (w : World E) (job : String) (i : ℕ)
        → w.phases i ≡ streaming job
        → Step w
            (record { broker = unsubscribe job i w.broker; phases = put_at i leaving w.phases })
    closes :
        (w : World E) (i : ℕ)
        → w.phases i ≡ leaving
        → Step w (record { broker = close_channel i w.broker; phases = put_at i left w.phases })
    receives : (w : World E) (i : ℕ) → Step w (record w { broker = receive i w.broker })

  pub data Reach (w : World E) : World E → Type 0 where
    here : Reach w w
    next : {t u : World E} → Reach w t → Step t u → Reach w u

abbrev pub streams_to : String → Phase → Bool
streams_to job (streaming k) = str_eq k job
streams_to job unborn = false
streams_to job leaving = false
streams_to job left = false

abbrev pub is_left : Phase → Bool
is_left left = true
is_left leaving = false
is_left unborn = false
is_left (streaming k) = false

abbrev pub Apart : List ℕ → Type 0
Apart [] = Unit
Apart (k ∷ ks) = (among k ks ≡ false) × Apart ks

-- A job's slice has exactly the channels that stream it, once each; a slice is never empty.
pub record Streams (subs : List (String × List ℕ)) (phases : ℕ → Phase) (made : ℕ) : Type 0 where
  pub listed : (i : ℕ) (job : String) → among i (entry job subs) ≡ streams_to job (phases i)
  pub apart : (job : String) → Apart (entry job subs)
  pub nonempty : (job : String) → lookup job subs ≢ some []
  pub fresh : (i : ℕ) → made ≤ i → phases i ≡ unborn

-- A channel is closed exactly if its stream has left, and holds at most what it has room for.
pub record Buffers {E : Type 0} (channels : ℕ → Chan E) (phases : ℕ → Phase) : Type 0 where
  pub shut : (i : ℕ) → (channels i).closed ≡ is_left (phases i)
  pub bounded : (i : ℕ) → length (channels i).buffer ≤ channel_size

-- A publisher's channel is open as long as the map has it, and no two jobs share one.
pub record Pending (delivered : List (String × ℕ)) (confirmed : ℕ → Bool) (confirmations : ℕ)
    : Type 0 where
  pub waits :
      (job : String) (d : ℕ)
      → lookup job delivered ≡ some d
      → (confirmed d ≡ false) × (d < confirmations)
  pub sole :
      (job k : String) (d : ℕ)
      → lookup job delivered ≡ some d
      → lookup k delivered ≡ some d
      → job ≡ k
  pub unused : (d : ℕ) → confirmations ≤ d → confirmed d ≡ false

pub record Inv {E : Type 0} (w : World E) : Type 0 where
  pub streams : Streams w.broker.subscribers w.phases w.broker.made
  pub buffers : Buffers w.broker.channels w.phases
  pub pending : Pending w.broker.delivered w.broker.confirmed w.broker.confirmations
  pub calm : w.broker.panicked ≡ false
