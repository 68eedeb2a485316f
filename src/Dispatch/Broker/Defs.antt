-- ===== src/Dispatch/Broker/Defs.antt =====
-- internal/dispatch/broker.go: the broker with its channels. A channel is a number; `channels` has what
-- stands in each and whether it is closed, `confirmed` whether a channel of `delivered` is closed. A send
-- on a closed channel, or its closing, is a panic. What a critical section does is one function; the body
-- of an event is `E`.
use Prim.Native.String.{String}
use aquifer.Base.{
  ℕ, ◌+◌, Bool, true, false, not, ◌||◌, Option, none, some, List, [], ◌∷◌, ◌++◌, ◌==◌, ltb, length,
  if◌then◌else◌, if_some,
}
use aquifer.Base.Dict.{lookup, insert, erase, string_keys}

abbrev pub channel_size : ℕ
channel_size = 10

pub record Chan (E : Type 0) : Type 0 where
  pub buffer : List E
  pub closed : Bool

pub record Broker (E : Type 0) : Type 0 where
  pub subscribers : List (String × List ℕ)
  pub delivered : List (String × ℕ)
  pub channels : ℕ → Chan E
  pub made : ℕ
  pub confirmed : ℕ → Bool
  pub confirmations : ℕ
  pub panicked : Bool

abbrev pub put_at : {A : Type 0} → ℕ → A → (ℕ → A) → ℕ → A
put_at i v f k = if i == k then v else f k

abbrev pub among : ℕ → List ℕ → Bool
among i [] = false
among i (k ∷ ks) = (i == k) || among i ks

-- A map's entry, or the empty slice.
abbrev pub entry : String → List (String × List ℕ) → List ℕ
entry job m = if_some (lookup job m) [] (λ subs. subs)

abbrev pub is_empty : List ℕ → Bool
is_empty [] = true
is_empty (k ∷ ks) = false

-- The slice without the first place that holds the channel.
unfoldable pub compact : ℕ → List ℕ → List ℕ
compact i [] = []
compact i (k ∷ ks) = if k == i then ks else k ∷ compact i ks

module _ {E : Type 0} where
  unfoldable pub new_broker : Broker E
  new_broker = record {
    subscribers = [];
    delivered = [];
    channels = λ i. record { buffer = []; closed = false };
    made = 0;
    confirmed = λ d. false;
    confirmations = 0;
    panicked = false;
  }

  -- A send that never blocks: a full channel is passed over.
  unfoldable pub send : E → ℕ → Broker E → Broker E
  send event i b =
      let ch = b.channels i in
      if ch.closed
      then record b { panicked = true }
      else if ltb (length ch.buffer) channel_size
      then record b {
        channels = put_at i (record ch { buffer = ch.buffer ++ (event ∷ []) }) b.channels;
      }
      else b

  unfoldable pub send_all : E → List ℕ → Broker E → Broker E
  unfolding send
  send_all event [] b = b
  send_all event (i ∷ subs) b = send_all event subs (send event i b)

  unfoldable pub publish : String → E → Broker E → Broker E
  unfolding send_all
  publish job event b = send_all event (entry job b.subscribers) b

  unfoldable pub await_delivery : String → Broker E → Broker E
  await_delivery job b = record b {
    delivered = insert job b.confirmations b.delivered;
    confirmations = b.confirmations + 1;
  }

  -- `PublishTerminal` up to its wait, with the channel that it waits for, if anyone streams the job.
  unfoldable pub publish_terminal : String → E → Broker E → Broker E × Option ℕ
  unfolding send_all await_delivery
  publish_terminal job event b =
      let subs = entry job b.subscribers in
      if is_empty subs
      then (send_all event subs b, none)
      else (send_all event subs (await_delivery job b), some b.confirmations)

  -- Its deferred part.
  unfoldable pub end_terminal : String → ℕ → Broker E → Broker E
  end_terminal job done b =
      if if_some (lookup job b.delivered) false (λ d. d == done)
      then record b { delivered = erase job b.delivered }
      else b

  unfoldable pub close_confirmation : ℕ → Broker E → Broker E
  close_confirmation d b =
      if b.confirmed d
      then record b { panicked = true }
      else record b { confirmed = put_at d true b.confirmed }

  unfoldable pub confirm_delivered : String → Broker E → Broker E
  unfolding close_confirmation
  confirm_delivered job b =
      if_some (lookup job b.delivered) b
        (λ d. let c = close_confirmation d b in record c { delivered = erase job c.delivered })

  unfoldable pub subscribe : String → Broker E → Broker E × ℕ
  subscribe job b = (
    record b {
      channels = put_at b.made (record { buffer = []; closed = false }) b.channels;
      subscribers = insert job (entry job b.subscribers ++ (b.made ∷ [])) b.subscribers;
      made = b.made + 1;
    },
    b.made,
  )

  -- The function that `Subscribe` returns, under the lock.
  unfoldable pub unsubscribe : String → ℕ → Broker E → Broker E
  unfolding compact
  unsubscribe job i b =
      let subs = entry job b.subscribers in
      let m = if among i subs then insert job (compact i subs) b.subscribers else b.subscribers in
      record b { subscribers = if is_empty (entry job m) then erase job m else m }

  -- The rest of it, after the lock.
  unfoldable pub close_channel : ℕ → Broker E → Broker E
  close_channel i b =
      let ch = b.channels i in
      if ch.closed
      then record b { panicked = true }
      else record b { channels = put_at i (record ch { closed = true }) b.channels }

  unfoldable pub has_subscribers : String → Broker E → Bool
  has_subscribers job b = not (is_empty (entry job b.subscribers))

  -- A stream reads its channel.
  unfoldable pub take_first : List E → List E
  take_first [] = []
  take_first (event ∷ later) = later

  unfoldable pub receive : ℕ → Broker E → Broker E
  unfolding take_first
  receive i b =
      let ch = b.channels i in
      record b { channels = put_at i (record ch { buffer = take_first ch.buffer }) b.channels }
