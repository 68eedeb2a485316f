-- ===== src/Dispatch/Broker/Tests.antt =====
-- internal/dispatch/broker.go at concrete inputs.
use Prim.Native.String.{String}
use aquifer.Base.{ℕ, ◌≡◌, refl, true, false, some, [], ◌∷◌, if◌then◌else◌}
use aquifer.Base.Dict.{lookup, insert, erase, string_keys}
use aquifer.Dispatch.Broker.Defs.{
  put_at, new_broker, send, send_all, publish, publish_terminal, confirm_delivered, subscribe,
  unsubscribe, compact,
}
use aquifer.Dispatch.Broker.Steps.{
  World, leaving, streaming, streams_to, at_start, subscribes, publishes, unsubscribes, Reach, here,
  next, Inv,
}
use aquifer.Dispatch.Broker.Sends.{with_room}
use aquifer.Dispatch.Broker.Runs.{broker-Inv}
use aquifer.Dispatch.Broker.Delivery.{held-published, begins, goes_on, confirmation_reaches}

abbrev joined : String → World ℕ → World ℕ
joined job w = record {
  broker = (subscribe job w.broker).0;
  phases = put_at w.broker.made (streaming job) w.phases;
}

-- Two streams of job j, then one of job k.
abbrev streamed : World ℕ
streamed = joined "k" (joined "j" (joined "j" at_start))

streamed_run : Reach at_start streamed
streamed_run =
    next (next (next here (subscribes at_start "j")) (subscribes (joined "j" at_start) "j"))
      (subscribes (joined "j" (joined "j" at_start)) "k")

first_streams_j : streamed.phases 0 ≡ streaming "j"
unfolding subscribe new_broker
first_streams_j = refl

-- The first stream of j is gone.
abbrev gone : World ℕ
gone = record {
  broker = unsubscribe "j" 0 streamed.broker;
  phases = put_at 0 leaving streamed.phases;
}

gone_run : Reach at_start gone
gone_run = next streamed_run (unsubscribes streamed "j" 0 first_streams_j)

broker-Inv_example : Inv gone
broker-Inv_example = broker-Inv gone_run

held-published_example : ((publish "j" 7 gone.broker).channels 1).buffer ≡ (
    if streams_to "j" (gone.phases 1)
    then with_room 7 (gone.broker.channels 1).buffer
    else (gone.broker.channels 1).buffer)
held-published_example = held-published gone_run "j" 7 1

only_second_gets_it :
    (((publish "j" 7 gone.broker).channels 0).buffer ≡ [])
    × (((publish "j" 7 gone.broker).channels 1).buffer ≡ 7 ∷ [])
    × (((publish "j" 7 gone.broker).channels 2).buffer ≡ [])
unfolding publish send_all send subscribe unsubscribe compact new_broker lookup insert erase
only_second_gets_it = (refl, refl, refl)

waits_for_first : (publish_terminal "j" 9 gone.broker).1 ≡ some 0
unfolding publish_terminal subscribe unsubscribe compact new_broker lookup insert erase
waits_for_first = refl

abbrev waiting : World ℕ
waiting = record gone { broker = (publish_terminal "j" 9 gone.broker).0 }

-- Meanwhile an event of job k is published.
abbrev meanwhile : World ℕ
meanwhile = record waiting { broker = publish "k" 5 waiting.broker }

confirmation_reaches_example :
    (meanwhile.broker.confirmed 0 ≡ false)
    × ((confirm_delivered "j" meanwhile.broker).confirmed 0 ≡ true)
confirmation_reaches_example =
    confirmation_reaches gone_run "j" 9 0 waits_for_first
      (goes_on begins (publishes waiting "k" 5) refl)
