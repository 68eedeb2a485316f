-- ===== src/Dispatch/Broker/Runs.antt =====
-- internal/dispatch/broker.go: the invariant at every step, and in every run.
use Prim.Native.String.{String}
use text.Mathlib.TextEquality.{eq_iff}
use aquifer.Base.{ℕ, ◌≡◌, refl, sym, subst, ◌∙◌, ap, arith, if_some-keeps, both_branches}
use aquifer.Base.Dict.{lookup, string_keys}
use aquifer.Dispatch.Broker.Defs.{
  put_at, new_broker, end_terminal, close_confirmation, confirm_delivered, subscribe, unsubscribe,
  close_channel, receive,
}
use aquifer.Dispatch.Broker.Steps.{
  leaving, left, streaming, streams_to, is_left, Streams, Inv, World, at_start, Step, subscribes,
  publishes, publishes_terminal, ends_terminal, confirms, unsubscribes, closes, receives, Reach,
  here, next,
}
use aquifer.Dispatch.Broker.Keeps.{publish-Inv, publish_terminal-Inv}
use aquifer.Dispatch.Broker.Rooms.{Buffers-put, Buffers-leave, Buffers-take}
use aquifer.Dispatch.Broker.Entries.{subscribers-unsubscribe}
use aquifer.Dispatch.Broker.Waits.{Pending-erase, Pending-confirm}
use aquifer.Dispatch.Broker.Slices.{Streams-subscribe, Streams-unsubscribe, Streams-close}

module _ {E : Type 0} where
  end_terminal-Inv :
      (w : World E) (job : String) (done : ℕ)
      → Inv w
      → Inv (record w { broker = end_terminal job done w.broker })
  unfolding end_terminal
  end_terminal-Inv w job done v =
      both_branches (λ b. Inv (record w { broker = b })) _
        (record {
          streams = v.streams;
          buffers = v.buffers;
          pending = Pending-erase _ _ _ v.pending job;
          calm = v.calm;
        })
        v

  confirm_delivered-Inv :
      (w : World E) (job : String)
      → Inv w
      → Inv (record w { broker = confirm_delivered job w.broker })
  unfolding confirm_delivered close_confirmation
  confirm_delivered-Inv w job v =
      if_some-keeps (λ b. Inv (record w { broker = b })) (lookup job w.broker.delivered) _
        (λ nobody. v)
        (λ d waits_here. rw ((v.pending.waits job d waits_here).0) (record {
          streams = v.streams;
          buffers = v.buffers;
          pending = Pending-confirm _ _ _ v.pending job d waits_here;
          calm = v.calm;
        }))

  subscribe-Inv :
      (w : World E) (job : String)
      → Inv w
      → Inv (record {
        broker = (subscribe job w.broker).0;
        phases = put_at w.broker.made (streaming job) w.phases;
      })
  unfolding subscribe
  subscribe-Inv w job v = record {
    streams = Streams-subscribe _ w.phases w.broker.made v.streams job;
    buffers = Buffers-put _ w.phases w.broker.made _ (streaming job) v.buffers refl (omega arith);
    pending = v.pending;
    calm = v.calm;
  }

  unsubscribe-Inv :
      (w : World E) (job : String) (i : ℕ)
      → w.phases i ≡ streaming job
      → Inv w
      → Inv (record { broker = unsubscribe job i w.broker; phases = put_at i leaving w.phases })
  unfolding unsubscribe
  unsubscribe-Inv w job i e v = record {
    streams =
        subst (λ m. Streams m (put_at i leaving w.phases) w.broker.made)
          (sym (
            subscribers-unsubscribe job i w.broker
              (v.streams.listed i job ∙ ap (streams_to job) e ∙ (eq_iff job job).1 refl)))
          (Streams-unsubscribe _ w.phases _ v.streams job i e);
    buffers = Buffers-leave _ w.phases i job v.buffers e;
    pending = v.pending;
    calm = v.calm;
  }

  close_channel-Inv :
      (w : World E) (i : ℕ)
      → w.phases i ≡ leaving
      → Inv w
      → Inv (record { broker = close_channel i w.broker; phases = put_at i left w.phases })
  unfolding close_channel
  close_channel-Inv w i e v = rw (v.buffers.shut i ∙ ap is_left e) (record {
    streams = Streams-close _ w.phases _ v.streams i e;
    buffers = Buffers-put _ w.phases i _ left v.buffers refl (v.buffers.bounded i);
    pending = v.pending;
    calm = v.calm;
  })

  receive-Inv : (w : World E) (i : ℕ) → Inv w → Inv (record w { broker = receive i w.broker })
  unfolding receive
  receive-Inv w i v = record {
    streams = v.streams;
    buffers = Buffers-take w.broker.channels w.phases i v.buffers;
    pending = v.pending;
    calm = v.calm;
  }

  pub Step-Inv : {w u : World E} → Step w u → Inv w → Inv u
  Step-Inv (subscribes w job) v = subscribe-Inv w job v
  Step-Inv (publishes w job event) v = publish-Inv w job event v
  Step-Inv (publishes_terminal w job event) v = publish_terminal-Inv w job event v
  Step-Inv (ends_terminal w job done) v = end_terminal-Inv w job done v
  Step-Inv (confirms w job) v = confirm_delivered-Inv w job v
  Step-Inv (unsubscribes w job i e) v = unsubscribe-Inv w job i e v
  Step-Inv (closes w i e) v = close_channel-Inv w i e v
  Step-Inv (receives w i) v = receive-Inv w i v

  Reach-Inv : {w u : World E} → Reach w u → Inv w → Inv u
  Reach-Inv here v = v
  Reach-Inv (next r st) v = Step-Inv st (Reach-Inv r v)

  at_start-Inv : Inv (at_start {E = E})
  unfolding new_broker lookup
  at_start-Inv = record {
    streams = record {
      listed = λ i job. refl;
      apart = λ job. tt;
      nonempty = λ job found. ground (arith, found);
      fresh = λ i h. refl;
    };
    buffers = record { shut = λ i. refl; bounded = λ i. omega arith };
    pending = record {
      waits = λ job d found. ground (arith, found);
      sole = λ job k d found again. ground (arith, found);
      unused = λ d h. refl;
    };
    calm = refl;
  }

  -- In any order of subscriptions, publications, confirmations, departures and reads in which a stream
  -- leaves once: no channel is sent on or closed after it is closed; each job's slice has the channels
  -- that stream it, once each, and is deleted with its last one; a channel is closed when its stream has
  -- left, and never holds more than ten events; a publisher's channel is open while the map has it.
  pub broker-Inv : {w : World E} → Reach at_start w → Inv w
  broker-Inv r = Reach-Inv r at_start-Inv
