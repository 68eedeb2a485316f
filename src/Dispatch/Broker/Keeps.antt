-- ===== src/Dispatch/Broker/Keeps.antt =====
-- internal/dispatch/broker.go: every step keeps the invariant of the broker.
use Prim.Native.String.{String}
use aquifer.Base.{
  ℕ, ◌≤◌, ◌≡◌, sym, subst, ◌∙◌, Bool, true, false, Option, List, [], ◌∷◌, arith, length,
  length-append, ltb, ltb→lt, All, by_branch, both_branches,
}
use aquifer.Base.Dict.{string_keys}
use aquifer.Dispatch.Broker.Defs.{
  channel_size, Broker, among, entry, is_empty, send_all, publish, publish_terminal, await_delivery,
}
use aquifer.Dispatch.Broker.Steps.{Phase, Apart, Inv, World}
use aquifer.Dispatch.Broker.Sends.{same_number, with_room, Sent, send_all-Sent}
use aquifer.Dispatch.Broker.Waits.{Pending-insert}

All-among :
    (P : ℕ → Type 0) (ids : List ℕ) → Apart ids → ((i : ℕ) → among i ids ≡ true → P i) → All P ids
All-among P [] apart h = tt
All-among P (i ∷ ids) apart h =
    (h i (ground (arith, same_number i)), All-among P ids apart.1 (λ k m. h k (ground arith)))

module _ {E : Type 0} where
  -- A stream's channel is open.
  pub slice_open :
      (job : String) (w : World E)
      → Inv w
      → All (λ i. (w.broker.channels i).closed ≡ false) (entry job w.broker.subscribers)
  slice_open job w v =
      All-among _ (entry job w.broker.subscribers) (v.streams.apart job)
        (λ i m. v.buffers.shut i ∙ ground (arith, v.streams.listed i job))

  with_room-bounded :
      (event : E) (held : List E)
      → length held ≤ channel_size
      → length (with_room event held) ≤ channel_size
  with_room-bounded event held h =
      by_branch (λ r. length r ≤ channel_size) (ltb (length held) channel_size)
        (λ room.
          omega (arith, length-append held (event ∷ []), ltb→lt (length held) channel_size room))
        (λ full. h)

  Sent-Inv :
      (event : E) (to : ℕ → Bool) (b c : Broker E) (ph : ℕ → Phase)
      → Sent event to b c
      → Inv (record { broker = b; phases = ph })
      → Inv (record { broker = c; phases = ph })
  Sent-Inv event to b c ph s v =
      subst (λ x. Inv (record { broker = x; phases = ph })) (sym s.same)
        (record {
          streams = v.streams;
          buffers = record {
            shut = λ i. s.open_as_before i ∙ v.buffers.shut i;
            bounded = λ i.
                subst (λ held. length held ≤ channel_size) (sym (s.held i))
                  (both_branches (λ held. length held ≤ channel_size) (to i)
                    (with_room-bounded event (b.channels i).buffer (v.buffers.bounded i))
                    (v.buffers.bounded i));
          };
          pending = v.pending;
          calm = v.calm;
        })

  sends-Inv :
      (event : E) (job : String) (b : Broker E) (ph : ℕ → Phase)
      → Inv (record { broker = b; phases = ph })
      → Inv (record { broker = send_all event (entry job b.subscribers) b; phases = ph })
  sends-Inv event job b ph v =
      Sent-Inv event _ b _ ph
        (send_all-Sent event (entry job b.subscribers) b
          (slice_open job (record { broker = b; phases = ph }) v) (v.streams.apart job))
        v

  pub publish-Inv :
      (w : World E) (job : String) (event : E)
      → Inv w
      → Inv (record w { broker = publish job event w.broker })
  unfolding publish
  publish-Inv w job event v = sends-Inv event job w.broker w.phases v

  await-Inv :
      (w : World E) (job : String) → Inv w → Inv (record w { broker = await_delivery job w.broker })
  unfolding await_delivery
  await-Inv w job v = record {
    streams = v.streams;
    buffers = v.buffers;
    pending = Pending-insert _ _ _ v.pending job;
    calm = v.calm;
  }

  pub publish_terminal-Inv :
      (w : World E) (job : String) (event : E)
      → Inv w
      → Inv (record w { broker = (publish_terminal job event w.broker).0 })
  unfolding publish_terminal await_delivery
  publish_terminal-Inv w job event v =
      by_branch {A = Broker E × Option ℕ} (λ r. Inv (record w { broker = r.0 }))
        (is_empty (entry job w.broker.subscribers))
        (λ quiet. sends-Inv event job w.broker w.phases v)
        (λ streamed. sends-Inv event job (await_delivery job w.broker) w.phases (await-Inv w job v))
