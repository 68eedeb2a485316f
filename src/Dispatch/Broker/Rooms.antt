-- ===== src/Dispatch/Broker/Rooms.antt =====
-- internal/dispatch/broker.go: what stands in the channels, and which of them are closed.
use Prim.Native.String.{String}
use aquifer.Base.{ℕ, ◌≤◌, ◌≡◌, inl, inr, ◌∙◌, ap, List, [], ◌∷◌, ◌==◌, arith, length, Bool-cases}
use aquifer.Base.Dict.{string_keys}
use aquifer.Dispatch.Broker.Defs.{channel_size, Chan, put_at, take_first}
use aquifer.Dispatch.Broker.Steps.{Phase, leaving, streaming, is_left, Buffers}
use aquifer.Dispatch.Broker.Sends.{put_at-each}

take_first-shorter : {E : Type 0} (held : List E) → length (take_first held) ≤ length held
unfolding take_first
take_first-shorter [] = omega arith
take_first-shorter (event ∷ later) = omega arith

module _ {E : Type 0} where
  pub Buffers-put :
      (channels : ℕ → Chan E) (ph : ℕ → Phase) (i : ℕ) (c : Chan E) (p : Phase)
      → Buffers channels ph
      → c.closed ≡ is_left p
      → length c.buffer ≤ channel_size
      → Buffers (put_at i c channels) (put_at i p ph)
  Buffers-put channels ph i c p v shut_here room = record {
    shut = λ k. elim (Bool-cases (i == k)) [
      | inl hit ↦ rw hit shut_here
      | inr miss ↦ rw miss (v.shut k)
    ];
    bounded =
        put_at-each i c channels (λ k x. length x.buffer ≤ channel_size) room
          (λ k miss. v.bounded k);
  }

  -- The stream stops, but its channel is not closed yet.
  pub Buffers-leave :
      (channels : ℕ → Chan E) (ph : ℕ → Phase) (i : ℕ) (job : String)
      → Buffers channels ph
      → ph i ≡ streaming job
      → Buffers channels (put_at i leaving ph)
  Buffers-leave channels ph i job v e = record {
    shut =
        put_at-each i leaving ph (λ k p. (channels k).closed ≡ is_left p) (v.shut i ∙ ap is_left e)
          (λ k miss. v.shut k);
    bounded = v.bounded;
  }

  pub Buffers-take :
      (channels : ℕ → Chan E) (ph : ℕ → Phase) (i : ℕ)
      → Buffers channels ph
      → Buffers
          (put_at i (record (channels i) { buffer = take_first (channels i).buffer }) channels)
          ph
  Buffers-take channels ph i v =
      let c = record (channels i) { buffer = take_first (channels i).buffer } in
      record {
        shut =
            put_at-each i c channels (λ k x. x.closed ≡ is_left (ph k)) (v.shut i)
              (λ k miss. v.shut k);
        bounded =
            put_at-each i c channels (λ k x. length x.buffer ≤ channel_size)
              (omega (arith, take_first-shorter (channels i).buffer, v.bounded i))
              (λ k miss. v.bounded k);
      }
