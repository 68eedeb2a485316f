-- ===== src/Dispatch/Broker/Sends.antt =====
-- internal/dispatch/broker.go: a send to open channels changes nothing but what stands in them.
use aquifer.Base.{
  ℕ, ◌≡◌, inl, inr, refl, sym, subst, ◌∙◌, ap, Bool, true, false, ◌||◌, List, [], ◌∷◌, ◌++◌, ◌==◌,
  ==_iff, ltb, arith, length, All, All-imp, if◌then◌else◌, Bool-cases, by_branch,
}
use aquifer.Dispatch.Broker.Defs.{channel_size, Chan, Broker, put_at, among, send, send_all}
use aquifer.Dispatch.Broker.Steps.{Apart}

-- What a channel holds after a send that finds room.
abbrev pub with_room : {E : Type 0} → E → List E → List E
with_room event held = if ltb (length held) channel_size then held ++ (event ∷ []) else held

pub same_number : (i : ℕ) → (i == i) ≡ true
same_number i = (==_iff i i).1 refl

-- What holds of the value that is put and of every other one holds of each.
pub put_at-each :
    {A : Type 0} (i : ℕ) (v : A) (f : ℕ → A) (P : ℕ → A → Type 0)
    → P i v
    → ((k : ℕ) → (i == k) ≡ false → P k (f k))
    → (k : ℕ) → P k (put_at i v f k)
put_at-each i v f P put rest k =
    by_branch (P k) (i == k) (λ hit. subst (λ q. P q v) ((==_iff i k).0 hit) put) (rest k)

module _ {E : Type 0} (event : E) where
  -- `b` with new channels, of which each holds what is expected and is as open as before.
  pub record Sent (to : ℕ → Bool) (b c : Broker E) : Type 0 where
    pub same : c ≡ record b { channels = c.channels }
    pub held :
        (k : ℕ)
        → (c.channels k).buffer
          ≡ (if to k then with_room event (b.channels k).buffer else (b.channels k).buffer)
    pub open_as_before : (k : ℕ) → (c.channels k).closed ≡ (b.channels k).closed

  put_at-Sent :
      (i : ℕ) (b : Broker E)
      → ltb (length (b.channels i).buffer) channel_size ≡ true
      → (b.channels i).closed ≡ false
      → let v : Chan E = record {
        buffer = (b.channels i).buffer ++ (event ∷ []);
        closed = false;
      } in
        Sent (λ k. i == k) b (record b { channels = put_at i v b.channels })
  put_at-Sent i b room free = record {
    same = refl;
    held =
        put_at-each i _ b.channels
          (λ k c.
            c.buffer
            ≡ (if i == k then with_room event (b.channels k).buffer else (b.channels k).buffer))
          (rw (same_number i, room) refl) (λ k miss. rw miss refl);
    open_as_before =
        put_at-each i _ b.channels (λ k c. c.closed ≡ (b.channels k).closed) (sym free)
          (λ k miss. refl);
  }

  send-Sent :
      (i : ℕ) (b : Broker E) → (b.channels i).closed ≡ false → Sent (λ k. i == k) b (send event i b)
  unfolding send
  send-Sent i b free = elim (Bool-cases (ltb (length (b.channels i).buffer) channel_size)) [
    | inl room ↦ rw (free, room) (put_at-Sent i b room free)
    | inr full ↦
        rw (free, full)
          (record {
            same = refl;
            held = λ k. elim (Bool-cases (i == k)) [
              | inl hit ↦ rw hit (rw⁻¹ ((==_iff i k).0 hit) (rw full refl))
              | inr miss ↦ rw miss refl
            ];
            open_as_before = λ k. refl;
          })
  ]

  Sent-trans :
      (to to' both : ℕ → Bool) (b c d : Broker E)
      → ((k : ℕ) → both k ≡ (to k || to' k))
      → ((k : ℕ) → to k ≡ true → to' k ≡ false)
      → Sent to b c
      → Sent to' c d
      → Sent both b d
  Sent-trans to to' both b c d either once s t = record {
    same = t.same ∙ ap {A = Broker E} (λ x. record x { channels = d.channels }) s.same;
    held = λ k. elim (Bool-cases (to k)) [
      | inl first ↦ rw (either k, first) (t.held k ∙ rw (once k first) (s.held k ∙ rw first refl))
      | inr later ↦ rw (either k, later) (t.held k ∙ rw (s.held k) (rw later refl))
    ];
    open_as_before = λ k. t.open_as_before k ∙ s.open_as_before k;
  }

  -- Sending to channels that are open and all different.
  pub send_all-Sent :
      (ids : List ℕ) (b : Broker E)
      → All (λ i. (b.channels i).closed ≡ false) ids
      → Apart ids
      → Sent (λ k. among k ids) b (send_all event ids b)
  unfolding send_all
  send_all-Sent [] b free apart = record {
    same = refl;
    held = λ k. refl;
    open_as_before = λ k. refl;
  }
  send_all-Sent (i ∷ ids) b free apart =
      let s = send-Sent i b free.0 in
      Sent-trans (λ k. i == k) (λ k. among k ids) (λ k. among k (i ∷ ids)) b (send event i b) _
        (λ k. ground arith) (λ k hit. subst (λ q. among q ids ≡ false) ((==_iff i k).0 hit) apart.0)
        s
        (send_all-Sent ids (send event i b)
          (All-imp (λ k open_here. s.open_as_before k ∙ open_here) ids free.1) apart.1)
