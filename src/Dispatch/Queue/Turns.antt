-- ===== src/Dispatch/Queue/Turns.antt =====
-- internal/dispatch/account_queue.go: the dispatch loop ends, and what it sends.
use Prim.Native.String.{String}
use aquifer.Base.{
  ℕ, zero, suc, ◌≤◌, ◌<◌, ◌≡◌, refl, sym, ap, ◌∙◌, Bool, true, false, not, Option, some, List, [],
  ◌∷◌, ◌++◌, ltb, max, arith, both_branches, by_branch, length, All, All-append,
}
use aquifer.Base.Float.{FloatArith, interval}
use aquifer.Jobs.Defs.{Job, queue_expired}
use aquifer.Dispatch.SharedPace.Defs.{SharedPace, reserve}
use aquifer.Dispatch.Execute.Effects.{Effect, Outside}
use aquifer.Dispatch.Queue.Deadlines.{Tracks, drop_expired_jobs-shrinks, drop_expired_jobs-Tracks}
use aquifer.Dispatch.Queue.Loop.{
  Queue, Settings, Reading, Output, does, sends, slow_start_signal, max_backlog_signal,
  account_queue_signal, position, Stop, out_of_fuel, nothing_to_send, pool_empty, paced, Turn,
  stops, goes_on, turn, dispatch, drop_expired, send_head, does_all, too_soon, take_head, no_member,
  member_of,
}

-- A job that is sent has not expired then.
abbrev pub IsFresh : Output → Type 0
IsFresh (sends j t m) = queue_expired j t ≡ false
IsFresh _ = Unit

-- Each job is sent no earlier than `gap` after the one before it, or after `last`.
abbrev pub Spaced : ℕ → Option ℕ → List Output → Type 0
Spaced gap last [] = Unit
Spaced gap last (sends j t m ∷ out) = (too_soon t last gap ≡ false) × Spaced gap (some t) out
Spaced gap last (_ ∷ out) = Spaced gap last out

abbrev pub last_sent : Option ℕ → List Output → Option ℕ
last_sent last [] = last
last_sent last (sends j t m ∷ out) = last_sent (some t) out
last_sent last (_ ∷ out) = last_sent last out

last_sent-append :
    (last : Option ℕ) (xs ys : List Output)
    → last_sent last (xs ++ ys) ≡ last_sent (last_sent last xs) ys
last_sent-append last [] ys = refl
last_sent-append last (does e ∷ xs) ys = last_sent-append last xs ys
last_sent-append last (sends j t m ∷ xs) ys = last_sent-append (some t) xs ys
last_sent-append last (slow_start_signal b ∷ xs) ys = last_sent-append last xs ys
last_sent-append last (max_backlog_signal n ∷ xs) ys = last_sent-append last xs ys
last_sent-append last (account_queue_signal v ∷ xs) ys = last_sent-append last xs ys
last_sent-append last (position i n ∷ xs) ys = last_sent-append last xs ys

Spaced-append :
    (gap : ℕ) (last : Option ℕ) (xs ys : List Output)
    → Spaced gap last xs
    → Spaced gap (last_sent last xs) ys
    → Spaced gap last (xs ++ ys)
Spaced-append gap last [] ys h k = k
Spaced-append gap last (does e ∷ xs) ys h k = Spaced-append gap last xs ys h k
Spaced-append gap last (sends j t m ∷ xs) ys h k = (h.0, Spaced-append gap (some t) xs ys h.1 k)
Spaced-append gap last (slow_start_signal b ∷ xs) ys h k = Spaced-append gap last xs ys h k
Spaced-append gap last (max_backlog_signal n ∷ xs) ys h k = Spaced-append gap last xs ys h k
Spaced-append gap last (account_queue_signal v ∷ xs) ys h k = Spaced-append gap last xs ys h k
Spaced-append gap last (position i n ∷ xs) ys h k = Spaced-append gap last xs ys h k

last_sent-does_all : (last : Option ℕ) (es : List Effect) → last_sent last (does_all es) ≡ last
last_sent-does_all last [] = refl
last_sent-does_all last (e ∷ es) = last_sent-does_all last es

Spaced-does_all : (gap : ℕ) (last : Option ℕ) (es : List Effect) → Spaced gap last (does_all es)
Spaced-does_all gap last [] = tt
Spaced-does_all gap last (e ∷ es) = Spaced-does_all gap last es

IsFresh-does_all : (es : List Effect) → All IsFresh (does_all es)
IsFresh-does_all [] = tt
IsFresh-does_all (e ∷ es) = (tt, IsFresh-does_all es)

abbrev pub is_out_of_fuel : Stop → Bool
is_out_of_fuel out_of_fuel = true
is_out_of_fuel nothing_to_send = false
is_out_of_fuel pool_empty = false
is_out_of_fuel (paced d) = false

module _ (a : FloatArith) (o : Outside) (s : Settings a.Num) where
  -- What is sent keeps to the queue's own pace, and the last of it is remembered.
  abbrev pub IsPaced : Queue a.Num → Queue a.Num → List Output → Type 0
  IsPaced q q' out =
      Spaced (interval a q.rate) q.last_request out
      × (q'.last_request ≡ last_sent q.last_request out)

  record Goes (q : Queue a.Num) (q' : Queue a.Num) (out : List Output) : Type 0 where
    shorter : length q'.queue < length q.queue
    tracked : Tracks q'.next_deadline q'.queue
    same_rate : q'.rate ≡ q.rate
    same_max : q'.max_conc ≡ q.max_conc
    below : q'.in_flight ≤ q'.max_conc
    fresh : All IsFresh out
    on_pace : IsPaced q q' out

  record Halts (q : Queue a.Num) (q' : Queue a.Num) (why : Stop) : Type 0 where
    ended : is_out_of_fuel why ≡ false
    kept_flight : q'.in_flight ≡ q.in_flight
    kept_max : q'.max_conc ≡ q.max_conc
    kept_last : q'.last_request ≡ q.last_request

  abbrev TurnOk : Queue a.Num → Turn a.Num → Type 0
  TurnOk q (stops q' why) = Halts q q' why
  TurnOk q (goes_on q' out) = Goes q q' out

  halt :
      (q q' : Queue a.Num) (why : Stop)
      → is_out_of_fuel why ≡ false
      → q'.in_flight ≡ q.in_flight
      → q'.max_conc ≡ q.max_conc
      → q'.last_request ≡ q.last_request
      → Halts q q' why
  halt q q' why e f m l = record { ended = e; kept_flight = f; kept_max = m; kept_last = l }

  taken-Goes :
      (r : Reading a.Num) (j : Job) (js : List Job) (q : Queue a.Num) (p : Option SharedPace)
      (m : Option String)
      → q.queue ≡ j ∷ js
      → Tracks q.next_deadline js
      → ltb q.in_flight q.max_conc ≡ true
      → queue_expired j r.now ≡ false
      → too_soon r.now q.last_request (interval a q.rate) ≡ false
      → Goes q (take_head a o s r j js (record q { pace = p })) (sends j r.now m ∷ [])
  taken-Goes r j js q p m e t free fresh early = record {
    shorter = rw e (omega arith);
    tracked = t;
    same_rate = refl;
    same_max = refl;
    below = ground (arith, free);
    fresh = (fresh, tt);
    on_pace = ((early, tt), refl);
  }

  dropped-Goes :
      (now : ℕ) (j : Job) (js : List Job) (q : Queue a.Num)
      → q.queue ≡ j ∷ js
      → Tracks q.next_deadline (j ∷ js)
      → ltb q.in_flight q.max_conc ≡ true
      → queue_expired j now ≡ true
      → Goes q (drop_expired a o s now q).0 (does_all (drop_expired a o s now q).1)
  unfolding drop_expired
  dropped-Goes now j js q e t free gone = record {
    shorter =
        rw e (omega (arith, drop_expired_jobs-shrinks o now j js q.next_deadline q.books gone t.0));
    tracked = rw e (drop_expired_jobs-Tracks o now (j ∷ js) q.next_deadline q.books t);
    same_rate = refl;
    same_max = refl;
    below = ground (arith, free);
    fresh = IsFresh-does_all (drop_expired a o s now q).1;
    on_pace = (
      Spaced-does_all (interval a q.rate) q.last_request (drop_expired a o s now q).1,
      sym (last_sent-does_all q.last_request (drop_expired a o s now q).1),
    );
  }

  send_head-Ok :
      (r : Reading a.Num) (j : Job) (js : List Job) (q : Queue a.Num)
      → q.queue ≡ j ∷ js
      → Tracks q.next_deadline js
      → ltb q.in_flight q.max_conc ≡ true
      → queue_expired j r.now ≡ false
      → TurnOk q (send_head a o s r j js q)
  unfolding send_head
  send_head-Ok r j js q e t free fresh =
      let (p, wait) = reserve a r.target_rate s.me r.now q.pace in
      by_branch (TurnOk q) (too_soon r.now q.last_request (interval a q.rate))
        (λ k. halt q q _ refl refl refl refl)
        (λ early. both_branches (TurnOk q) (ltb 0 wait) (halt q _ _ refl refl refl refl) (
          both_branches (TurnOk q) (no_member r.picked) (halt q _ _ refl refl refl refl)
            (taken-Goes r j js q p (member_of r.picked) e t free fresh early)))

  turn-Ok :
      (r : Reading a.Num) (q : Queue a.Num) (js : List Job)
      → q.queue ≡ js
      → Tracks q.next_deadline js
      → TurnOk q (turn a o s r q js)
  unfolding turn
  turn-Ok r q [] e t = halt q q _ refl refl refl refl
  turn-Ok r q (j ∷ js) e t =
      by_branch (TurnOk q) (not (ltb q.in_flight q.max_conc)) (λ k. halt q q _ refl refl refl refl)
        (λ free.
          by_branch (TurnOk q) (queue_expired j r.now)
            (λ gone. dropped-Goes r.now j js q e t (ground (arith, free)) gone)
            (λ fresh. send_head-Ok r j js q e t.1 (ground (arith, free)) fresh))

  -- What the dispatch loop comes to.
  pub record Dispatched (q : Queue a.Num) (res : Queue a.Num × (List Output × Stop)) : Type 0 where
    pub halted_by : is_out_of_fuel (res.1).1 ≡ false
    pub none_expired : All IsFresh (res.1).0
    pub within_limit : (res.0).in_flight ≤ max q.in_flight q.max_conc
    pub on_time : IsPaced q res.0 (res.1).0

  IsPaced-after :
      (q q₁ q₂ : Queue a.Num) (xs ys : List Output)
      → q₁.rate ≡ q.rate
      → IsPaced q q₁ xs
      → IsPaced q₁ q₂ ys
      → IsPaced q q₂ (xs ++ ys)
  IsPaced-after q q₁ q₂ xs ys same h k = (
    Spaced-append (interval a q.rate) q.last_request xs ys h.0 (rw (sym same, sym h.1) k.0),
    k.1 ∙ ap (λ l. last_sent l ys) h.1 ∙ sym (last_sent-append q.last_request xs ys),
  )

  after_turn :
      (fuel : ℕ) (rs : ℕ → Reading a.Num) (q : Queue a.Num) (v : Turn a.Num)
      → length q.queue < suc fuel
      → TurnOk q v
      → ((q' : Queue a.Num)
          → length q'.queue < fuel
          → Tracks q'.next_deadline q'.queue
          → Dispatched q' (dispatch a o s fuel rs q'))
      → Dispatched q (elim v [
        | stops q' why ↦ (q', ([], why))
        | goes_on q' out ↦
            let rest = dispatch a o s fuel rs q' in (rest.0, (out ++ (rest.1).0, (rest.1).1))
      ])
  after_turn fuel rs q (stops q' why) h v ih = record {
    halted_by = v.ended;
    none_expired = tt;
    within_limit = ground (arith, v.kept_flight, v.kept_max);
    on_time = (tt, v.kept_last);
  }
  after_turn fuel rs q (goes_on q' out) h v ih =
      let rest = ih q' (omega (arith, v.shorter)) v.tracked in
      record {
        halted_by = rest.halted_by;
        none_expired = All-append IsFresh out _ v.fresh rest.none_expired;
        within_limit = ground (arith, rest.within_limit, v.below, v.same_max);
        on_time =
            IsPaced-after q q' (dispatch a o s fuel rs q').0 out _ v.same_rate v.on_pace
              rest.on_time;
      }

  -- The dispatch loop ends, with fuel for one turn more than there are jobs in the queue, if the
  -- deadline that the queue keeps is right, whatever the clock shows at each turn. No job that it sends has
  -- expired when it is sent, the jobs in flight do not go beyond the concurrency, and each job is
  -- sent no earlier than the queue's interval after the one before it; the time of the last one is
  -- kept.
  pub dispatch-Dispatched :
      (fuel : ℕ) (rs : ℕ → Reading a.Num) (q : Queue a.Num)
      → length q.queue < fuel
      → Tracks q.next_deadline q.queue
      → Dispatched q (dispatch a o s fuel rs q)
  unfolding dispatch
  dispatch-Dispatched zero rs q h t = absurd (omega arith)
  dispatch-Dispatched (suc fuel) rs q h t =
      after_turn fuel rs q (turn a o s (rs fuel) q q.queue) h (turn-Ok (rs fuel) q q.queue refl t)
        (λ q'. dispatch-Dispatched fuel rs q')
