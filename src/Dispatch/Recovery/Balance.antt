-- ===== src/Dispatch/Recovery/Balance.antt =====
-- internal/dispatch/paged_recovery.go: the backlog that a queue counts against the jobs that it holds
-- and those that its sources reserved.
use Prim.Native.String.{String}
use text.Mathlib.TextEquality.{eq_iff}
use aquifer.Base.{
  ℕ, zero, suc, ◌+◌, ◌<◌, ◌≡◌, inl, inr, refl, Bool, true, false, ◌||◌, Option, none, some, List,
  [], ◌∷◌, length, length-append, arith, ltb, if◌then◌else◌, Bool-cases, if_some, max, ◌/◌, NotIn,
  Distinct,
}
use aquifer.Base.Int.{ℤ, ◌-ℤ◌, pos_part, neg_part}
use aquifer.Jobs.Defs.{Job}
use aquifer.Dispatch.Recovery.Defs.{
  SpillSource, Loading, load_row, load_rows, counts, outstanding, is_in,
}
use aquifer.Dispatch.Recovery.Loops.{
  Store, Refilled, loading, after_page, load_page, failed_read, refill_turn, refill_loop, refill,
  finish_spill,
}

-- What all sources reserved and have not handed over.
unfoldable pub outstanding_all : List SpillSource → ℕ
outstanding_all [] = 0
outstanding_all (src ∷ srcs) = outstanding src + outstanding_all srcs

-- b' + x = b + y
abbrev pub Level : ℤ → ℕ → ℤ → ℕ → Type 0
Level b' x b y = pos_part b' + neg_part b + x ≡ pos_part b + neg_part b' + y

-- From `r` to `r'` the backlog changes as the jobs that it is for: those that sources reserved and
-- have not handed over, and those that the queue holds, less `own` that came with their own count.
abbrev pub Balances : Refilled → Refilled → ℕ → Type 0
Balances r r' own =
    Level r'.queue_after.backlog
      (outstanding_all r.queue_after.spills + length r.queue_after.present + own)
      r.queue_after.backlog (outstanding_all r'.queue_after.spills + length r'.queue_after.present)

-- What a refill does to the books: they balance but for the jobs with counts of their own, no job is
-- held twice, and the line and the number of jobs held grow by the jobs that came.
pub record Refills (r r' : Refilled) (own : ℕ) : Type 0 where
  pub balances : Balances r r' own
  pub no_twins : Distinct r.queue_after.present → Distinct r'.queue_after.present
  pub held_grows :
      r'.held_after + length r.queue_after.present ≡ r.held_after + length r'.queue_after.present
  pub line_grows :
      length r'.line_after + length r.queue_after.present
      ≡ length r.line_after + length r'.queue_after.present

Refills-trans :
    {r r' r'' : Refilled} {m n : ℕ} → Refills r r' m → Refills r' r'' n → Refills r r'' (m + n)
Refills-trans f g = record {
  balances = omega (arith, f.balances, g.balances);
  no_twins = λ d. g.no_twins (f.no_twins d);
  held_grows = omega (arith, f.held_grows, g.held_grows);
  line_grows = omega (arith, f.line_grows, g.line_grows);
}

Refills-refl : (r : Refilled) → Refills r r 0
Refills-refl r = record {
  balances = omega arith;
  no_twins = λ d. d;
  held_grows = refl;
  line_grows = refl;
}

failed_read-Refills : (now : ℕ) (r : Refilled) → Refills r (failed_read now r) 0
failed_read-Refills now r = record {
  balances = omega arith;
  no_twins = λ d. d;
  held_grows = refl;
  line_grows = refl;
}

NotIn-of_is_in : (id : String) (xs : List String) → is_in id xs ≡ false → NotIn id xs
NotIn-of_is_in id [] h = tt
NotIn-of_is_in id (x ∷ xs) h = (ground (arith, eq_iff x id), NotIn-of_is_in id xs (ground arith))

after_page-Balances :
    (now size : ℕ) (src : SpillSource) (rest : List SpillSource) (page : List Job) (r : Refilled)
    (l : Loading) (own : ℕ)
    → r.queue_after.spills ≡ src ∷ rest
    → Level l.counted_backlog
        (outstanding src + length r.queue_after.present + own)
        r.queue_after.backlog
        (outstanding l.source + length l.held_ids)
    → Balances r (after_page now size src rest page r l) own
unfolding after_page outstanding_all finish_spill ◌-ℤ◌
after_page-Balances now size src rest page r l own e h = rw e (ground arith)

module _ (id_le : String → String → Bool) where
  -- A row that is loaded with a count of its own: no source reserved it, and it is not held.
  unfoldable pub own_row : Job → Loading → ℕ
  own_row j l = if is_in j.id l.held_ids || counts id_le l.source j then 0 else 1

  unfoldable pub own_rows : List Job → Loading → ℕ
  unfolding own_row
  own_rows [] l = 0
  own_rows (j ∷ js) l = own_row j l + own_rows js (load_row id_le j l)

  counts-room :
      (src : SpillSource) (j : Job) → counts id_le src j ≡ true → src.consumed < src.reserved
  unfolding counts
  counts-room src j h = ground arith

  load_row-Level :
      (j : Job) (l : Loading)
      → let l' = load_row id_le j l in
        Level l'.counted_backlog
          (outstanding l.source + length l.held_ids + own_row j l)
          l.counted_backlog
          (outstanding l'.source + length l'.held_ids)
  unfolding load_row own_row ◌-ℤ◌
  load_row-Level j l = ground (arith, counts-room l.source j)

  load_rows-Level :
      (js : List Job) (l : Loading)
      → let l' = load_rows id_le js l in
        Level l'.counted_backlog
          (outstanding l.source + length l.held_ids + own_rows js l)
          l.counted_backlog
          (outstanding l'.source + length l'.held_ids)
  unfolding load_rows own_rows
  load_rows-Level [] l = omega arith
  load_rows-Level (j ∷ js) l =
      omega (arith, load_row-Level j l, load_rows-Level js (load_row id_le j l))

  load_page-Balances :
      (now size : ℕ) (src : SpillSource) (rest : List SpillSource) (page : List Job) (r : Refilled)
      → r.queue_after.spills ≡ src ∷ rest
      → Balances r (load_page id_le now size src rest page r) (own_rows page (loading src r))
  unfolding load_page
  load_page-Balances now size src rest page r e =
      after_page-Balances now size src rest page r (load_rows id_le page (loading src r)) _ e
        (load_rows-Level page (loading src r))

  load_row-grows :
      (j : Job) (l : Loading)
      → let l' = load_row id_le j l in
        (Distinct l.held_ids → Distinct l'.held_ids)
        × (l'.held + length l.held_ids ≡ l.held + length l'.held_ids)
        × (length l'.line + length l.held_ids ≡ length l.line + length l'.held_ids)
  unfolding load_row
  load_row-grows j l = elim (Bool-cases (is_in j.id l.held_ids)) [
    | inl there ↦ rw there (λ d. d, refl, refl)
    | inr new ↦ rw new (
      λ d. (NotIn-of_is_in j.id l.held_ids new, d),
      omega arith,
      omega (arith, length-append l.line (j ∷ [])),
    )
  ]

  load_rows-grows :
      (js : List Job) (l : Loading)
      → let l' = load_rows id_le js l in
        (Distinct l.held_ids → Distinct l'.held_ids)
        × (l'.held + length l.held_ids ≡ l.held + length l'.held_ids)
        × (length l'.line + length l.held_ids ≡ length l.line + length l'.held_ids)
  unfolding load_rows
  load_rows-grows [] l = (λ d. d, refl, refl)
  load_rows-grows (j ∷ js) l =
      let g = load_row-grows j l in
      let h = load_rows-grows js (load_row id_le j l) in
      (λ d. h.0 (g.0 d), omega (arith, g.1, h.1), omega (arith, g.2, h.2))

  after_page-grows :
      (now size : ℕ) (src : SpillSource) (rest : List SpillSource) (page : List Job) (r : Refilled)
      (l : Loading)
      → let r' = after_page now size src rest page r l in
        (r'.queue_after.present ≡ l.held_ids) × (r'.held_after ≡ l.held) × (r'.line_after ≡ l.line)
  unfolding after_page finish_spill
  after_page-grows now size src rest page r l = (ground arith, refl, refl)

  load_page-Refills :
      (now size : ℕ) (src : SpillSource) (rest : List SpillSource) (page : List Job) (r : Refilled)
      → r.queue_after.spills ≡ src ∷ rest
      → Refills r (load_page id_le now size src rest page r) (own_rows page (loading src r))
  unfolding load_page
  load_page-Refills now size src rest page r e =
      let g = load_rows-grows page (loading src r) in
      let same = after_page-grows now size src rest page r (load_rows id_le page (loading src r)) in
      record {
        balances = load_page-Balances now size src rest page r e;
        no_twins = λ d. rw same.0 (g.0 d);
        held_grows = rw same.0 g.1;
        line_grows = rw same.0 g.2;
      }

  -- The rows that a loop loads with counts of their own.
  unfoldable pub own_page :
      ℕ → ℕ → SpillSource → List SpillSource → Refilled → (Refilled → ℕ) → List Job → ℕ
  own_page now size src rest r next page =
      own_rows page (loading src r) + next (load_page id_le now size src rest page r)

  unfoldable pub own_turn : List SpillSource → Store → ℕ → ℕ → Refilled → (Refilled → ℕ) → ℕ
  unfolding own_page
  own_turn [] store now size r next = 0
  own_turn (src ∷ rest) store now size r next =
      if ltb r.held_after (max (size / 4) 1)
      then if_some (store src.source_key src.after 0 size) 0 (own_page now size src rest r next)
      else 0

  unfoldable pub own_loop : ℕ → Store → ℕ → ℕ → Refilled → ℕ
  unfolding own_turn
  own_loop zero store now size r = 0
  own_loop (suc fuel) store now size r =
      own_turn r.queue_after.spills store now size r (own_loop fuel store now size)

  page-Refills :
      (now size : ℕ) (src : SpillSource) (rest : List SpillSource) (r : Refilled)
      (next : Refilled → Refilled × Bool) (own : Refilled → ℕ) (o : Option (List Job))
      → r.queue_after.spills ≡ src ∷ rest
      → ((t : Refilled) → Refills t (next t).0 (own t))
      → Refills r
          (if_some o
            (failed_read now r, true)
            (λ page. next (load_page id_le now size src rest page r))).0
          (if_some o 0 (own_page now size src rest r own))
  unfolding own_page
  page-Refills now size src rest r next own none e h = failed_read-Refills now r
  page-Refills now size src rest r next own (some page) e h =
      Refills-trans (load_page-Refills now size src rest page r e)
        (h (load_page id_le now size src rest page r))

  if-Refills :
      (r : Refilled) (b : Bool) (x : Refilled × Bool) (n : ℕ)
      → Refills r x.0 n
      → Refills r (if b then x else (r, true)).0 (if b then n else 0)
  if-Refills r true x n h = h
  if-Refills r false x n h = Refills-refl r

  turn-Refills :
      (srcs : List SpillSource) (store : Store) (now size : ℕ) (r : Refilled)
      (next : Refilled → Refilled × Bool) (own : Refilled → ℕ)
      → r.queue_after.spills ≡ srcs
      → ((t : Refilled) → Refills t (next t).0 (own t))
      → Refills r
          (refill_turn id_le srcs store now size r next).0
          (own_turn srcs store now size r own)
  unfolding refill_turn own_turn
  turn-Refills [] store now size r next own e h = Refills-refl r
  turn-Refills (src ∷ rest) store now size r next own e h =
      if-Refills r (ltb r.held_after (max (size / 4) 1)) _ _
        (page-Refills now size src rest r next own (store src.source_key src.after 0 size) e h)

  loop-Refills :
      (fuel : ℕ) (store : Store) (now size : ℕ) (r : Refilled)
      → Refills r (refill_loop id_le fuel store now size r).0 (own_loop fuel store now size r)
  unfolding refill_loop own_loop
  loop-Refills zero store now size r = Refills-refl r
  loop-Refills (suc fuel) store now size r =
      turn-Refills r.queue_after.spills store now size r (refill_loop id_le fuel store now size)
        (own_loop fuel store now size) refl (λ t. loop-Refills fuel store now size t)

  -- How many rows `refill` loads with counts of their own.
  unfoldable pub own_loaded : ℕ → Store → ℕ → ℕ → Refilled → ℕ
  unfolding own_loop
  own_loaded fuel store now size r =
      if ltb now r.queue_after.refill_retry_at then 0 else own_loop fuel store now size r

  -- Whatever pages a refill reads, and when a read fails, the backlog stays exact: it changes as the
  -- jobs do that sources reserved and that the queue holds, less the rows that came with a count of
  -- their own. No job is held twice, and the line and the number held grow by the jobs that came.
  pub refill-Refills :
      (fuel : ℕ) (store : Store) (now size : ℕ) (r : Refilled)
      → Refills r (refill id_le fuel store now size r).0 (own_loaded fuel store now size r)
  unfolding refill own_loaded
  refill-Refills fuel store now size r = elim (Bool-cases (ltb now r.queue_after.refill_retry_at)) [
    | inl waits ↦ rw waits (Refills-refl r)
    | inr due ↦ rw due (loop-Refills fuel store now size r)
  ]
