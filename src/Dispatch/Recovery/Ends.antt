-- ===== src/Dispatch/Recovery/Ends.antt =====
-- internal/dispatch/paged_recovery.go, refill: the loop over pages ends.
use Prim.Native.String.{String}
use aquifer.Base.{
  ℕ, zero, suc, ◌+◌, ◌-◌, ◌≤◌, ◌<◌, ◌≡◌, ◌⊎◌, inl, inr, refl, sym, subst, ◌∙◌, Bool, true, false,
  some, List, [], ◌∷◌, length, arith, ltb, ◌==◌, if◌then◌else◌, Bool-cases, max, ◌/◌,
}
use aquifer.Jobs.Defs.{Job, PageCursor, cursor_at, covers}
use aquifer.Dispatch.Recovery.Defs.{SpillSource, Loading, load_row, load_rows}
use aquifer.Dispatch.Recovery.Loops.{
  Store, Refilled, loading, after_page, load_page, refill_turn, refill_loop, refill, finish_spill,
  last_cursor,
}

-- The first `n` rows.
unfoldable pub first_rows : ℕ → List Job → List Job
first_rows n [] = []
first_rows n (j ∷ js) = if n == 0 then [] else j ∷ first_rows (n - 1) js

abbrev pub Among : Job → List Job → Type 0
Among j [] = ⊥
Among j (k ∷ ks) = ((k ≡ j) ⊎ Among j ks)

Among-first_rows : (n : ℕ) (j : Job) (js : List Job) → Among j (first_rows n js) → Among j js
unfolding first_rows
Among-first_rows n j [] m = m
Among-first_rows n j (k ∷ ks) m = elim (Bool-cases (n == 0)) [
  | inl none_left ↦ absurd (rw none_left at m)
  | inr some_left ↦
      let m' : (k ≡ j) ⊎ Among j (first_rows (n - 1) ks) = rw some_left at m in
      elim m' [ inl here ↦ inl here | inr later ↦ inr (Among-first_rows (n - 1) j ks later) ]
]

-- The cursor after a page with rows is that of one of them.
last_cursor-Among :
    (c : PageCursor) (j : Job) (js : List Job)
    → (k : Job) × Among k (j ∷ js) × (last_cursor c (j ∷ js) ≡ cursor_at k)
unfolding last_cursor
last_cursor-Among c j [] = (j, inl refl, refl)
last_cursor-Among c j (k ∷ ks) =
    let (i, m, e) = last_cursor-Among (cursor_at j) k ks in (i, inr m, e)

-- The rows that a cursor does not cover.
unfoldable pub past : (String → String → Bool) → PageCursor → List Job → List Job
past id_le c [] = []
past id_le c (j ∷ js) = if covers id_le c j then past id_le c js else j ∷ past id_le c js

-- A store that has the given rows under each key, in the order in which it serves them.
abbrev pub Serves : (String → String → Bool) → (String → List Job) → Store → Type 0
Serves id_le rows store =
    (key : String) (c : PageCursor) (n : ℕ)
    → store key c 0 n ≡ some (first_rows n (past id_le c (rows key)))

-- The sources and the rows that they have not served.
unfoldable pub to_serve : (String → String → Bool) → (String → List Job) → List SpillSource → ℕ
to_serve id_le rows [] = 0
to_serve id_le rows (src ∷ srcs) =
    suc (length (past id_le src.after (rows src.source_key))) + to_serve id_le rows srcs

module _ (id_le : String → String → Bool)
    (id_total : (x y : String) → (id_le x y ≡ true) ⊎ (id_le y x ≡ true))
    (id_trans : (x y z : String) → id_le x y ≡ true → id_le y z ≡ true → id_le x z ≡ true) where
  covers_self : (j : Job) → covers id_le (cursor_at j) j ≡ true
  unfolding covers cursor_at
  covers_self j = ground (arith, id_total j.id j.id)

  covers-further :
      (c : PageCursor) (j k : Job)
      → covers id_le c j ≡ false
      → covers id_le c k ≡ true
      → covers id_le (cursor_at j) k ≡ true
  unfolding covers cursor_at
  covers-further c j k past_c upto_c =
      ground (arith, id_total j.id c.cursor_id, id_trans k.id c.cursor_id j.id)

  length-past-le :
      (c d : PageCursor) (js : List Job)
      → ((k : Job) → covers id_le c k ≡ true → covers id_le d k ≡ true)
      → length (past id_le d js) ≤ length (past id_le c js)
  unfolding past
  length-past-le c d [] more = omega arith
  length-past-le c d (j ∷ js) more = ground (arith, more j, length-past-le c d js more)

  length-past-lt :
      (c d : PageCursor) (j : Job) (js : List Job)
      → ((k : Job) → covers id_le c k ≡ true → covers id_le d k ≡ true)
      → covers id_le d j ≡ true
      → Among j (past id_le c js)
      → length (past id_le d js) < length (past id_le c js)
  unfolding past
  length-past-lt c d j [] more reached m = absurd m
  length-past-lt c d j (k ∷ ks) more reached m = elim (Bool-cases (covers id_le c k)) [
    | inl covered ↦
        let ih = length-past-lt c d j ks more reached (rw covered at m) in ground (arith, more k)
    | inr open' ↦
        let m' : (k ≡ j) ⊎ Among j (past id_le c ks) = rw open' at m in
        elim m' [
          | inl here ↦
              let reached' : covers id_le d k ≡ true = rw here reached in
              let rest = length-past-le c d ks more in ground arith
          | inr later ↦ let ih = length-past-lt c d j ks more reached later in ground arith
        ]
  ]

  Among-past :
      (c : PageCursor) (j : Job) (js : List Job)
      → Among j (past id_le c js)
      → covers id_le c j ≡ false
  unfolding past
  Among-past c j [] m = absurd m
  Among-past c j (k ∷ ks) m = elim (Bool-cases (covers id_le c k)) [
    | inl covered ↦ Among-past c j ks (rw covered at m)
    | inr open' ↦
        let m' : (k ≡ j) ⊎ Among j (past id_le c ks) = rw open' at m in
        elim m' [
          | inl here ↦ subst (λ i. covers id_le c i ≡ false) here open'
          | inr later ↦ Among-past c j ks later
        ]
  ]

  -- A page with rows takes the cursor forward.
  page_forward :
      (c : PageCursor) (n : ℕ) (rows : List Job) (j : Job) (js : List Job)
      → first_rows n (past id_le c rows) ≡ j ∷ js
      → length (past id_le (last_cursor c (j ∷ js)) rows) < length (past id_le c rows)
  page_forward c n rows j js e =
      let (k, m, last) = last_cursor-Among c j js in
      let there : Among k (past id_le c rows) =
        Among-first_rows n k (past id_le c rows) (subst (Among k) (sym e) m) in
      rw last (
        length-past-lt c (cursor_at k) k rows
          (λ i upto. covers-further c k i (Among-past c k rows there) upto) (covers_self k) there)

  module _ (rows : String → List Job) where
    source_key-load_rows :
        (js : List Job) (l : Loading)
        → (load_rows id_le js l).source.source_key ≡ l.source.source_key
    unfolding load_rows load_row
    source_key-load_rows [] l = refl
    source_key-load_rows (j ∷ js) l = source_key-load_rows js (load_row id_le j l) ∙ ground arith

    spills-after_page :
        (now size : ℕ) (src : SpillSource) (rest : List SpillSource) (page : List Job)
        (r : Refilled) (l : Loading)
        → (after_page now size src rest page r l).queue_after.spills ≡ (
            if ltb (length page) size
            then rest
            else record l.source { after = last_cursor src.after page } ∷ rest)
    unfolding after_page finish_spill
    spills-after_page now size src rest page r l = ground arith

    to_serve-load_page :
        (now size : ℕ) (src : SpillSource) (rest : List SpillSource) (page : List Job)
        (r : Refilled)
        → 0 < size
        → page ≡ first_rows size (past id_le src.after (rows src.source_key))
        → to_serve id_le rows (load_page id_le now size src rest page r).queue_after.spills
          < to_serve id_le rows (src ∷ rest)
    unfolding load_page to_serve
    to_serve-load_page now size src rest [] r some_size e =
        let l = load_rows id_le [] (loading src r) in
        rw (spills-after_page now size src rest [] r l) (ground arith)
    to_serve-load_page now size src rest (j ∷ js) r some_size e =
        let l = load_rows id_le (j ∷ js) (loading src r) in
        let key : l.source.source_key ≡ src.source_key =
          source_key-load_rows (j ∷ js) (loading src r) in
        let ahead = page_forward src.after size (rows src.source_key) j js (sym e) in
        rw (spills-after_page now size src rest (j ∷ js) r l)
          (elim (Bool-cases (ltb (length (j ∷ js)) size)) [
            | inl short ↦ rw short (omega arith)
            | inr full ↦ rw (full, key) (omega arith)
          ])

    turn-ends :
        (srcs : List SpillSource) (store : Store) (now size : ℕ) (r : Refilled)
        (next : Refilled → Refilled × Bool)
        → Serves id_le rows store
        → 0 < size
        → ((t : Refilled)
            → to_serve id_le rows t.queue_after.spills < to_serve id_le rows srcs
            → (next t).1 ≡ true)
        → (refill_turn id_le srcs store now size r next).1 ≡ true
    unfolding refill_turn
    turn-ends [] store now size r next serves some_size ends = refl
    turn-ends (src ∷ rest) store now size r next serves some_size ends =
        elim (Bool-cases (ltb r.held_after (max (size / 4) 1))) [
          | inl low ↦
              rw (low, serves src.source_key src.after size)
                (ends _ (to_serve-load_page now size src rest _ r some_size refl))
          | inr enough ↦ rw enough refl
        ]

    loop-ends :
        (fuel : ℕ) (store : Store) (now size : ℕ) (r : Refilled)
        → Serves id_le rows store
        → 0 < size
        → to_serve id_le rows r.queue_after.spills < fuel
        → (refill_loop id_le fuel store now size r).1 ≡ true
    unfolding refill_loop
    loop-ends zero store now size r serves some_size enough = absurd (omega arith)
    loop-ends (suc fuel) store now size r serves some_size enough =
        turn-ends r.queue_after.spills store now size r (refill_loop id_le fuel store now size)
          serves some_size
          (λ t less. loop-ends fuel store now size t serves some_size (omega arith))

    -- Where ids are ordered and the store serves the rows that it has, a refill ends: fuel for one
    -- page more than there are sources and rows left to serve is enough.
    pub refill-ends :
        (fuel : ℕ) (store : Store) (now size : ℕ) (r : Refilled)
        → Serves id_le rows store
        → 0 < size
        → to_serve id_le rows r.queue_after.spills < fuel
        → (refill id_le fuel store now size r).1 ≡ true
    unfolding refill
    refill-ends fuel store now size r serves some_size enough =
        elim (Bool-cases (ltb now r.queue_after.refill_retry_at)) [
          | inl waits ↦ rw waits refl
          | inr due ↦ rw due (loop-ends fuel store now size r serves some_size enough)
        ]
