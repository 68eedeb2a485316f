-- ===== src/Storage/Pebble/Pages.antt =====
-- internal/storage/pebble.go, QueuedPage: which jobs a page holds, and which entries it drops.
use Prim.Native.String.{String}
use mathlib.Core.List.{append-nil, append_assoc}
use aquifer.Base.{
  ℕ, ◌-◌, ◌≤◌, ◌<◌, ◌≡◌, ◌≢◌, inl, inr, refl, sym, subst, ◌∙◌, ap, Bool, true, false, not, ◌&&◌,
  ◌||◌, leb, Option, none, some, List, [], ◌∷◌, ◌++◌, length, length-append, All, arith, ltb,
  ltb→lt, ◌==◌, if◌then◌else◌, Bool-cases,
}
use text.Mathlib.Text.{◌==◌ as str_eq}
use aquifer.Jobs.Defs.{
  Job, Status, queued, in_flight, completed, failed, is_empty, unix_milli, PageCursor,
}
use aquifer.Storage.Pebble.Engine.{
  Key, job_key, idem_key, exp_key, queue_index_key, drain_seq_key, drain_job_key, meta_key,
  PebbleRecord, Entry, stored, id_entry, number, event, nothing, garbage, Engine,
}
use aquifer.Storage.Pebble.Defs.{Store, pending_status}
use aquifer.Storage.Pebble.Scans.{
  Page, Seen, kept, dropped, skipped, unreadable, with_stale, page_step, in_page, empty_page, look,
  look_at, belongs, page_from, queued_page,
}

-- The first `n` jobs.
unfoldable pub take : ℕ → List Job → List Job
take n [] = []
take n (j ∷ js) = if n == 0 then [] else j ∷ take (n - 1) js

take_zero : (js : List Job) → take 0 js ≡ []
unfolding take
take_zero [] = refl
take_zero (j ∷ js) = refl

first_of : (n : ℕ) (j : Job) (js : List Job) → 0 < n → j ∷ take (n - 1) js ≡ take n (j ∷ js)
unfolding take
first_of n j js h = ground arith

live_step : Seen → List Job → List Job
live_step (kept j) js = j ∷ js
live_step dropped js = js
live_step skipped js = js
live_step unreadable js = js

found-with_stale : (k : Key) (p : Page) → (with_stale k p).found ≡ p.found
unfolding with_stale
found-with_stale k p = ground arith

-- A pass that goes through fills the page with the first jobs of `js`.
abbrev Fills : ℕ → Page → List Job → Page × Bool → Type 0
Fills limit p js r = (r.0.found ≡ p.found ++ take (limit - length p.found) js) × (r.1 ≡ true)

Fills-kept :
    (limit : ℕ) (p : Page) (j : Job) (js : List Job) (r : Page × Bool)
    → length p.found < limit
    → Fills limit (record p { found = p.found ++ (j ∷ []) }) js r
    → Fills limit p (j ∷ js) r
unfolding take
Fills-kept limit p j js r l f = (f.0 ∙ shift, f.1)
  where
    less : limit - length (p.found ++ (j ∷ [])) ≡ limit - length p.found - 1
    less = omega (arith, length-append p.found (j ∷ []))

    shift :
        (p.found ++ (j ∷ [])) ++ take (limit - length (p.found ++ (j ∷ []))) js
        ≡ p.found ++ take (limit - length p.found) (j ∷ js)
    shift =
        append_assoc p.found (j ∷ []) (take (limit - length (p.found ++ (j ∷ []))) js)
        ∙ ap (λ n. p.found ++ (j ∷ take n js)) less
        ∙ ap (◌++◌ p.found) (first_of (limit - length p.found) j js (omega arith))

Fills-nil : (limit : ℕ) (p : Page) → Fills limit p [] (p, true)
unfolding take
Fills-nil limit p = (sym (append-nil p.found), refl)

page_step-Fills :
    (limit : ℕ) (seen : Seen) (k : Key) (p : Page) (js : List Job) (next : Page → Page × Bool)
    → seen ≢ unreadable
    → length p.found < limit
    → ((p' : Page) → length p'.found ≤ limit → Fills limit p' js (next p'))
    → Fills limit p (live_step seen js) (page_step seen k p next)
unfolding page_step live_step
page_step-Fills limit (kept j) k p js next ok l h =
    Fills-kept limit p j js (next (record p { found = p.found ++ (j ∷ []) })) l
      (h _ (omega (arith, length-append p.found (j ∷ []))))
page_step-Fills limit dropped k p js next ok l h =
    let same = found-with_stale k p in
    let r = next (with_stale k p) in
    subst (λ ps. (r.0.found ≡ ps ++ take (limit - length ps) js) × (r.1 ≡ true)) same
      (h (with_stale k p) (subst (λ ps. length ps ≤ limit) (sym same) (omega arith)))
page_step-Fills limit skipped k p js next ok l h = h p (omega arith)
page_step-Fills limit unreadable k p js next ok l h = absurd (ok refl)

abbrev pub is_unfinished : Status → Bool
is_unfinished queued = true
is_unfinished in_flight = true
is_unfinished completed = false
is_unfinished failed = false

-- The record is of a job of the queue that has not expired and is not finished.
abbrev pub serves : ℕ → String → PebbleRecord → Bool
serves now key r =
    ltb (unix_milli now) r.expires_at && str_eq r.queue_key key && is_unfinished r.job.status

pub belongs_iff : (now : ℕ) (key : String) (r : PebbleRecord) → belongs now key r ≡ serves now key r
unfolding belongs pending_status
belongs_iff now key r = finish r.job.status
  where
    finish :
        (st : Status)
        → not (
            leb r.expires_at (unix_milli now)
            || not (str_eq r.queue_key key)
            || not (pending_status st))
          ≡ (ltb (unix_milli now) r.expires_at && str_eq r.queue_key key && is_unfinished st)
    finish queued = ground arith
    finish in_flight = ground arith
    finish completed = ground arith
    finish failed = ground arith

-- The job of an entry, as the page reports it, if the record that is stored for it serves the queue.
abbrev pub live_job : ℕ → String → Option Entry → List Job
live_job now key (some (stored r)) =
    if serves now key r then record r.job { status = queued } ∷ [] else []
live_job now key _ = []

step_skipped : (js : List Job) → live_step skipped js ≡ js
unfolding live_step
step_skipped js = refl

live_step-look_at :
    (now : ℕ) (key : String) (v : Option Entry) (js : List Job)
    → look_at now key v ≢ unreadable
    → live_step (look_at now key v) js ≡ live_job now key v ++ js
unfolding live_step
live_step-look_at now key none js h = refl
live_step-look_at now key (some (stored r)) js h =
    rw (belongs_iff now key r)
      (elim (Bool-cases (serves now key r)) [ inl live ↦ rw live refl | inr stale ↦ rw stale refl ])
live_step-look_at now key (some (id_entry i)) js h = absurd (h refl)
live_step-look_at now key (some (number n)) js h = absurd (h refl)
live_step-look_at now key (some (event v)) js h = absurd (h refl)
live_step-look_at now key (some nothing) js h = absurd (h refl)
live_step-look_at now key (some garbage) js h = absurd (h refl)

module _ (e : Engine) where
  -- The jobs that entries of the queue's index lead to, in their order.
  abbrev pub live_jobs : ℕ → String → e.Db → List Key → List Job
  live_jobs now key d [] = []
  live_jobs now key d (queue_index_key q t id ∷ ks) =
      if is_empty id
      then live_jobs now key d ks
      else live_job now key (e.get d (job_key id)) ++ live_jobs now key d ks
  live_jobs now key d (k ∷ ks) = live_jobs now key d ks

  live_step-look :
      (now : ℕ) (key : String) (d : e.Db) (k : Key) (ks : List Key)
      → look e now key d k ≢ unreadable
      → live_step (look e now key d k) (live_jobs now key d ks) ≡ live_jobs now key d (k ∷ ks)
  unfolding look
  live_step-look now key d (queue_index_key q t id) ks fine = elim (Bool-cases (is_empty id)) [
    | inl none_ ↦ rw none_ (step_skipped (live_jobs now key d ks))
    | inr some_ ↦ elim (Bool-cases (e.fails d (job_key id))) [
      | inl broken ↦ absurd (fine (rw (some_, broken) refl))
      | inr reads ↦
          rw (some_, reads)
            (live_step-look_at now key (e.get d (job_key id)) (live_jobs now key d ks)
              (λ h. fine (rw (some_, reads) h)))
    ]
  ]
  live_step-look now key d (job_key id) ks fine = step_skipped _
  live_step-look now key d (idem_key h) ks fine = step_skipped _
  live_step-look now key d (exp_key t id) ks fine = step_skipped _
  live_step-look now key d (drain_seq_key n) ks fine = step_skipped _
  live_step-look now key d (drain_job_key id) ks fine = step_skipped _
  live_step-look now key d (meta_key n) ks fine = step_skipped _

  page_from-Fills :
      (now : ℕ) (key : String) (limit : ℕ) (d : e.Db) (ks : List Key) (p : Page)
      → All (λ k. look e now key d k ≢ unreadable) ks
      → length p.found ≤ limit
      → Fills limit p (live_jobs now key d ks) (page_from e now key limit d ks p)
  unfolding page_from
  page_from-Fills now key limit d [] p fine l = Fills-nil limit p
  page_from-Fills now key limit d (k ∷ ks) p fine l =
      elim (Bool-cases (ltb (length p.found) limit)) [
        | inl room ↦
            rw (room, sym (live_step-look now key d k ks fine.0))
              (page_step-Fills limit (look e now key d k) k p (live_jobs now key d ks)
                (page_from e now key limit d ks) fine.0 (ltb→lt _ _ room)
                (λ p' l'. page_from-Fills now key limit d ks p' fine.1 l'))
        | inr full ↦
            let none_left : limit - length p.found ≡ 0 = ground arith in
            rw (full, none_left, take_zero) (sym (append-nil p.found), refl)
      ]

  -- Where the entries of a queue can be read, a page holds the first `limit` of the jobs that they
  -- lead to, in their order: of those whose stored record is in the queue, has not expired and is
  -- not finished.
  pub queued_page-take :
      (id_lt : String → String → Bool) (now : ℕ) (key : String) (cursor : Option PageCursor)
      (before limit : ℕ) (s : Store e)
      → All
          (λ k. look e now key s.db k ≢ unreadable)
          (e.scan s.db (in_page id_lt key cursor before))
      → (queued_page e id_lt now key cursor before limit s).1
        ≡ some (take limit (live_jobs now key s.db (e.scan s.db (in_page id_lt key cursor before))))
  unfolding queued_page
  queued_page-take id_lt now key cursor before limit s fine =
      let f =
        page_from-Fills now key limit s.db (e.scan s.db (in_page id_lt key cursor before))
          empty_page fine (omega arith) in
      ground (arith, f.0, f.1)
