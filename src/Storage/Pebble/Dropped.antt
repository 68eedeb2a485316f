-- ===== src/Storage/Pebble/Dropped.antt =====
-- internal/storage/pebble.go, QueuedPage: the entries that a page drops.
use Prim.Native.String.{String}
use text.Mathlib.TextEquality.{eq_iff}
use aquifer.Base.{
  ℕ, ◌≡◌, ◌≢◌, ◌⊎◌, inl, inr, refl, sym, subst, ◌∙◌, Bool, true, false, by_branch, All-imp, Option,
  none, some, List, [], ◌∷◌, ◌++◌, length, All, All-append, arith, ltb, leb, both_branches,
  Bool-cases,
}
use aquifer.Jobs.Defs.{is_empty, Job, PageCursor}
use aquifer.Storage.Pebble.Engine.{
  Key, job_key, idem_key, exp_key, drain_seq_key, drain_job_key, meta_key, id_entry, number, event,
  garbage, queue_index_key, PebbleRecord, Entry, stored, nothing, del, key_eq, key_eq_iff, written,
  after, Engine, EngineLaws,
}
use aquifer.Storage.Pebble.Defs.{Store, commit_logged}
use aquifer.Storage.Pebble.Scans.{
  Page, Seen, kept, dropped, skipped, unreadable, with_stale, page_step, belongs, in_page, deletes,
  empty_page, look, look_at, page_from, commit_each, queued_page, flush_at,
}
use aquifer.Storage.Pebble.Pages.{serves, belongs_iff}
use aquifer.Storage.Pebble.Indexes.{Contents}
use aquifer.Storage.Pebble.Steps.{commit_logged-keeps}

-- Deletions leave a key that is not among them as it is.
get-deletes :
    (P : Key → Type 0) (x : Key) (ks : List Key) (get : Contents)
    → All P ks
    → ¬ P x
    → after (deletes ks) get x ≡ get x
unfolding after written deletes
get-deletes P x [] get h n = refl
get-deletes P x (k ∷ ks) get h n =
    get-deletes P x ks (written (del k) get) h.1 n ∙ elim (Bool-cases (key_eq k x)) [
      | inl same ↦ absurd (n (subst P ((key_eq_iff k x).0 same) h.0))
      | inr other ↦ ground arith
    ]

-- All entries that a page is to drop have the property.
abbrev Drops : (Key → Type 0) → Page → Type 0
Drops P p = All P p.stale × All (λ ks. All P ks) p.flushed

with_stale-Drops :
    (P : Key → Type 0) (k : Key) (p : Page) → P k → Drops P p → Drops P (with_stale k p)
unfolding with_stale
with_stale-Drops P k p h d =
    let more = All-append P p.stale (k ∷ []) d.0 (h, tt) in
    both_branches (λ q. Drops P q) (leb flush_at (length (p.stale ++ (k ∷ []))))
      (tt, All-append (λ ks. All P ks) p.flushed _ d.1 (more, tt)) (more, d.1)

page_step-Drops :
    (P : Key → Type 0) (seen : Seen) (k : Key) (p : Page) (next : Page → Page × Bool)
    → (seen ≡ dropped → P k)
    → ((p' : Page) → Drops P p' → Drops P (next p').0)
    → Drops P p
    → Drops P (page_step seen k p next).0
unfolding page_step
page_step-Drops P (kept j) k p next h n d = n _ d
page_step-Drops P dropped k p next h n d = n _ (with_stale-Drops P k p (h refl) d)
page_step-Drops P skipped k p next h n d = n p d
page_step-Drops P unreadable k p next h n d = d

-- An entry of the queue's index whose job is gone, or has expired, left the queue or finished.
pub data IsStale (now : ℕ) (key : String) (get : Contents) (x : Key) : Type 0 where
  gone :
      (t : ℕ) (id : String)
      → x ≡ queue_index_key key t id
      → get (job_key id) ≡ none
      → IsStale now key get x
  moved_on :
      (t : ℕ) (id : String) (r : PebbleRecord)
      → x ≡ queue_index_key key t id
      → get (job_key id) ≡ some (stored r)
      → serves now key r ≡ false
      → IsStale now key get x

module _ (e : Engine) (laws : EngineLaws e) where
  -- The entry of a page that is dropped.
  abbrev IsDropped :
      (String → String → Bool) → ℕ → String → Option PageCursor → ℕ → e.Db → Key → Type 0
  IsDropped id_lt now key cursor before d k =
      (look e now key d k ≡ dropped) × (in_page id_lt key cursor before k ≡ true)

  page_from-Drops :
      (now : ℕ) (key : String) (limit : ℕ) (d : e.Db) (P : Key → Type 0) (ks : List Key) (p : Page)
      → All (λ k. look e now key d k ≡ dropped → P k) ks
      → Drops P p
      → Drops P (page_from e now key limit d ks p).0
  unfolding page_from
  page_from-Drops now key limit d P [] p each h = h
  page_from-Drops now key limit d P (k ∷ ks) p each h =
      both_branches (λ (r : Page × Bool). Drops P r.0) (ltb (length p.found) limit)
        (page_step-Drops P (look e now key d k) k p (page_from e now key limit d ks) each.0
          (λ p' h'. page_from-Drops now key limit d P ks p' each.1 h') h)
        h

  get-commit_each :
      (P : Key → Type 0) (x : Key) (v : Option Entry) (kss : List (List Key)) (s : Store e)
      → All (λ ks. All P ks) kss
      → ¬ P x
      → e.get s.db x ≡ v
      → e.get (commit_each e kss s).db x ≡ v
  unfolding commit_each
  get-commit_each P x v [] s h n here = here
  get-commit_each P x v (ks ∷ kss) s h n here =
      get-commit_each P x v kss (commit_logged e (deletes ks) s) h.1 n (
        commit_logged-keeps e laws (λ get. get x ≡ v) (deletes ks) s here
          (get-deletes P x ks (e.get s.db) h.0 n ∙ here))

  get-queued_page :
      (id_lt : String → String → Bool) (now : ℕ) (key : String) (cursor : Option PageCursor)
      (before limit : ℕ) (s : Store e) (x : Key)
      → ¬ IsDropped id_lt now key cursor before s.db x
      → e.get (queued_page e id_lt now key cursor before limit s).0.db x ≡ e.get s.db x
  unfolding queued_page
  get-queued_page id_lt now key cursor before limit s x n =
      both_branches (λ (r : Store e × Option (List Job)). e.get r.0.db x ≡ e.get s.db x) went.1
        (get-commit_each P x (e.get s.db x) _ s
          (All-append (λ ks. All P ks) went.0.flushed (went.0.stale ∷ []) h.1 (h.0, tt)) n refl)
        (get-commit_each P x (e.get s.db x) _ s h.1 n refl)
    where
      P : Key → Type 0
      P k = IsDropped id_lt now key cursor before s.db k

      range : List Key
      range = e.scan s.db (in_page id_lt key cursor before)

      went : Page × Bool
      went = page_from e now key limit s.db range empty_page

      h : Drops P went.0
      h =
          page_from-Drops now key limit s.db P range empty_page
            (All-imp (λ k found seen. (seen, found.0)) range
              (laws.scan_sound s.db (in_page id_lt key cursor before)))
            (tt, tt)

  look_at-stale :
      (now : ℕ) (key : String) (d : e.Db) (t : ℕ) (id : String) (v : Option Entry)
      → e.get d (job_key id) ≡ v
      → look_at now key v ≡ dropped
      → IsStale now key (e.get d) (queue_index_key key t id)
  look_at-stale now key d t id none found seen = gone t id refl found
  look_at-stale now key d t id (some (stored r)) found seen = moved_on t id r refl found (
      sym (belongs_iff now key r)
      ∙ by_branch (λ x. x ≡ dropped → belongs now key r ≡ false) (belongs now key r)
          (λ k. λ h. absurd (ground (arith, h))) (λ k. λ h. k) seen)
  look_at-stale now key d t id (some (id_entry i)) found seen = absurd (ground (arith, seen))
  look_at-stale now key d t id (some (number n)) found seen = absurd (ground (arith, seen))
  look_at-stale now key d t id (some (event n)) found seen = absurd (ground (arith, seen))
  look_at-stale now key d t id (some nothing) found seen = absurd (ground (arith, seen))
  look_at-stale now key d t id (some garbage) found seen = absurd (ground (arith, seen))

  dropped-IsStale :
      (id_lt : String → String → Bool) (now : ℕ) (key : String) (cursor : Option PageCursor)
      (before : ℕ) (d : e.Db) (x : Key)
      → in_page id_lt key cursor before x ≡ true
      → look e now key d x ≡ dropped
      → IsStale now key (e.get d) x
  unfolding look in_page
  dropped-IsStale id_lt now key cursor before d (queue_index_key q t id) inside seen =
      elim (Bool-cases (is_empty id)) [
        | inl none_ ↦ absurd (ground (arith, rw none_ at seen))
        | inr some_ ↦ elim (Bool-cases (e.fails d (job_key id))) [
          | inl broken ↦ absurd (ground (arith, rw (some_, broken) at seen))
          | inr reads ↦
              let same : key ≡ q = (eq_iff key q).0 (ground (arith, inside)) in
              subst (λ p. IsStale now key (e.get d) (queue_index_key p t id)) same
                (look_at-stale now key d t id (e.get d (job_key id)) refl
                  (rw (some_, reads) at seen))
        ]
      ]
  dropped-IsStale id_lt now key cursor before d (job_key id) inside seen =
      absurd (ground (arith, inside))
  dropped-IsStale id_lt now key cursor before d (idem_key h) inside seen =
      absurd (ground (arith, inside))
  dropped-IsStale id_lt now key cursor before d (exp_key t id) inside seen =
      absurd (ground (arith, inside))
  dropped-IsStale id_lt now key cursor before d (drain_seq_key n) inside seen =
      absurd (ground (arith, inside))
  dropped-IsStale id_lt now key cursor before d (drain_job_key i) inside seen =
      absurd (ground (arith, inside))
  dropped-IsStale id_lt now key cursor before d (meta_key n) inside seen =
      absurd (ground (arith, inside))

  is_dropped : (seen : Seen) → (seen ≡ dropped) ⊎ (seen ≢ dropped)
  is_dropped (kept j) = inr (λ h. ground (arith, h))
  is_dropped dropped = inl refl
  is_dropped skipped = inr (λ h. ground (arith, h))
  is_dropped unreadable = inr (λ h. ground (arith, h))

  -- Reading a page of a queue leaves everything that is stored as it is, whatever reads and commits
  -- fail, but for entries of that queue's index whose job is gone, or has expired, left the queue or
  -- finished.
  pub queued_page-keeps :
      (id_lt : String → String → Bool) (now : ℕ) (key : String) (cursor : Option PageCursor)
      (before limit : ℕ) (s : Store e) (x : Key)
      → (e.get (queued_page e id_lt now key cursor before limit s).0.db x ≡ e.get s.db x)
        ⊎ IsStale now key (e.get s.db) x
  queued_page-keeps id_lt now key cursor before limit s x =
      elim (Bool-cases (in_page id_lt key cursor before x)) [
        | inr outside ↦ inl (
            get-queued_page id_lt now key cursor before limit s x
              (λ d. ground (arith, outside, d.1)))
        | inl inside ↦ elim (is_dropped (look e now key s.db x)) [
          | inl seen ↦ inr (dropped-IsStale id_lt now key cursor before s.db x inside seen)
          | inr fine ↦ inl (get-queued_page id_lt now key cursor before limit s x (λ d. fine d.0))
        ]
      ]
