-- ===== src/Dispatch/UserLoad/Counts.antt =====
-- internal/dispatch/user_load.go: what the tracker knows of a user after any history.
use Prim.Native.String.{String}
use text.Mathlib.Text.{◌==◌ as str_eq}
use text.Mathlib.TextEquality.{eq_iff}
use aquifer.Base.{
  ℕ, ◌+◌, ◌-◌, ◌&&◌, not, ◌∙◌, Bool-cases, inl, inr, ◌≡◌, refl, ap, sym, Bool, true, false, Option,
  none, some, List, [], ◌∷◌, if◌then◌else◌, arith,
}
use aquifer.Base.Dict.{lookup, insert, erase, string_keys, lookup-insert, lookup-erase}
use aquifer.Jobs.Defs.{Job, is_webhook_delivery}
use aquifer.Dispatch.UserLoad.Defs.{
  UserLoad, Tracker, load_or_none, with_job, without_job, add, done, done_for, is_idle,
}

pub data Event : Type 0 where
  adds dones : Job → Event

unfoldable pub track : Event → Tracker → Tracker
unfolding add done
track (adds j) t = add j t
track (dones j) t = done j t

-- The history, with its newest event first.
unfoldable pub tracked : List Event → Tracker
unfolding track
tracked [] = record { users = []; accepted = 0 }
tracked (e ∷ es) = track e (tracked es)

-- What a user is owed, counted from the history alone: the ordinary jobs that were added less those
-- that ended, where an end beyond what was added counts nothing; and the same of the webhooks.
unfoldable pub owed_jobs : String → List Event → ℕ
owed_jobs u [] = 0
owed_jobs u (adds j ∷ es) =
    if str_eq j.user_id u && not (is_webhook_delivery j) then owed_jobs u es + 1 else owed_jobs u es
owed_jobs u (dones j ∷ es) =
    if str_eq j.user_id u && not (is_webhook_delivery j) then owed_jobs u es - 1 else owed_jobs u es

unfoldable pub owed_webhooks : String → List Event → ℕ
owed_webhooks u [] = 0
owed_webhooks u (adds j ∷ es) =
    if str_eq j.user_id u && is_webhook_delivery j
    then owed_webhooks u es + 1
    else owed_webhooks u es
owed_webhooks u (dones j ∷ es) =
    if str_eq j.user_id u && is_webhook_delivery j
    then owed_webhooks u es - 1
    else owed_webhooks u es

abbrev pub owed : String → List Event → UserLoad
owed u es = record { jobs = owed_jobs u es; webhooks = owed_webhooks u es }

owed-adds :
    (u : String) (j : Job) (es : List Event)
    → owed u (adds j ∷ es)
      ≡ (if str_eq j.user_id u then with_job (is_webhook_delivery j) (owed u es) else owed u es)
unfolding with_job owed_jobs owed_webhooks
owed-adds u j es = elim (Bool-cases (str_eq j.user_id u)) [
  | inl e ↦ elim (Bool-cases (is_webhook_delivery j)) [
    | inl h ↦ rw (e, h) refl
    | inr h ↦ rw (e, h) refl
  ]
  | inr e ↦ rw e refl
]

owed-dones :
    (u : String) (j : Job) (es : List Event)
    → owed u (dones j ∷ es)
      ≡ (if str_eq j.user_id u then without_job (is_webhook_delivery j) (owed u es) else owed u es)
unfolding without_job owed_jobs owed_webhooks
owed-dones u j es = elim (Bool-cases (str_eq j.user_id u)) [
  | inl e ↦ elim (Bool-cases (is_webhook_delivery j)) [
    | inl h ↦ rw (e, h) refl
    | inr h ↦ rw (e, h) refl
  ]
  | inr e ↦ rw e refl
]

-- The tracker's entry for a user: none exactly when nothing is owed.
abbrev pub entry : UserLoad → Option UserLoad
entry l = if is_idle l then none else some l

entry_load : (l : UserLoad) → load_or_none (entry l) ≡ l
unfolding load_or_none
entry_load l = ground arith

with_job-busy : (hook : Bool) (l : UserLoad) → entry (with_job hook l) ≡ some (with_job hook l)
unfolding with_job
with_job-busy true l = ground arith
with_job-busy false l = ground arith

idle_stays : (hook : Bool) (l : UserLoad) → is_idle l ≡ true → is_idle (without_job hook l) ≡ true
unfolding without_job
idle_stays true l h = ground arith
idle_stays false l h = ground arith

after_add :
    (u : String) (j : Job) (es : List Event)
    → lookup j.user_id (tracked es).users ≡ entry (owed j.user_id es)
    → lookup u (tracked es).users ≡ entry (owed u es)
    → lookup u (add j (tracked es)).users
      ≡ entry
          (if str_eq j.user_id u then with_job (is_webhook_delivery j) (owed u es) else owed u es)
unfolding add
after_add u j es hj hu =
    lookup-insert j.user_id u _ (tracked es).users ∙ elim (Bool-cases (str_eq j.user_id u)) [
      | inl e ↦
          let same = (eq_iff j.user_id u).0 e in
          let mine = hj ∙ ap (λ v. entry (owed v es)) same in
          rw (e, mine, entry_load (owed u es), with_job-busy (is_webhook_delivery j) (owed u es))
            refl
      | inr e ↦ rw (e, hu) refl
    ]

lookup_left :
    (u v : String) (left : UserLoad) (users : List (String × UserLoad))
    → lookup u (if is_idle left then erase v users else insert v left users)
      ≡ (if str_eq v u then entry left else lookup u users)
lookup_left u v left users = elim (Bool-cases (is_idle left)) [
  | inl idle ↦ rw idle (lookup-erase v u users)
  | inr busy ↦ rw busy (lookup-insert v u left users)
]

idle_done :
    (u v : String) (hook : Bool) (mine yours : UserLoad)
    → is_idle mine ≡ true
    → (v ≡ u → mine ≡ yours)
    → entry yours ≡ entry (if str_eq v u then without_job hook yours else yours)
idle_done u v hook mine yours idle same = elim (Bool-cases (str_eq v u)) [
  | inl e ↦
      let yours_idle : is_idle yours ≡ true = sym (ap is_idle (same ((eq_iff v u).0 e))) ∙ idle in
      rw (e, yours_idle, idle_stays hook yours yours_idle) refl
  | inr e ↦ rw e refl
]

busy_done :
    (u v : String) (hook : Bool) (mine yours : UserLoad)
    → (v ≡ u → mine ≡ yours)
    → (if str_eq v u then entry (without_job hook mine) else entry yours)
      ≡ entry (if str_eq v u then without_job hook yours else yours)
busy_done u v hook mine yours same = elim (Bool-cases (str_eq v u)) [
  | inl e ↦ rw e (ap (λ l. entry (without_job hook l)) (same ((eq_iff v u).0 e)))
  | inr e ↦ rw e refl
]

after_done_for :
    (u v : String) (hook : Bool) (mine yours : UserLoad) (t : Tracker)
    → lookup v t.users ≡ entry mine
    → lookup u t.users ≡ entry yours
    → (v ≡ u → mine ≡ yours)
    → lookup u (done_for v hook (lookup v t.users) t).users
      ≡ entry (if str_eq v u then without_job hook yours else yours)
unfolding done_for
after_done_for u v hook mine yours t hm hy same = rw hm (elim (Bool-cases (is_idle mine)) [
  | inl idle ↦ rw idle (hy ∙ idle_done u v hook mine yours idle same)
  | inr busy ↦
      rw busy (
        lookup_left u v (without_job hook mine) t.users
        ∙ rw hy (busy_done u v hook mine yours same))
])

-- After any history, the tracker's entry for a user has the jobs and the webhooks that the user is
-- owed, each counted from the history, and there is none when nothing is owed.
pub lookup-tracked :
    (u : String) (es : List Event) → lookup u (tracked es).users ≡ entry (owed u es)
unfolding tracked track lookup done owed_jobs owed_webhooks
lookup-tracked u [] = refl
lookup-tracked u (adds j ∷ es) =
    after_add u j es (lookup-tracked j.user_id es) (lookup-tracked u es)
    ∙ ap entry (sym (owed-adds u j es))
lookup-tracked u (dones j ∷ es) =
    after_done_for u j.user_id (is_webhook_delivery j) (owed j.user_id es) (owed u es) (tracked es)
      (lookup-tracked j.user_id es) (lookup-tracked u es) (λ e. ap (λ v. owed v es) e)
    ∙ ap entry (sym (owed-dones u j es))
