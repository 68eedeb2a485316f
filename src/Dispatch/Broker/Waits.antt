-- ===== src/Dispatch/Broker/Waits.antt =====
-- internal/dispatch/broker.go: the channels on which publishers of final events wait.
use Prim.Native.String.{String}
use text.Mathlib.Text.{◌==◌ as str_eq}
use text.Mathlib.TextEquality.{eq_iff}
use aquifer.Base.{
  ℕ, ◌+◌, ◌<◌, ◌≡◌, ◌≢◌, ◌⊎◌, inl, inr, refl, sym, ◌∙◌, ap, Bool, true, false, some, List, ◌==◌,
  ==_iff, arith, if_some, Bool-cases, by_branch,
}
use aquifer.Base.Dict.{lookup, insert, erase, string_keys, lookup-insert, lookup-erase}
use aquifer.Dispatch.Broker.Defs.{put_at}
use aquifer.Dispatch.Broker.Steps.{Pending}

some_apart : (a b : ℕ) → some a ≡ some b → a ≡ b
some_apart a b e = ap (λ o. if_some o a (λ x. x)) e

module _ (m : List (String × ℕ)) (conf : ℕ → Bool) (n : ℕ) (v : Pending m conf n)
    (job : String) where
  inserted :
      (k : String) (d : ℕ)
      → lookup k (insert job n m) ≡ some d
      → ((job ≡ k) × (d ≡ n)) ⊎ (lookup k m ≡ some d)
  inserted k d found = elim (Bool-cases (str_eq job k)) [
    | inl here ↦
        inl (
          (eq_iff job k).0 here,
          some_apart d n (sym found ∙ lookup-insert job k n m ∙ rw here refl),
        )
    | inr other ↦ inr (sym (lookup-insert job k n m ∙ rw other refl) ∙ found)
  ]

  -- A number that was not given out is not waited for.
  older : (k : String) (d : ℕ) → lookup k m ≡ some d → d ≢ n
  older k d found e = omega (arith, (v.waits k d found).1, e)

  pub Pending-insert : Pending (insert job n m) conf (n + 1)
  Pending-insert = record {
    waits = λ k d found. elim (inserted k d found) [
      | inl new ↦ (ap conf new.1 ∙ v.unused n (omega arith), omega arith)
      | inr old ↦ ((v.waits k d old).0, omega (arith, (v.waits k d old).1))
    ];
    sole = λ j k d first second. elim (inserted j d first) [
      | inl new ↦ elim (inserted k d second) [
        | inl new' ↦ sym new.0 ∙ new'.0
        | inr old ↦ absurd (older k d old new.1)
      ]
      | inr old ↦ elim (inserted k d second) [
        | inl new ↦ absurd (older j d old new.1)
        | inr old' ↦ v.sole j k d old old'
      ]
    ];
    unused = λ d h. v.unused d (omega arith);
  }

  erased : (k : String) (d : ℕ) → lookup k (erase job m) ≡ some d → lookup k m ≡ some d
  erased k d found = ground (arith, lookup-erase job k m, found)

  erased_other : (k : String) (d : ℕ) → lookup k (erase job m) ≡ some d → job ≢ k
  erased_other k d found = ground (arith, lookup-erase job k m, eq_iff job k, found)

  pub Pending-erase : Pending (erase job m) conf n
  Pending-erase = record {
    waits = λ k d found. v.waits k d (erased k d found);
    sole = λ j k d first second. v.sole j k d (erased j d first) (erased k d second);
    unused = v.unused;
  }

  pub Pending-confirm :
      (d : ℕ) → lookup job m ≡ some d → Pending (erase job m) (put_at d true conf) n
  Pending-confirm d here = record {
    waits = λ k c found.
        by_branch (λ r. (r ≡ false) × (c < n)) (d == c)
          (λ hit. absurd (
            erased_other k c found
              (v.sole job k c (here ∙ ap some ((==_iff d c).0 hit)) (erased k c found))))
          (λ miss. v.waits k c (erased k c found));
    sole = λ j k c first second. v.sole j k c (erased j c first) (erased k c second);
    unused = λ c h.
        by_branch (λ r. r ≡ false) (d == c) (λ hit. ground (arith, (v.waits job d here).1))
          (λ miss. v.unused c h);
  }
