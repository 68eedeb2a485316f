-- ===== src/Jobs/Identity.antt =====
-- internal/jobs/job.go: when two requests have the same idempotency identity.
use Prim.Native.String.{String}
use text.Mathlib.Text.{◌==◌ as str_eq}
use mathlib.Core.List.{append_assoc}
use aquifer.Base.{ℕ, ◌≡◌, ◌≢◌, refl, sym, ap, false, List, [], ◌∷◌, ◌++◌, arith}
use aquifer.Base.Text.{codes, contains_code}
use aquifer.Jobs.Defs.{dedup_hash}

-- Splitting at the first separator: two texts without it, each followed by it, are equal only part
-- by part.
split_unique :
    (c : ℕ) (xs ys us vs : List ℕ)
    → contains_code c xs ≡ false
    → contains_code c ys ≡ false
    → xs ++ c ∷ us ≡ ys ++ c ∷ vs
    → (xs ≡ ys) × (us ≡ vs)
split_unique c [] [] us vs h k e = (refl, ground arith)
split_unique c [] (y ∷ ys) us vs h k e = ground arith
split_unique c (x ∷ xs) [] us vs h k e = ground arith
split_unique c (x ∷ xs) (y ∷ ys) us vs h k e =
    let r = split_unique c xs ys us vs (ground arith) (ground arith) (ground arith) in
    (ground (arith, r.0), r.1)

-- A text without NUL and then a colon is not `shared`, a NUL and a text.
not_shared :
    (user key shared : List ℕ)
    → contains_code 0 user ≡ false
    → user ++ b':' ∷ key ≢ codes "shared" ++ 0 ∷ shared
not_shared [] key shared h e = ground arith
not_shared (a ∷ []) key shared h e = ground arith
not_shared (a ∷ b ∷ []) key shared h e = ground arith
not_shared (a ∷ b ∷ c ∷ []) key shared h e = ground arith
not_shared (a ∷ b ∷ c ∷ d ∷ []) key shared h e = ground arith
not_shared (a ∷ b ∷ c ∷ d ∷ f ∷ []) key shared h e = ground arith
not_shared (a ∷ b ∷ c ∷ d ∷ f ∷ g ∷ []) key shared h e = ground arith
not_shared (a ∷ b ∷ c ∷ d ∷ f ∷ g ∷ i ∷ user) key shared h e = ground arith

-- `hash` has no collision.
module _ (hash : List ℕ → String) (injective : (x y : List ℕ) → hash x ≡ hash y → x ≡ y) where
  -- If SHA-256 has no collision, a request of shared scope never has the identity of a request of
  -- user scope whose user id has no NUL, which `Validate` makes sure of.
  pub shared_scope_apart :
      (user key user' key' scope : String)
      → contains_code 0 (codes user) ≡ false
      → str_eq scope "shared" ≡ false
      → dedup_hash hash user' key' "shared" ≢ dedup_hash hash user key scope
  unfolding dedup_hash
  shared_scope_apart user key user' key' scope no_nul not_sh e =
      not_shared (codes user) (codes key) (codes key') no_nul (sym (injective _ _ (rw not_sh at e)))

  -- If SHA-256 has no collision, two requests of user scope whose user ids have no colon have the
  -- same identity only if they have the same user and the same key.
  pub user_scope_apart :
      (user key user' key' scope scope' : String)
      → contains_code b':' (codes user) ≡ false
      → contains_code b':' (codes user') ≡ false
      → str_eq scope "shared" ≡ false
      → str_eq scope' "shared" ≡ false
      → dedup_hash hash user key scope ≡ dedup_hash hash user' key' scope'
      → (codes user ≡ codes user') × (codes key ≡ codes key')
  unfolding dedup_hash
  user_scope_apart user key user' key' scope scope' h h' s s' e =
      split_unique b':' (codes user) (codes user') (codes key) (codes key') h h'
        (injective _ _ (rw (s, s') at e))

-- Outside the shared scope two users may have one identity, whatever the hash: the user `left:middle`
-- with the key `right`, and the user `left` with the key `middle:right`.
pub users_share_identity :
    (hash : List ℕ → String) (user key user' key' scope : String) (middle : List ℕ)
    → codes user' ≡ codes user ++ b':' ∷ middle
    → codes key ≡ middle ++ b':' ∷ codes key'
    → str_eq scope "shared" ≡ false
    → dedup_hash hash user key scope ≡ dedup_hash hash user' key' scope
unfolding dedup_hash
users_share_identity hash user key user' key' scope middle eu ek s =
    rw (s, eu, ek) (ap hash (sym (append_assoc (codes user) (b':' ∷ middle) (b':' ∷ codes key'))))
