-- ===== src/Storage/Pebble/Swept.antt =====
-- internal/storage/pebble.go, deleteExpired: the contents of the store under deletions.
use Prim.Native.String.{String}
use native.Mathlib.Decide.{dec_lt}
use text.Mathlib.Text.{◌==◌ as str_eq}
use text.Mathlib.TextEquality.{eq_iff}
use aquifer.Base.{ℕ, ◌≤◌, ◌<◌, ◌≡◌, inl, inr, refl, false, some, List, [], ◌∷◌, ◌++◌, arith}
use aquifer.Storage.Pebble.Engine.{
  Key, job_key, exp_key, PebbleRecord, stored, Write, del_range, key_eq, written, after, Among,
}
use aquifer.Storage.Pebble.Defs.{delete_batch}
use aquifer.Storage.Pebble.Expiry.{is_due}
use aquifer.Storage.Pebble.Indexes.{Contents, IsIndexed, get-delete}

-- The jobs of `new` are jobs of `old`, and of these only expired ones may be missing.
pub record Swept (now : ℕ) (old new : Contents) : Type 0 where
  pub only_old :
      (id : String) (r : PebbleRecord)
      → new (job_key id) ≡ some (stored r)
      → old (job_key id) ≡ some (stored r)
  pub live_stays :
      (id : String) (r : PebbleRecord)
      → old (job_key id) ≡ some (stored r)
      → now ≤ r.expires_at
      → new (job_key id) ≡ some (stored r)

pub Swept_refl : (now : ℕ) (get : Contents) → Swept now get get
Swept_refl now get = record { only_old = λ id r h. h; live_stays = λ id r h _. h }

-- The expired jobs of `get` are listed by their expiry keys.
abbrev pub Listed : ℕ → List Key → Contents → Type 0
Listed now ks get =
    (id : String) (r : PebbleRecord)
    → get (job_key id) ≡ some (stored r)
    → r.expires_at < now
    → Among (exp_key r.expires_at id) ks

pub after-append :
    (ws vs : List Write) (get : Contents) → after (ws ++ vs) get ≡ after vs (after ws get)
unfolding after
after-append [] vs get = refl
after-append (w ∷ ws) vs get = after-append ws vs (written w get)

pub Swept-delete :
    (hash : List ℕ → String) (now : ℕ) (id : String) (r : PebbleRecord) (old new : Contents)
    → Swept now old new
    → old (job_key id) ≡ some (stored r)
    → r.expires_at < now
    → Swept now old (after (delete_batch hash id r) new)
Swept-delete hash now id r old new w found gone = record {
  only_old = λ j q h. ground (arith, get-delete hash id r new j, w.only_old j q);
  live_stays = λ j q h l. ground (arith, get-delete hash id r new j, eq_iff id j, w.live_stays j q);
}

pub past-delete :
    (hash : List ℕ → String) (id : String) (r : PebbleRecord) (get : Contents) (j : String)
    (q : PebbleRecord)
    → after (delete_batch hash id r) get (job_key j) ≡ some (stored q)
    → (str_eq id j ≡ false) × (get (job_key j) ≡ some (stored q))
past-delete hash id r get j q h =
    (ground (arith, get-delete hash id r get j), ground (arith, get-delete hash id r get j))

pub Among-past : (j k : Key) (ks : List Key) → key_eq j k ≡ false → Among k (j ∷ ks) → Among k ks
Among-past j k ks n (inl same) = absurd (ground arith)
Among-past j k ks n (inr later) = later

pub Among-other :
    (t u : ℕ) (id j : String) (ks : List Key)
    → str_eq id j ≡ false
    → Among (exp_key u j) (exp_key t id ∷ ks)
    → Among (exp_key u j) ks
unfolding key_eq
Among-other t u id j ks n (inl same) = absurd (ground arith)
Among-other t u id j ks n (inr later) = later

pub not_below : (now t : ℕ) → ¬ (t < now) → now ≤ t
not_below now t h = elim (dec_lt t now) [ yes p ↦ absurd (h p) | no p ↦ omega arith ]

-- The range of the due keys.
pub range-IsIndexed :
    (now : ℕ) (get : Contents)
    → IsIndexed get
    → Listed now [] get
    → IsIndexed (written (del_range (is_due now)) get)
unfolding written is_due
range-IsIndexed now get i l = record {
  named = i.named;
  identified = i.identified;
  by_expiry = λ id r h. ground (arith, i.by_expiry id r, l id r);
  by_queue = i.by_queue;
}
