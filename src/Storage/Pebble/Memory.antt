-- ===== src/Storage/Pebble/Memory.antt =====
-- An engine in memory, on which no read or commit fails: the laws can be met.
use mathlib.Core.Option.{some-injective}
use mathlib.Core.Path.{fun_ext}
use aquifer.Base.{
  ap, subst, ◌∙◌, both_branches, All-imp, ◌≡◌, ◌≢◌, inl, inr, refl, Bool, true, false, none, some,
  List, [], ◌∷◌, All, arith, if◌then◌else◌, Bool-cases,
}
use aquifer.Base.Dict.{lookup, insert, erase, lookup-insert, lookup-erase}
use aquifer.Storage.Pebble.Engine.{
  Key, Entry, Write, put, del, del_range, key_eq, key_eq_iff, key_keys, written, after, Among,
  Engine, EngineLaws,
}

unfoldable pub outside : (Key → Bool) → List (Key × Entry) → List (Key × Entry)
outside due [] = []
outside due ((k, v) ∷ m) = if due k then outside due m else (k, v) ∷ outside due m

unfoldable pub write_one : Write → List (Key × Entry) → List (Key × Entry)
unfolding insert erase outside key_eq
write_one (put k v) m = insert k v m
write_one (del k) m = erase k m
write_one (del_range due) m = outside due m

unfoldable pub write_all : List Write → List (Key × Entry) → List (Key × Entry)
unfolding write_one
write_all [] m = m
write_all (w ∷ ws) m = write_all ws (write_one w m)

unfoldable pub keys_in : (Key → Bool) → List (Key × Entry) → List Key
keys_in due [] = []
keys_in due ((k, v) ∷ m) = if due k then k ∷ keys_in due m else keys_in due m

abbrev pub memory : Engine
memory = record {
  Db = List (Key × Entry);
  get = λ m k. lookup k m;
  fails = λ m k. false;
  commit = λ ws m. some (write_all ws m);
  scan = λ m due. keys_in due m;
}

lookup-outside :
    (due : Key → Bool) (k : Key) (m : List (Key × Entry))
    → lookup k (outside due m) ≡ (if due k then none else lookup k m)
unfolding lookup outside
lookup-outside due k [] = ground arith
lookup-outside due k ((j, v) ∷ m) = elim (Bool-cases (key_eq j k)) [
  | inl same ↦ rw ((key_eq_iff j k).0 same) (ground (arith, lookup-outside due k m, key_eq_iff k k))
  | inr other ↦ ground (arith, lookup-outside due k m)
]

lookup-write_one :
    (w : Write) (m : List (Key × Entry)) (k : Key)
    → lookup k (write_one w m) ≡ written w (λ j. lookup j m) k
unfolding write_one written
lookup-write_one (put j v) m k = lookup-insert j k v m
lookup-write_one (del j) m k = lookup-erase j k m
lookup-write_one (del_range due) m k = lookup-outside due k m

lookup-write_all :
    (ws : List Write) (m : List (Key × Entry)) (k : Key)
    → lookup k (write_all ws m) ≡ after ws (λ j. lookup j m) k
unfolding write_all after
lookup-write_all [] m k = refl
lookup-write_all (w ∷ ws) m k =
    lookup-write_all ws (write_one w m) k
    ∙ ap (λ g. after ws g k) (fun_ext (λ j. lookup-write_one w m j))

keys_in-due :
    (due : Key → Bool) (m : List (Key × Entry))
    → All (λ k. (due k ≡ true) × (lookup k m ≢ none)) (keys_in due m)
unfolding keys_in lookup
keys_in-due due [] = tt
keys_in-due due ((j, v) ∷ m) =
    let ih : All (λ k. (due k ≡ true) × (lookup k ((j, v) ∷ m) ≢ none)) (keys_in due m) =
      All-imp (λ k (h : (due k ≡ true) × (lookup k m ≢ none)). (h.0, ground (arith, h.1)))
        (keys_in due m) (keys_in-due due m) in
    elim (Bool-cases (due j)) [
      | inl asked ↦ rw asked ((asked, ground (arith, key_eq_iff j j)), ih)
      | inr other ↦ rw other ih
    ]

Among-keys_in :
    (due : Key → Bool) (k : Key) (v : Entry) (m : List (Key × Entry))
    → lookup k m ≡ some v
    → due k ≡ true
    → Among k (keys_in due m)
unfolding keys_in lookup
Among-keys_in due k v [] found h = cc
Among-keys_in due k v ((j, w) ∷ m) found h = elim (Bool-cases (key_eq j k)) [
  | inl same ↦ let e : due j ≡ true = rw ((key_eq_iff j k).0 same) h in rw e (inl same)
  | inr other ↦
      let ih : Among k (keys_in due m) = Among-keys_in due k v m (ground arith) h in
      both_branches (λ ks. Among k ks) (due j) (inr ih) ih
]

pub memory_laws : EngineLaws memory
memory_laws = record {
  get-commit = λ ws d e k.
      subst (λ m. lookup k m ≡ after ws (λ j. lookup j d) k) (some-injective _ _ e)
        (lookup-write_all ws d k);
  scan_sound = λ d due. keys_in-due due d;
  scan_complete = λ d due k v found h. Among-keys_in due k v d found h;
}
