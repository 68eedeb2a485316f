-- ===== src/Dispatch/Broker/Entries.antt =====
-- internal/dispatch/broker.go: the slices of the map of subscribers.
use Prim.Native.String.{String}
use text.Mathlib.Text.{◌==◌ as str_eq}
use text.Mathlib.TextEquality.{eq_iff}
use aquifer.Base.{
  ℕ, ◌≡◌, ◌≢◌, inl, inr, refl, true, false, not, ◌&&◌, ◌||◌, some, List, [], ◌∷◌, ◌++◌, ◌==◌, arith,
  if◌then◌else◌, Bool-cases, by_branch,
}
use aquifer.Base.Dict.{lookup, insert, erase, string_keys, lookup-insert, lookup-erase}
use aquifer.Dispatch.Broker.Defs.{Broker, among, entry, is_empty, compact, unsubscribe}
use aquifer.Dispatch.Broker.Steps.{Apart}

pub among-snoc : (i n : ℕ) (ks : List ℕ) → among i (ks ++ (n ∷ [])) ≡ (among i ks || (i == n))
among-snoc i n [] = ground arith
among-snoc i n (k ∷ ks) = ground (arith, among-snoc i n ks)

pub Apart-snoc : (n : ℕ) (ks : List ℕ) → Apart ks → among n ks ≡ false → Apart (ks ++ (n ∷ []))
Apart-snoc n [] a new = (refl, tt)
Apart-snoc n (k ∷ ks) a new =
    (ground (arith, among-snoc k n ks, a.0), Apart-snoc n ks a.1 (ground arith))

pub among-compact :
    (i k : ℕ) (ks : List ℕ) → Apart ks → among k (compact i ks) ≡ (among k ks && not (k == i))
unfolding compact
among-compact i k [] a = refl
among-compact i k (x ∷ xs) a = elim (Bool-cases (x == i)) [
  | inl same ↦ ground (arith, a.0)
  | inr other ↦ ground (arith, among-compact i k xs a.1)
]

pub Apart-compact : (i : ℕ) (ks : List ℕ) → Apart ks → Apart (compact i ks)
unfolding compact
Apart-compact i [] a = tt
Apart-compact i (x ∷ xs) a = elim (Bool-cases (x == i)) [
  | inl same ↦ rw same a.1
  | inr other ↦ rw other (ground (arith, among-compact i x xs a.1, a.0), Apart-compact i xs a.1)
]

-- A slice of the map after an entry is set, or deleted.
pub entry-insert :
    (job k : String) (v : List ℕ) (m : List (String × List ℕ))
    → entry k (insert job v m) ≡ (if str_eq job k then v else entry k m)
entry-insert job k v m = ground (arith, lookup-insert job k v m)

entry-erase :
    (job k : String) (m : List (String × List ℕ))
    → entry k (erase job m) ≡ (if str_eq job k then [] else entry k m)
entry-erase job k m = ground (arith, lookup-erase job k m)

-- What the removal of a channel leaves of the map.
abbrev pub dropped : String → ℕ → List (String × List ℕ) → List (String × List ℕ)
dropped job i m =
    let m' = insert job (compact i (entry job m)) m in
    if is_empty (entry job m') then erase job m' else m'

pub subscribers-unsubscribe :
    {E : Type 0} (job : String) (i : ℕ) (b : Broker E)
    → among i (entry job b.subscribers) ≡ true
    → (unsubscribe job i b).subscribers ≡ dropped job i b.subscribers
unfolding unsubscribe
subscribers-unsubscribe job i b h = rw h refl

empty_slice : (ks : List ℕ) → is_empty ks ≡ true → ks ≡ []
empty_slice [] h = refl
empty_slice (k ∷ ks) h = ground (arith, h)

pub entry-dropped :
    (job k : String) (i : ℕ) (m : List (String × List ℕ))
    → entry k (dropped job i m) ≡ (if str_eq job k then compact i (entry job m) else entry k m)
entry-dropped job k i m =
    let v = compact i (entry job m) in
    let m' = insert job v m in
    by_branch (λ r. entry k r ≡ (if str_eq job k then v else entry k m)) (is_empty (entry job m'))
      (λ none_left. ground (
        arith,
        entry-erase job k m',
        entry-insert job k v m,
        entry-insert job job v m,
        eq_iff job job,
        empty_slice (entry job m') none_left,
      ))
      (λ some_left. entry-insert job k v m)

pub lookup-dropped :
    (job : String) (i : ℕ) (m : List (String × List ℕ))
    → ((k : String) → lookup k m ≢ some [])
    → (k : String) → lookup k (dropped job i m) ≢ some []
lookup-dropped job i m full k =
    let v = compact i (entry job m) in
    let m' = insert job v m in
    by_branch (λ r. lookup k r ≢ some []) (is_empty (entry job m'))
      (λ none_left found.
        ground (arith, lookup-erase job k m', lookup-insert job k v m, full k, found))
      (λ some_left found. ground (
        arith,
        lookup-insert job k v m,
        lookup-insert job job v m,
        eq_iff job job,
        full k,
        found,
        some_left,
      ))
