-- ===== src/Dispatch/SharedPace/Bounds.antt =====
-- internal/dispatch/shared_pace.go: the target sees at most the shared rate.
use aquifer.Base.{
  ℕ, ◌+◌, ◌*◌, ◌≤◌, ◌<◌, ◌≡◌, ◌≢◌, refl, ap, true, false, Option, some, List, [], ◌∷◌, arith, ◌==◌,
  if◌then◌else◌, by_branch, All,
}
use aquifer.Base.Dict.{nat_keys}
use aquifer.Base.Float.{FloatArith, F, flit, fle, fmax, interval}
use aquifer.Dispatch.SharedPace.Defs.{
  SharedPace, wait_turn, slot_start, is_early, is_behind, take_slot, without_stale, reserve_fresh,
  reserve_at, reserve, min_rps,
}

-- The two ways in which a call ends.
pub data Reserved (gap now : ℕ) (s : SharedPace) (r : SharedPace × ℕ) : Type 0 where
  turned_away :
      r.0.last ≡ s.last → r.0.granted ≡ s.granted → (0 < gap → 0 < r.1) → Reserved gap now s r
  took_slot :
      r.1 ≡ 0
      → r.0.granted ≡ true
      → now ≤ r.0.last + gap
      → r.0.last ≤ now
      → (s.granted ≡ true → s.last + gap ≤ r.0.last)
      → Reserved gap now s r

wait_turn-Reserved :
    (gap who now : ℕ) (s : SharedPace) → Reserved gap now s (wait_turn gap who now s)
unfolding wait_turn
wait_turn-Reserved gap who now s = turned_away refl refl (λ h. ground arith)

take_slot-Reserved :
    (gap who now : ℕ) (s : SharedPace)
    → is_early gap now s ≡ false
    → Reserved gap now s (take_slot gap who now s, 0)
unfolding slot_start
take_slot-Reserved gap who now s due =
    took_slot refl refl (ground arith) (ground arith) (λ g. ground arith)

reserve_fresh-Reserved :
    (gap who now : ℕ) (s : SharedPace) → Reserved gap now s (reserve_fresh gap who now s)
unfolding reserve_fresh
reserve_fresh-Reserved gap who now s =
    by_branch (Reserved gap now s) (is_early gap now s) (λ _. wait_turn-Reserved gap who now s)
      (λ due.
        by_branch (Reserved gap now s) (is_behind who s) (λ _. wait_turn-Reserved gap who now s)
          (λ _. take_slot-Reserved gap who now s due))

pub reserve_at-Reserved :
    (gap who now : ℕ) (s : SharedPace) → Reserved gap now s (reserve_at gap who now s)
unfolding reserve_at
reserve_at-Reserved gap who now s =
    elim (reserve_fresh-Reserved gap who now (without_stale gap now s)) [
      | turned_away l g p ↦ turned_away l g p
      | took_slot w g near past after ↦ took_slot w g near past after
    ]

module _ (a : FloatArith) (rate : F a) where
  -- How many of the calls `(who, now)` take a slot, at one rate.
  unfoldable pub slots : Option SharedPace → List (ℕ × ℕ) → ℕ
  slots s [] = 0
  slots s ((who, now) ∷ calls) =
      let (t, wait) = reserve a rate who now s in (if wait == 0 then 1 else 0) + slots t calls

  -- The time between two slots.
  abbrev pub slot_gap : ℕ
  slot_gap = interval a (fmax a rate (min_rps a))

  module _ (limited : fle a rate (flit a 0 0) ≡ false) (gap_pos : 0 < slot_gap) where
    reserve_limited :
        (who now : ℕ) (s : SharedPace)
        → reserve a rate who now (some s)
          ≡ (some (reserve_at slot_gap who now s).0, (reserve_at slot_gap who now s).1)
    unfolding reserve
    reserve_limited who now s = rw limited

    counted :
        (k n until : ℕ) (s t : SharedPace) (now wait : ℕ)
        → Reserved slot_gap now s (t, wait)
        → now ≤ until
        → s.granted ≡ true
        → s.last ≤ until
        → (t.granted ≡ true → t.last ≤ until → n * k + t.last ≤ until)
        → k ≡ slot_gap
        → ((if wait == 0 then 1 else 0) + n) * k + s.last ≤ until
    counted k n until s t now wait (turned_away l g pos) h gr lu ih e =
        let p : wait ≢ 0 = omega (arith, pos gap_pos) in ground (arith, ih, p)
    counted k n until s t now wait (took_slot w gr' near past after) h gr lu ih e =
        ground (arith, ih, after gr)

    slots_after :
        (until : ℕ) (s : SharedPace) (calls : List (ℕ × ℕ))
        → s.granted ≡ true
        → s.last ≤ until
        → All (λ (c : ℕ × ℕ). c.1 ≤ until) calls
        → slots (some s) calls * slot_gap + s.last ≤ until
    unfolding slots
    slots_after until s [] g l h = omega arith
    slots_after until s ((who, now) ∷ calls) g l h =
        let r = reserve_at slot_gap who now s in
        rw (reserve_limited who now s) (
          counted slot_gap (slots (some r.0) calls) until s r.0 now r.1
            (reserve_at-Reserved slot_gap who now s) h.0 g l
            (λ g' l'. slots_after until r.0 calls g' l' h.1) refl)

    -- At a rate above 0 the target sees at most the shared rate, or MinRPS where the rate is lower,
    -- however many queues ask: from one slot on, the further slots that are taken up to any later
    -- time, times the gap between two slots at the larger of the two, are at most the time that has
    -- passed and one more gap; where that gap is not 0.
    pub slots_bounded :
        (who first until : ℕ) (s : SharedPace) (calls : List (ℕ × ℕ))
        → (reserve a rate who first (some s)).1 ≡ 0
        → first ≤ until
        → All (λ (c : ℕ × ℕ). c.1 ≤ until) calls
        → slots (reserve a rate who first (some s)).0 calls * slot_gap + first ≤ until + slot_gap
    slots_bounded who first until s calls took h later =
        rw (reserve_limited who first s) (elim (reserve_at-Reserved slot_gap who first s) [
          | turned_away l g p ↦ absurd (
              omega (
                arith,
                p gap_pos,
                ap (λ (r : Option SharedPace × ℕ). r.1) (reserve_limited who first s),
                took,
              ))
          | took_slot w g near past after ↦ omega (
            arith,
            slots_after until (reserve_at slot_gap who first s).0 calls g (omega arith) later,
          )
        ])
