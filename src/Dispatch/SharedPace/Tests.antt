-- ===== src/Dispatch/SharedPace/Tests.antt =====
-- internal/dispatch/shared_pace.go: runs at concrete inputs, and the theorems there.
use aquifer.Base.{ℕ, ◌+◌, ◌*◌, ◌≤◌, ◌≡◌, ◌↔◌, refl, true, some, List, [], ◌∷◌, arith}
use aquifer.Base.Dict.{lookup, nat_keys}
use aquifer.Base.Float.{milli, flit}
use aquifer.Dispatch.SharedPace.Defs.{
  SharedPace, new_shared_pace, reserve, reserve_at, forget_stale, wait_turn, behind,
}
use aquifer.Dispatch.SharedPace.Bounds.{slots, slots_bounded}
use aquifer.Dispatch.SharedPace.Turns.{FirstInLine, asking, reserve_turn, turned_away_keeps_place}

-- Ten a second: a slot each 100 ms. Queue 1 waits since 40 ms, queue 2 since 60 ms.
abbrev busy : SharedPace
busy = record {
  last = 1_000_000_000;
  granted = true;
  waiting =
      (2, record { since = 1_060_000_000; asked = 1_060_000_000 })
      ∷ (1, record { since = 1_040_000_000; asked = 1_040_000_000 })
      ∷ [];
}

second_waits : (reserve_at 100_000_000 2 1_100_000_000 busy).1 ≡ 5_000_000
unfolding reserve_at wait_turn forget_stale behind lookup
second_waits = refl

calls : List (ℕ × ℕ)
calls = (1, 1_000_050_000) ∷ (1, 1_100_000_000) ∷ (2, 1_200_000_000) ∷ []

slots_bounded_example :
    slots milli
          (flit milli 10 0)
          (reserve milli (flit milli 10 0) 7 1_000_000_000 (some new_shared_pace)).0
          calls
        * 100_000_000
      + 1_000_000_000
    ≤ 1_300_000_000
unfolding reserve reserve_at forget_stale behind lookup new_shared_pace calls
slots_bounded_example =
    slots_bounded milli (flit milli 10 0) refl (omega arith) 7 1_000_000_000 1_200_000_000
      new_shared_pace calls refl (omega arith) (omega arith)

reserve_turn_example : ((reserve_at 100_000_000 1 1_100_000_000 busy).1 ≡ 0) ↔ (
    (busy.granted ≡ true → busy.last + 100_000_000 ≤ 1_100_000_000)
    × FirstInLine 1
        (lookup 1 (asking 100_000_000 1_100_000_000 busy))
        (asking 100_000_000 1_100_000_000 busy))
reserve_turn_example = reserve_turn 100_000_000 1 1_100_000_000 busy (omega arith)

turned_away_keeps_place_example :
    lookup 2 (reserve_at 100_000_000 2 1_100_000_000 busy).0.waiting
    ≡ some (record { since = 1_060_000_000; asked = 1_100_000_000 })
unfolding reserve_at wait_turn forget_stale behind lookup
turned_away_keeps_place_example =
    turned_away_keeps_place 100_000_000 2 1_100_000_000 busy (omega arith) 2
