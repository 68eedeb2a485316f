-- ===== src/Dispatch/Recovery/Reload.antt =====
-- internal/dispatch/paged_recovery.go, reloadAfterPanic: what the queue reads again is not counted
-- again.
use Prim.Native.String.{String}
use aquifer.Base.{◌≡◌, ◌⊎◌, Bool, true, not, ◌&&◌, ◌||◌, arith}
use aquifer.Jobs.Defs.{Job, covers}
use aquifer.Dispatch.Recovery.Defs.{SpillSource, counts, restarted}

module _ (id_le : String → String → Bool)
    (id_total : (x y : String) → (id_le x y ≡ true) ⊎ (id_le y x ≡ true))
    (id_trans : (x y z : String) → id_le x y ≡ true → id_le y z ≡ true → id_le x z ≡ true) where
  covers-restarted :
      (src : SpillSource) (j : Job)
      → covers id_le (restarted id_le src).consumed_through j
        ≡ (covers id_le src.consumed_through j || covers id_le src.after j)
  unfolding restarted covers
  covers-restarted src j = ground (
    arith,
    id_total j.id src.after.cursor_id,
    id_trans j.id src.after.cursor_id src.consumed_through.cursor_id,
    id_total src.after.cursor_id src.consumed_through.cursor_id,
    id_trans j.id src.consumed_through.cursor_id src.after.cursor_id,
  )

  -- After a source starts over, a row counts against what it reserved exactly when it did before and
  -- the source had not served it: no row is counted twice, and no other row is forgotten.
  pub counts-restarted :
      (src : SpillSource) (j : Job)
      → counts id_le (restarted id_le src) j
        ≡ (counts id_le src j && not (covers id_le src.after j))
  unfolding counts restarted
  counts-restarted src j = ground (arith, covers-restarted src j)
