-- ===== src/Tricolor/Examples.antt =====
-- The theorems about adv027_gc_tricolor/main.go at the hazard of scenario S2: A is black, the only
-- pointer to B moves from X, not yet scanned, into A.
use go_daily_learning.Prelude.{
  ℕ, ◌<◌, ◌≡◌, refl, subst, inl, ◌↔◌, true, Option, none, some, [], ◌∷◌, arith, Memᴰ, length,
}
use go_daily_learning.Tricolor.{
  Machine, BarrierMode, barrier_hybrid, barrier_delete, barrier_insert_rescan, new_machine, alloc,
  write_slot, color_at, slots_at, paint, shade, shade_all, write_barrier, hybrid_barrier,
  store_heap, start_mark, whiten, scan_stack, step, step_on, drain_all, drain_n, finish_mark,
  finish_on,
}
use go_daily_learning.Tricolor.Invariant.{Live, local}
use go_daily_learning.Tricolor.Cycle.{IsHeld, Anything, scans, marks, stores_heap, Run, here, next}
use go_daily_learning.Tricolor.Reachable.{verify, reachable, seen_at}
use go_daily_learning.Tricolor.Reachable.Exact.{reachable-Live}
use go_daily_learning.Tricolor.Safety.Hybrid.{hybrid_safe}
use go_daily_learning.Tricolor.Safety.Delete.{delete_safe_after_scan}
use go_daily_learning.Tricolor.Safety.Rescan.{insert_rescan_safe}

-- Objects 0 (A), 1 (X) and 2 (B); X points to B, and the stack holds B.
hazard : BarrierMode → Machine
unfolding new_machine alloc write_slot slots_at
hazard mode =
    let m = (alloc (alloc (alloc (new_machine mode) "A").0 "X").0 "B").0 in
    record m {
      globals = some 0 ∷ some 1 ∷ [];
      stack = some 2 ∷ [];
      objs = write_slot m.objs 1 0 (some 2);
    }

or_same : Machine → Option Machine → Machine
or_same m none = m
or_same m (some m') = m'

-- The stack is scanned and A marked.
marked_a : BarrierMode → Machine
marked_a mode = (step (scan_stack (start_mark (hazard mode)))).0

b_stored : BarrierMode → Machine
unfolding or_same
b_stored mode = or_same (marked_a mode) (store_heap (marked_a mode) (some 0) 0 (some 2))

x_cleared : BarrierMode → Machine
unfolding or_same
x_cleared mode = or_same (b_stored mode) (store_heap (b_stored mode) (some 1) 0 none)

nil-IsHeld : (m : Machine) → IsHeld m none
nil-IsHeld m v e = ground arith

local-IsHeld : (m : Machine) (u : ℕ) → Live m u → IsHeld m (some u)
local-IsHeld m u l v e = let q : u ≡ v = cc e in inl (subst (Live m) q l)

hybrid-Run : Run IsHeld (start_mark (hazard barrier_hybrid)) (x_cleared barrier_hybrid)
unfolding hazard or_same marked_a b_stored x_cleared new_machine alloc shade shade_all write_barrier
    hybrid_barrier store_heap start_mark whiten scan_stack step step_on drain_n drain_all finish_on
    finish_mark write_slot color_at slots_at paint
hybrid-Run =
    next
      (next (next (next here (scans refl)) (marks refl))
        (stores_heap (some 0) 0 (some 2) (local-IsHeld _ 2 (local (Memᴰ.head refl))) refl))
      (stores_heap (some 1) 0 none (nil-IsHeld _) refl)

delete-Run : Run IsHeld (scan_stack (start_mark (hazard barrier_delete))) (x_cleared barrier_delete)
unfolding hazard or_same marked_a b_stored x_cleared new_machine alloc shade shade_all write_barrier
    hybrid_barrier store_heap start_mark whiten scan_stack step step_on drain_n drain_all finish_on
    finish_mark write_slot color_at slots_at paint
delete-Run =
    next
      (next (next here (marks refl))
        (stores_heap (some 0) 0 (some 2) (local-IsHeld _ 2 (local (Memᴰ.head refl))) refl))
      (stores_heap (some 1) 0 none (nil-IsHeld _) refl)

rescan-Run :
    Run Anything (start_mark (hazard barrier_insert_rescan)) (x_cleared barrier_insert_rescan)
unfolding hazard or_same marked_a b_stored x_cleared new_machine alloc shade shade_all write_barrier
    hybrid_barrier store_heap start_mark whiten scan_stack step step_on drain_n drain_all finish_on
    finish_mark write_slot color_at slots_at paint
rescan-Run =
    next
      (next (next (next here (scans refl)) (marks refl)) (stores_heap (some 0) 0 (some 2) tt refl))
      (stores_heap (some 1) 0 none tt refl)

x_cleared-scanned : (x_cleared barrier_hybrid).stack_scanned ≡ true
unfolding hazard or_same marked_a b_stored x_cleared new_machine alloc shade shade_all write_barrier
    hybrid_barrier store_heap start_mark whiten scan_stack step step_on drain_n drain_all finish_on
    finish_mark write_slot color_at slots_at paint
x_cleared-scanned = refl

hybrid_safe_example : (verify (finish_mark (x_cleared barrier_hybrid))).lost ≡ 0
unfolding hazard new_machine alloc
hybrid_safe_example =
    hybrid_safe (hazard barrier_hybrid) (x_cleared barrier_hybrid) refl refl hybrid-Run
      x_cleared-scanned

delete_safe_example : (verify (finish_mark (x_cleared barrier_delete))).lost ≡ 0
unfolding hazard new_machine alloc
delete_safe_example =
    delete_safe_after_scan (hazard barrier_delete) (x_cleared barrier_delete) refl delete-Run

rescan_safe_example : (verify (finish_mark (x_cleared barrier_insert_rescan))).lost ≡ 0
unfolding hazard new_machine alloc
rescan_safe_example =
    insert_rescan_safe (hazard barrier_insert_rescan) (x_cleared barrier_insert_rescan) refl
      rescan-Run

three_objects : 2 < length (hazard barrier_hybrid).objs
unfolding hazard or_same marked_a b_stored x_cleared new_machine alloc shade shade_all write_barrier
    hybrid_barrier store_heap start_mark whiten scan_stack step step_on drain_n drain_all finish_on
    finish_mark write_slot color_at slots_at paint
three_objects = omega arith

reachable_example :
    (seen_at (reachable (hazard barrier_hybrid)) 2 ≡ true) ↔ Live (hazard barrier_hybrid) 2
reachable_example = reachable-Live (hazard barrier_hybrid) 2 three_objects
