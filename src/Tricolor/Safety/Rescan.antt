-- ===== src/Tricolor/Safety/Rescan.antt =====
-- The insertion barrier with a rescan of the stack, of adv027_gc_tricolor/main.go.
use go_daily_learning.Prelude.{ℕ, ◌≡◌, ◌∙◌, true, false, Option, arith}
use go_daily_learning.Tricolor.{
  barrier_insert_rescan, Machine, alloc, shade, write_barrier, start_mark, scan_stack, finish_mark,
  finish_on, write_slot, drain_all,
}
use go_daily_learning.Tricolor.Marking.{shade-Shades, shade-IsLit}
use go_daily_learning.Tricolor.Invariant.{IsMarking, IsStrong}
use go_daily_learning.Tricolor.Preserve
use go_daily_learning.Tricolor.Cycle.{
  Anything, Step, allocates, stores_heap, stores_stack, scans, marks, Run, Run_inv,
  store_heap-cases, store_stack-cases, start-Shades, start-IsMarking, start-IsStrong,
}
use go_daily_learning.Tricolor.Safety
use go_daily_learning.Tricolor.Reachable.{verify}
use go_daily_learning.Tricolor.Reachable.Lost.{lost-zero}

record IsInsert (m : Machine) : Type 0 where
  mode : m.mode ≡ barrier_insert_rescan
  collecting : m.collecting ≡ true
  marking : IsMarking m
  strong : IsStrong m

start-IsInsert : (m : Machine) → m.mode ≡ barrier_insert_rescan → IsInsert (start_mark m)
start-IsInsert m e =
    let f = (start-Shades m).frame in
    record {
      mode = f.mode ∙ e;
      collecting = f.collecting;
      marking = start-IsMarking m;
      strong = start-IsStrong m;
    }

barrier-insert :
    (m : Machine) (old src : Option ℕ)
    → m.mode ≡ barrier_insert_rescan
    → write_barrier m.mode m old src ≡ shade m src
unfolding write_barrier
barrier-insert m old src e = ground arith

store-IsInsert :
    (m : Machine) (d i : ℕ) (old src : Option ℕ)
    → IsInsert m
    → IsInsert (record (shade m src) { objs = write_slot (shade m src).objs d i src })
store-IsInsert m d i old src h =
    let s = shade-Shades m src in
    record {
      mode = s.frame.mode ∙ h.mode;
      collecting = s.frame.collecting ∙ h.collecting;
      marking = Safety.stored-IsMarking m _ d i old src s h.marking;
      strong = Safety.stored-IsStrong m _ d i old src s (shade-IsLit m src) h.strong;
    }

Step-IsInsert : (m m' : Machine) → Step Anything m m' → IsInsert m → IsInsert m'
Step-IsInsert m m' (allocates tag e) h = rw e (record {
  mode = unfold alloc in h.mode;
  collecting = unfold alloc in h.collecting;
  marking = Preserve.alloc-IsMarking m tag h.collecting h.marking;
  strong = Preserve.alloc-IsStrong m tag h.collecting h.strong;
})
Step-IsInsert m m' (stores_heap dst i src k e) h =
    let (d, old, g, e') = store_heap-cases m m' dst i src e in
    rw (e', barrier-insert m old src h.mode) (store-IsInsert m d i old src h)
Step-IsInsert m m' (stores_stack i src k e) h = rw (store_stack-cases m m' i src e) (record {
  mode = h.mode;
  collecting = h.collecting;
  marking = record { queued = h.marking.queued; roots = h.marking.roots };
  strong = h.strong;
})
Step-IsInsert m m' (scans e) h =
    let f = Preserve.scan-SameFrame m in
    rw e (record {
      mode = f.mode ∙ h.mode;
      collecting = f.collecting ∙ h.collecting;
      marking = Preserve.scan-IsMarking m h.marking;
      strong = Preserve.scan-IsStrong m h.strong;
    })
Step-IsInsert m m' (marks e) h =
    let f = Safety.step-SameFrame m in
    rw e (record {
      mode = f.mode ∙ h.mode;
      collecting = f.collecting ∙ h.collecting;
      marking = Preserve.step-IsMarking m h.marking;
      strong = Preserve.step-IsStrong m h.strong;
    })

abbrev unscanned : Machine → Machine
unscanned m = record m { stack_scanned = false }

finish_mark-rescan :
    (m : Machine)
    → m.mode ≡ barrier_insert_rescan
    → finish_mark m ≡ drain_all (scan_stack (unscanned m))
unfolding finish_mark finish_on
finish_mark-rescan m e = rw (e, finish_on)

-- Under the insertion barrier with a rescan a cycle loses no live object, over every interleaving
-- of the mutator with the marker, whatever the mutator writes and whether or not the stack was
-- scanned before `finishMark`.
pub insert_rescan_safe :
    (m n : Machine)
    → m.mode ≡ barrier_insert_rescan
    → Run Anything (start_mark m) n
    → (verify (finish_mark n)).lost ≡ 0
insert_rescan_safe m n e r =
    let h = Run_inv Anything IsInsert Step-IsInsert (start_mark m) n (start-IsInsert m e) r in
    let i : IsMarking (unscanned n) = record {
      queued = h.marking.queued;
      roots = h.marking.roots;
    } in
    rw (finish_mark-rescan n h.mode) (
      (lost-zero _).1 (
        Safety.drained-strong (scan_stack (unscanned n)) (Preserve.scan-IsMarking (unscanned n) i)
          (Preserve.scan-IsStrong (unscanned n) h.strong) (Preserve.scan-locals (unscanned n))))
