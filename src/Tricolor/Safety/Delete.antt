-- ===== src/Tricolor/Safety/Delete.antt =====
-- The deletion barrier of adv027_gc_tricolor/main.go, with the stack scanned before the mutator
-- runs.
use go_daily_learning.Prelude.{ℕ, ◌≡◌, ◌∙◌, true, Option, some, arith, get_elem?}
use go_daily_learning.Tricolor.{
  barrier_delete, Machine, alloc, shade, write_barrier, start_mark, scan_stack, finish_mark,
  finish_on, write_slot, drain_all, slots_at,
}
use go_daily_learning.Tricolor.Marking.{shade-Shades, shade-IsLit}
use go_daily_learning.Tricolor.Invariant.{IsMarking, IsWeak}
use go_daily_learning.Tricolor.Preserve
use go_daily_learning.Tricolor.Cycle.{
  IsHeld, Step, allocates, stores_heap, stores_stack, scans, marks, Run, Run_inv, store_heap-cases,
  store_stack-cases, start-Shades, start-IsMarking, start-IsStrong,
}
use go_daily_learning.Tricolor.Safety
use go_daily_learning.Tricolor.Reachable.{verify}
use go_daily_learning.Tricolor.Reachable.Lost.{lost-zero}

record IsSnapshot (m : Machine) : Type 0 where
  mode : m.mode ≡ barrier_delete
  collecting : m.collecting ≡ true
  marking : IsMarking m
  weak : IsWeak m

start-IsSnapshot : (m : Machine) → m.mode ≡ barrier_delete → IsSnapshot (scan_stack (start_mark m))
start-IsSnapshot m e =
    let f = (start-Shades m).frame in
    let g = Preserve.scan-SameFrame (start_mark m) in
    record {
      mode = g.mode ∙ f.mode ∙ e;
      collecting = g.collecting ∙ f.collecting;
      marking = Preserve.scan-IsMarking (start_mark m) (start-IsMarking m);
      weak = Preserve.scan-strong-IsWeak (start_mark m) (start-IsStrong m);
    }

barrier-delete :
    (m : Machine) (old src : Option ℕ)
    → m.mode ≡ barrier_delete
    → write_barrier m.mode m old src ≡ shade m old
unfolding write_barrier
barrier-delete m old src e = ground arith

store-IsSnapshot :
    (m : Machine) (d i : ℕ) (old src : Option ℕ)
    → get_elem? (slots_at m.objs d) i ≡ some old
    → IsHeld m src
    → IsSnapshot m
    → IsSnapshot (record (shade m old) { objs = write_slot (shade m old).objs d i src })
store-IsSnapshot m d i old src e k h =
    let s = shade-Shades m old in
    record {
      mode = s.frame.mode ∙ h.mode;
      collecting = s.frame.collecting ∙ h.collecting;
      marking = Safety.stored-IsMarking m _ d i old src s h.marking;
      weak = Safety.stored-IsWeak m _ d i old src s e (shade-IsLit m old) k h.marking h.weak;
    }

Step-IsSnapshot : (m m' : Machine) → Step IsHeld m m' → IsSnapshot m → IsSnapshot m'
Step-IsSnapshot m m' (allocates tag e) h = rw e (record {
  mode = unfold alloc in h.mode;
  collecting = unfold alloc in h.collecting;
  marking = Preserve.alloc-IsMarking m tag h.collecting h.marking;
  weak = Preserve.alloc-IsWeak m tag h.collecting h.weak;
})
Step-IsSnapshot m m' (stores_heap dst i src k e) h =
    let (d, old, g, e') = store_heap-cases m m' dst i src e in
    rw (e', barrier-delete m old src h.mode) (store-IsSnapshot m d i old src g k h)
Step-IsSnapshot m m' (stores_stack i src k e) h = rw (store_stack-cases m m' i src e) (record {
  mode = h.mode;
  collecting = h.collecting;
  marking = record { queued = h.marking.queued; roots = h.marking.roots };
  weak = Preserve.write_stack-IsWeak m i src (Safety.held-Safe m src k h.marking h.weak) h.weak;
})
Step-IsSnapshot m m' (scans e) h =
    let f = Preserve.scan-SameFrame m in
    rw e (record {
      mode = f.mode ∙ h.mode;
      collecting = f.collecting ∙ h.collecting;
      marking = Preserve.scan-IsMarking m h.marking;
      weak = Preserve.scan-IsWeak m h.weak;
    })
Step-IsSnapshot m m' (marks e) h =
    let f = Safety.step-SameFrame m in
    rw e (record {
      mode = f.mode ∙ h.mode;
      collecting = f.collecting ∙ h.collecting;
      marking = Preserve.step-IsMarking m h.marking;
      weak = Preserve.step-IsWeak m h.weak;
    })

finish_mark-delete : (m : Machine) → m.mode ≡ barrier_delete → finish_mark m ≡ drain_all m
unfolding finish_mark finish_on
finish_mark-delete m e = rw (e, finish_on)

-- Under the deletion barrier a cycle that scans the stack right after `startMark`, before the
-- mutator writes anything, loses no live object, over every later interleaving of the mutator with
-- the marker in which each written value is nil, live or already marked.
pub delete_safe_after_scan :
    (m n : Machine)
    → m.mode ≡ barrier_delete
    → Run IsHeld (scan_stack (start_mark m)) n
    → (verify (finish_mark n)).lost ≡ 0
delete_safe_after_scan m n e r =
    let h = Run_inv IsHeld IsSnapshot Step-IsSnapshot _ n (start-IsSnapshot m e) r in
    rw (finish_mark-delete n h.mode)
      ((lost-zero (drain_all n)).1 (Safety.drained-weak n h.marking h.weak))
