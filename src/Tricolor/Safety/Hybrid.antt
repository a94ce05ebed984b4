-- ===== src/Tricolor/Safety/Hybrid.antt =====
-- The hybrid barrier of adv027_gc_tricolor/main.go.
use go_daily_learning.Prelude.{
  ℕ, ◌≡◌, ◌∙◌, ◌⊎◌, inl, inr, true, false, Option, some, arith, get_elem?,
}
use go_daily_learning.Tricolor.{
  barrier_hybrid, Machine, alloc, shade, write_barrier, hybrid_barrier, start_mark, finish_mark,
  finish_on, write_slot, drain_all, slots_at,
}
use go_daily_learning.Tricolor.Marking.{Shades-trans, shade-Shades, shade-IsLit}
use go_daily_learning.Tricolor.Invariant.{IsMarking, IsStrong, IsWeak}
use go_daily_learning.Tricolor.Preserve
use go_daily_learning.Tricolor.Cycle.{
  IsHeld, Step, allocates, stores_heap, stores_stack, scans, marks, Run, Run_inv, store_heap-cases,
  store_stack-cases, start-Shades, start-IsMarking, start-IsStrong,
}
use go_daily_learning.Tricolor.Safety
use go_daily_learning.Tricolor.Reachable.{verify}
use go_daily_learning.Tricolor.Reachable.Lost.{lost-zero}

-- The stack is grey and the strong invariant holds, or it is black and the weak one does.
pub record IsHybrid (m : Machine) : Type 0 where
  pub mode : m.mode ≡ barrier_hybrid
  pub collecting : m.collecting ≡ true
  pub marking : IsMarking m
  pub phase : (m.stack_scanned ≡ false) × IsStrong m ⊎ (m.stack_scanned ≡ true) × IsWeak m

start-IsHybrid :
    (m : Machine) → m.mode ≡ barrier_hybrid → m.stack_scanned ≡ false → IsHybrid (start_mark m)
start-IsHybrid m e g =
    let f = (start-Shades m).frame in
    record {
      mode = f.mode ∙ e;
      collecting = f.collecting;
      marking = start-IsMarking m;
      phase = inl (f.stack_scanned ∙ g, start-IsStrong m);
    }

barrier_grey :
    (m : Machine) (old src : Option ℕ)
    → m.mode ≡ barrier_hybrid
    → m.stack_scanned ≡ false
    → write_barrier m.mode m old src ≡ shade (shade m old) src
unfolding write_barrier hybrid_barrier
barrier_grey m old src e g = ground arith

barrier_black :
    (m : Machine) (old src : Option ℕ)
    → m.mode ≡ barrier_hybrid
    → m.stack_scanned ≡ true
    → write_barrier m.mode m old src ≡ shade m old
unfolding write_barrier hybrid_barrier
barrier_black m old src e g = ground arith

module _ (m : Machine) (d i : ℕ) (old src : Option ℕ) where
  abbrev wrote : Machine → Machine
  wrote b = record b { objs = write_slot b.objs d i src }

  store_grey :
      IsHybrid m → m.stack_scanned ≡ false → IsStrong m → IsHybrid (wrote (shade (shade m old) src))
  store_grey h g s =
      let both = Shades-trans (shade-Shades m old) (shade-Shades (shade m old) src) in
      record {
        mode = both.frame.mode ∙ h.mode;
        collecting = both.frame.collecting ∙ h.collecting;
        marking = Safety.stored-IsMarking m _ d i old src both h.marking;
        phase = inl (
          both.frame.stack_scanned ∙ g,
          Safety.stored-IsStrong m _ d i old src both (shade-IsLit (shade m old) src) s,
        );
      }

  store_black :
      IsHybrid m
      → m.stack_scanned ≡ true
      → get_elem? (slots_at m.objs d) i ≡ some old
      → IsHeld m src
      → IsWeak m
      → IsHybrid (wrote (shade m old))
  store_black h g e k w =
      let s = shade-Shades m old in
      record {
        mode = s.frame.mode ∙ h.mode;
        collecting = s.frame.collecting ∙ h.collecting;
        marking = Safety.stored-IsMarking m _ d i old src s h.marking;
        phase = inr (
          s.frame.stack_scanned ∙ g,
          Safety.stored-IsWeak m _ d i old src s e (shade-IsLit m old) k h.marking w,
        );
      }

  store-IsHybrid :
      get_elem? (slots_at m.objs d) i ≡ some old
      → IsHeld m src
      → IsHybrid m
      → IsHybrid (wrote (write_barrier m.mode m old src))
  store-IsHybrid e k h = elim h.phase [
    | inl (g, s) ↦ rw (barrier_grey m old src h.mode g) (store_grey h g s)
    | inr (g, w) ↦ rw (barrier_black m old src h.mode g) (store_black h g e k w)
  ]

-- Every action keeps the invariant of the hybrid barrier.
Step-IsHybrid : (m m' : Machine) → Step IsHeld m m' → IsHybrid m → IsHybrid m'
Step-IsHybrid m m' (allocates tag e) h = rw e (record {
  mode = unfold alloc in h.mode;
  collecting = unfold alloc in h.collecting;
  marking = Preserve.alloc-IsMarking m tag h.collecting h.marking;
  phase = elim h.phase [
    | inl (g, s) ↦ inl (unfold alloc in g, Preserve.alloc-IsStrong m tag h.collecting s)
    | inr (g, w) ↦ inr (unfold alloc in g, Preserve.alloc-IsWeak m tag h.collecting w)
  ];
})
Step-IsHybrid m m' (stores_heap dst i src k e) h =
    let (d, old, g, e') = store_heap-cases m m' dst i src e in
    rw e' (store-IsHybrid m d i old src g k h)
Step-IsHybrid m m' (stores_stack i src k e) h = rw (store_stack-cases m m' i src e) (record {
  mode = h.mode;
  collecting = h.collecting;
  marking = record { queued = h.marking.queued; roots = h.marking.roots };
  phase = elim h.phase [
    | inl p ↦ inl p
    | inr (g, w) ↦
        inr (g, Preserve.write_stack-IsWeak m i src (Safety.held-Safe m src k h.marking w) w)
  ];
})
Step-IsHybrid m m' (scans e) h =
    let f = Preserve.scan-SameFrame m in
    rw e (record {
      mode = f.mode ∙ h.mode;
      collecting = f.collecting ∙ h.collecting;
      marking = Preserve.scan-IsMarking m h.marking;
      phase = inr (
        f.stack_scanned,
        elim h.phase [
          | inl (g, s) ↦ Preserve.scan-strong-IsWeak m s
          | inr (g, w) ↦ Preserve.scan-IsWeak m w
        ],
      );
    })
Step-IsHybrid m m' (marks e) h =
    let f = Safety.step-SameFrame m in
    rw e (record {
      mode = f.mode ∙ h.mode;
      collecting = f.collecting ∙ h.collecting;
      marking = Preserve.step-IsMarking m h.marking;
      phase = elim h.phase [
        | inl (g, s) ↦ inl (f.stack_scanned ∙ g, Preserve.step-IsStrong m s)
        | inr (g, w) ↦ inr (f.stack_scanned ∙ g, Preserve.step-IsWeak m w)
      ];
    })

finish_mark-hybrid : (m : Machine) → m.mode ≡ barrier_hybrid → finish_mark m ≡ drain_all m
unfolding finish_mark finish_on
finish_mark-hybrid m e = rw (e, finish_on)

-- Under the hybrid barrier a cycle that starts with `stackScanned` false, as in a new machine, and
-- has scanned the stack by its end loses no live object: from any heap, over every interleaving of
-- allocations, heap writes, stack writes, stack scans and marker steps, as long as each value the
-- mutator writes is nil, live or already marked. (`startMark` does not reset `stackScanned`.)
pub hybrid_safe :
    (m n : Machine)
    → m.mode ≡ barrier_hybrid
    → m.stack_scanned ≡ false
    → Run IsHeld (start_mark m) n
    → n.stack_scanned ≡ true
    → (verify (finish_mark n)).lost ≡ 0
hybrid_safe m n e g r done =
    let h = Run_inv IsHeld IsHybrid Step-IsHybrid (start_mark m) n (start-IsHybrid m e g) r in
    elim h.phase [
      | inl (grey_stack, _) ↦ cc
      | inr (_, w) ↦
          rw (finish_mark-hybrid n h.mode)
            ((lost-zero (drain_all n)).1 (Safety.drained-weak n h.marking w))
    ]
