-- ===== src/Tricolor/Cycle.antt =====
-- A mark cycle of adv027_gc_tricolor/main.go: `startMark`, then the actions of the mutator and the
-- marker in any order, as a step relation over the operations of the simulator.
use Prim.Native.String.{String}
use mathlib.Core.List.Memᴰ
use go_daily_learning.Prelude.{
  ℕ, ◌≡◌, subst, ◌≢◌, ◌⊎◌, inl, inr, true, Option, none, some, arith, Memᴰ, get_elem?, set,
  Option-cases,
}
use go_daily_learning.Tricolor.{
  white, Machine, color_at, slots_at, write_slot, whiten, alloc, store_heap, store_stack,
  write_barrier, start_mark, scan_stack, step,
}
use go_daily_learning.Tricolor.Heap.{color-whiten}
use go_daily_learning.Tricolor.Marking.{Shades, shade_all-Shades, shade_all-lit}
use go_daily_learning.Tricolor.Invariant.{Live, IsMarking, IsStrong}
use go_daily_learning.Tricolor.Preserve

-- What the mutator may hold: nil, a live object, or one that is marked already, such as an object
-- allocated during the cycle.
abbrev pub IsHeld : Machine → Option ℕ → Type 0
IsHeld m p = (v : ℕ) → p ≡ some v → Live m v ⊎ (color_at m.objs v ≢ white)

abbrev pub Anything : Machine → Option ℕ → Type 0
Anything m p = Unit

-- One action of the mutator or of the marker. `H` says which values the mutator stores.
pub data Step (H : Machine → Option ℕ → Type 0) (m m' : Machine) : Type 0 where
  allocates : (tag : String) → m' ≡ (alloc m tag).0 → Step H m m'
  stores_heap :
      (dst : Option ℕ) (i : ℕ) (src : Option ℕ)
      → H m src
      → store_heap m dst i src ≡ some m'
      → Step H m m'
  stores_stack : (i : ℕ) (src : Option ℕ) → H m src → store_stack m i src ≡ some m' → Step H m m'
  scans : m' ≡ scan_stack m → Step H m m'
  marks : m' ≡ (step m).0 → Step H m m'

pub data Run (H : Machine → Option ℕ → Type 0) (m : Machine) : Machine → Type 0 where
  here : Run H m m
  next : {t u : Machine} → Run H m t → Step H t u → Run H m u

pub Run_inv {ℓ} :
    (H : Machine → Option ℕ → Type 0) (P : Machine → Type ℓ)
    → ((m m' : Machine) → Step H m m' → P m → P m')
    → (m m' : Machine) → P m
    → Run H m m'
    → P m'
Run_inv H P keep m m' h here = h
Run_inv H P keep m m' h (next {t} r s) = keep t m' s (Run_inv H P keep m t h r)

-- Inversion of the two writes.
pub store_heap-cases :
    (m m' : Machine) (dst : Option ℕ) (i : ℕ) (src : Option ℕ)
    → store_heap m dst i src ≡ some m'
    → (d : ℕ) × (old : Option ℕ) × (get_elem? (slots_at m.objs d) i ≡ some old)
      × (m' ≡ record (write_barrier m.mode m old src) {
        objs = write_slot (write_barrier m.mode m old src).objs d i src;
      })
unfolding store_heap
store_heap-cases m m' none i src h = cc
store_heap-cases m m' (some d) i src h = elim (Option-cases (get_elem? (slots_at m.objs d) i)) [
  | inl e ↦ ground arith
  | inr (old, e) ↦ (d, old, e, ground arith)
]

pub store_stack-cases :
    (m m' : Machine) (i : ℕ) (src : Option ℕ)
    → store_stack m i src ≡ some m'
    → m' ≡ record m { stack = set m.stack i src }
unfolding store_stack
store_stack-cases m m' i src h = ground arith

-- The start of a cycle.
pub start-Shades :
    (m : Machine) → Shades (record m { collecting = true; objs = whiten m.objs }) (start_mark m)
unfolding start_mark
start-Shades m = shade_all-Shades (record m { collecting = true; objs = whiten m.objs }) m.globals

pub start-IsMarking : (m : Machine) → IsMarking (start_mark m)
start-IsMarking m = record {
  queued = λ u.
      (start-Shades m).queue u (λ g. elim (color-whiten m.objs u) [ inl w ↦ cc | inr (b, _) ↦ cc ]);
  roots = λ v k.
      let k' : Memᴰ (some v) m.globals = subst (Memᴰ (some v)) (start-Shades m).frame.globals k in
      unfold start_mark in
      shade_all-lit (record m { collecting = true; objs = whiten m.objs }) m.globals v k';
}

pub start-IsStrong : (m : Machine) → IsStrong (start_mark m)
start-IsStrong m =
    Preserve.Shades-IsStrong {a = record m { collecting = true; objs = whiten m.objs }}
      (start-Shades m)
      (λ u v d e. elim (color-whiten m.objs u) [
        | inl w ↦ cc
        | inr (_, no_slots) ↦ absurd (Memᴰ.not-nil (subst (Memᴰ (some v)) no_slots e))
      ])
