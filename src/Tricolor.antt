-- ===== src/Tricolor.antt =====
-- adv027_gc_tricolor/main.go, lines 27 to 258: the tri-colour marking simulator. A `*node` is the
-- index of the object in `objs`, `nil` is `none`, and a panic is `none` in the result of an
-- operation. The counters are Go ints, taken as unbounded numbers.
mod Examples
pub mod Heap
pub mod Marking
pub mod Drain
pub mod Invariant
pub mod Preserve
pub mod Reachable
pub mod Cycle
pub mod Safety
pub mod Scenarios
use Prim.Native.String.{String}
use go_daily_learning.Prelude.{
  ℕ, zero, suc, ◌+◌, Bool, true, false, Option, none, some, List, [], ◌∷◌, ◌++◌, length, get_elem?,
  set,
}

pub data Color : Type 0 where
  white grey black : Color

pub data BarrierMode : Type 0 where
  barrier_none barrier_insert barrier_delete barrier_hybrid barrier_insert_rescan : BarrierMode

pub record Node : Type 0 where
  pub tag : String
  pub color : Color
  pub slots : List (Option ℕ)

pub record Machine : Type 0 where
  pub mode : BarrierMode
  pub objs : List Node
  pub globals : List (Option ℕ)
  pub stack : List (Option ℕ)
  pub stack_scanned : Bool
  pub collecting : Bool
  pub work : List ℕ
  pub shade_calls : ℕ
  pub scanned : ℕ
  pub stack_scans : ℕ

-- Reads and writes through a pointer. No pointer of the source is out of range: the value there
-- (black, with no slots) is chosen so that no operation does anything with it.
pub color_at : List Node → ℕ → Color
color_at [] p = black
color_at (n ∷ ns) zero = n.color
color_at (n ∷ ns) (suc p) = color_at ns p

pub slots_at : List Node → ℕ → List (Option ℕ)
slots_at [] p = []
slots_at (n ∷ ns) zero = n.slots
slots_at (n ∷ ns) (suc p) = slots_at ns p

pub paint : List Node → ℕ → Color → List Node
paint [] p c = []
paint (n ∷ ns) zero c = record n { color = c } ∷ ns
paint (n ∷ ns) (suc p) c = n ∷ paint ns p c

pub write_slot : List Node → ℕ → ℕ → Option ℕ → List Node
write_slot [] p i v = []
write_slot (n ∷ ns) zero i v = record n { slots = set n.slots i v } ∷ ns
write_slot (n ∷ ns) (suc p) i v = n ∷ write_slot ns p i v

pub new_machine : BarrierMode → Machine
new_machine mode = record {
  mode = mode;
  objs = [];
  globals = [];
  stack = [];
  stack_scanned = false;
  collecting = false;
  work = [];
  shade_calls = 0;
  scanned = 0;
  stack_scans = 0;
}

abbrev pub fresh_color : Bool → Color
fresh_color true = black
fresh_color false = white

-- The pointer of the new object is the length of `objs` before the call.
pub alloc : Machine → String → Machine × ℕ
alloc m tag =
    let n : Node = record { tag = tag; color = fresh_color m.collecting; slots = none ∷ [] } in
    (record m { objs = m.objs ++ n ∷ [] }, length m.objs)

pub shade : Machine → Option ℕ → Machine
shade m none = m
shade m (some p) = elim (color_at m.objs p) [
  | white ↦ record m {
    shade_calls = suc m.shade_calls;
    objs = paint m.objs p grey;
    work = m.work ++ p ∷ [];
  }
  | _ ↦ record m { shade_calls = suc m.shade_calls }
]

-- The loops `for _, x := range xs { m.shade(x) }`.
pub shade_all : Machine → List (Option ℕ) → Machine
shade_all m [] = m
shade_all m (p ∷ ps) = shade_all (shade m p) ps

pub hybrid_barrier : Bool → Machine → Option ℕ → Option ℕ → Machine
hybrid_barrier true m old src = shade m old
hybrid_barrier false m old src = shade (shade m old) src

-- The `switch m.mode` of `storeHeap`.
pub write_barrier : BarrierMode → Machine → Option ℕ → Option ℕ → Machine
write_barrier barrier_none m old src = m
write_barrier barrier_insert m old src = shade m src
write_barrier barrier_insert_rescan m old src = shade m src
write_barrier barrier_delete m old src = shade m old
write_barrier barrier_hybrid m old src = hybrid_barrier m.stack_scanned m old src

pub load_heap : Machine → Option ℕ → ℕ → Option (Option ℕ)
load_heap m none i = none
load_heap m (some p) i = get_elem? (slots_at m.objs p) i

pub store_heap : Machine → Option ℕ → ℕ → Option ℕ → Option Machine
store_heap m none i src = none
store_heap m (some dst) i src = elim (get_elem? (slots_at m.objs dst) i) [
  | none ↦ none
  | some old ↦
      let m' = write_barrier m.mode m old src in
      some (record m' { objs = write_slot m'.objs dst i src })
]

pub store_stack : Machine → ℕ → Option ℕ → Option Machine
store_stack m i src = elim (get_elem? m.stack i) [
  | none ↦ none
  | some _ ↦ some (record m { stack = set m.stack i src })
]

pub whiten : List Node → List Node
whiten [] = []
whiten (n ∷ ns) = record n { color = white } ∷ whiten ns

pub start_mark : Machine → Machine
start_mark m = shade_all (record m { collecting = true; objs = whiten m.objs }) m.globals

pub scan_stack : Machine → Machine
scan_stack m =
    shade_all (record m { stack_scans = suc m.stack_scans; stack_scanned = true }) m.stack

-- One grey object is scanned; the flag says whether there was one.
pub step_on : Machine → List ℕ → Machine × Bool
step_on m [] = (m, false)
step_on m (n ∷ rest) =
    let m' = shade_all (record m { work = rest }) (slots_at m.objs n) in
    (record m' { objs = paint m'.objs n black; scanned = suc m'.scanned }, true)

pub step : Machine → Machine × Bool
step m = step_on m m.work

pub drain_n : ℕ → Machine → Machine
drain_n zero m = m
drain_n (suc limit) m = elim (step m).1 [ true ↦ drain_n limit (step m).0 | false ↦ (step m).0 ]

-- `for m.step() {}`, on fuel: one round for each object and for each entry of the work list.
pub drain_all : Machine → Machine
drain_all m = drain_n (length m.objs + length m.work) m

pub finish_on : BarrierMode → Machine → Machine
finish_on barrier_insert_rescan m = drain_all (scan_stack (record m { stack_scanned = false }))
finish_on _ m = drain_all m

pub finish_mark : Machine → Machine
finish_mark m = finish_on m.mode m
