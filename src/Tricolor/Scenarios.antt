-- ===== src/Tricolor/Scenarios.antt =====
-- The five scenarios and their verdicts: adv027_gc_tricolor/main.go, lines 268 to 419. Before
-- `startMark` a scenario writes slots and roots directly, with no barrier. A panic is `none`.
use go_daily_learning.Prelude.{
  ℕ, suc, ◌≡◌, refl, ◌↔◌, ◌⊎◌, Bool, true, Option, none, some, List, [], ◌∷◌, ◌++◌, arith, ltb,
  if◌then◌else◌,
}
use go_daily_learning.Tricolor.{
  BarrierMode, barrier_none, barrier_insert, barrier_delete, barrier_hybrid, barrier_insert_rescan,
  Machine, new_machine, alloc, shade, shade_all, write_barrier, hybrid_barrier, load_heap,
  store_heap, store_stack, start_mark, whiten, scan_stack, step, step_on, drain_n, drain_all,
  finish_on, finish_mark, write_slot, color_at, slots_at, paint,
}
use go_daily_learning.Tricolor.Reachable.{Verdict, verify}

infixl 5 ◌>>=◌
abbrev ◌>>=◌ {ℓ κ} : {A : Type ℓ} {B : Type κ} → Option A → (A → Option B) → Option B
none >>= f = none
some a >>= f = f a

-- `n.slots[0] = v` before marking.
abbrev link : Machine → ℕ → ℕ → Machine
link m p v = record m { objs = write_slot m.objs p 0 (some v) }

abbrev roots : Machine → List (Option ℕ) → List (Option ℕ) → Machine
roots m globals stack = record m { globals = m.globals ++ globals; stack = m.stack ++ stack }

-- S1: no dangerous move of an edge.
pub scenario_quiet : BarrierMode → Option Machine
scenario_quiet mode =
    let (m1, a) = alloc (new_machine mode) "A" in
    let (m2, b) = alloc m1 "B" in
    let m3 = roots (link m2 a b) (some a ∷ []) (none ∷ []) in
    let m4 = drain_all (scan_stack (start_mark m3)) in
    do
      local ← load_heap m4 (some a) 0
      m5 ← store_stack m4 0 local
      m6 ← store_heap m5 (some a) 0 local
      some (finish_mark m6)

-- S2: B moves within the heap, from X to the black A.
pub scenario_heap_hazard : BarrierMode → Option Machine
scenario_heap_hazard mode =
    let (m1, a) = alloc (new_machine mode) "A" in
    let (m2, x) = alloc m1 "X" in
    let (m3, b) = alloc m2 "B" in
    let m4 = roots (link m3 x b) (some a ∷ some x ∷ []) (none ∷ []) in
    let m5 = drain_n 1 (scan_stack (start_mark m4)) in
    do
      local ← load_heap m5 (some x) 0
      m6 ← store_stack m5 0 local
      m7 ← store_heap m6 (some x) 0 none
      m8 ← store_heap m7 (some a) 0 local
      some (finish_mark m8)

-- S3: B moves from the stack, not yet scanned, to the black A.
pub scenario_stack_grey : BarrierMode → Option Machine
scenario_stack_grey mode =
    let (m1, a) = alloc (new_machine mode) "A" in
    let (m2, b) = alloc m1 "B" in
    let m3 = drain_all (start_mark (roots m2 (some a ∷ []) (some b ∷ []))) in
    do
      m4 ← store_heap m3 (some a) 0 (some b)
      m5 ← store_stack m4 0 none
      some (finish_mark (scan_stack m5))

-- S4: B moves from X, not yet scanned, to the black stack.
pub scenario_stack_black : BarrierMode → Option Machine
scenario_stack_black mode =
    let (m1, keep) = alloc (new_machine mode) "keep" in
    let (m2, x) = alloc m1 "X" in
    let (m3, b) = alloc m2 "B" in
    let m4 = roots (link m3 x b) (some keep ∷ some x ∷ []) (none ∷ []) in
    let m5 = drain_n 1 (scan_stack (start_mark m4)) in
    do
      local ← load_heap m5 (some x) 0
      m6 ← store_stack m5 0 local
      m7 ← store_heap m6 (some x) 0 none
      some (finish_mark m7)

-- S5: two objects are allocated while marking, and one of them is stored.
pub scenario_alloc_during_mark : BarrierMode → Option Machine
scenario_alloc_during_mark mode =
    let (m1, a) = alloc (new_machine mode) "A" in
    let m2 = drain_all (scan_stack (start_mark (roots m1 (some a ∷ []) (none ∷ [])))) in
    let (m3, fresh) = alloc m2 "fresh" in
    do m4 ← store_heap m3 (some a) 0 (some fresh); some (finish_mark (alloc m4 "dropped").0)

abbrev pub scenarios : List (BarrierMode → Option Machine)
scenarios =
    scenario_quiet ∷ scenario_heap_hazard ∷ scenario_stack_grey ∷ scenario_stack_black
    ∷ scenario_alloc_during_mark ∷ []

pub data Status : Type 0 where
  ok_status lost_status : Status

pub status_of : Verdict → Status
status_of v = if ltb 0 v.lost then lost_status else ok_status

-- The second loop of `reportSimulation`: in how many scenarios a mode loses a live object. A
-- scenario that panics would count as lost.
abbrev is_bad : Option Machine → Bool
is_bad none = true
is_bad (some m) = ltb 0 (verify m).lost

pub bad_count : BarrierMode → List (BarrierMode → Option Machine) → ℕ
unfolding scenario_quiet scenario_heap_hazard scenario_stack_grey scenario_stack_black
    scenario_alloc_during_mark new_machine alloc shade shade_all write_barrier hybrid_barrier
    load_heap store_heap store_stack start_mark whiten scan_stack step step_on drain_n drain_all
    finish_on finish_mark write_slot color_at slots_at paint verify
bad_count mode [] = 0
bad_count mode (run ∷ rest) =
    if is_bad (run mode) then suc (bad_count mode rest) else bad_count mode rest

abbrev pub expected_bad : BarrierMode → ℕ
expected_bad barrier_none = 3
expected_bad barrier_insert = 1
expected_bad barrier_delete = 1
expected_bad barrier_hybrid = 0
expected_bad barrier_insert_rescan = 0

bad_table : (mode : BarrierMode) → bad_count mode scenarios ≡ expected_bad mode
unfolding bad_count
bad_table barrier_none = refl
bad_table barrier_insert = refl
bad_table barrier_delete = refl
bad_table barrier_hybrid = refl
bad_table barrier_insert_rescan = refl

-- Of the five modes, exactly `hybrid` and `insert+rescan` lose no live object in any of the five
-- scenarios; the others lose one in at least one of them, and no scenario panics.
pub bad_count-zero :
    (mode : BarrierMode)
    → (bad_count mode scenarios ≡ 0) ↔ ((mode ≡ barrier_hybrid) ⊎ (mode ≡ barrier_insert_rescan))
bad_count-zero mode = ground (arith, bad_table mode)
