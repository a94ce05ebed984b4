-- ===== src/Gogc/Goals.antt =====
-- The heap goals of adv028_gogc_memlimit/main.go against their mathematical forms.
use Prim.Native.Nat.{max, min}
use go_daily_learning.Prelude.{ℕ, ◌+◌, ◌-◌, ◌*◌, ◌/◌, ◌≤◌, ◌<◌, ◌≡◌, refl, ◌≢◌, ◌⊎◌, arith}
use go_daily_learning.Prelude.Int.{ℤ, pos, negsuc}
use go_daily_learning.Gogc.{
  mib, max_uint64, no_limit, min_heap_goal, gc_percent_heap_goal, memory_limit_heap_goal,
  effective_heap_goal, clamp_reserve, recommend_memory_limit,
}

-- Where nothing wraps around, the GOGC goal is the live heap and its percentage, and at least 4
-- MiB.
pub gc_percent_heap_goal_exact :
    (live percent : ℕ)
    → live * percent ≤ max_uint64
    → live + live * percent / 100 ≤ max_uint64
    → gc_percent_heap_goal live (pos percent) ≡ max min_heap_goal (live + live * percent / 100)
unfolding gc_percent_heap_goal
gc_percent_heap_goal_exact live percent h k = ground arith

-- A real memory limit gives nine tenths of it, rounded up, but never less than the live heap: the
-- branch for a limit that the non-heap share exhausts is never taken.
pub memory_limit_heap_goal_exact :
    (limit live : ℕ)
    → 0 < limit
    → limit ≢ no_limit
    → memory_limit_heap_goal (pos limit) live ≡ max live (limit - limit / 10)
unfolding memory_limit_heap_goal
memory_limit_heap_goal_exact limit live h k = ground arith

memory_limit-live :
    (limit : ℤ) (live : ℕ) → live ≤ max_uint64 → live ≤ memory_limit_heap_goal limit live
unfolding memory_limit_heap_goal
memory_limit-live (negsuc n) live h = h
memory_limit-live (pos limit) live h = ground arith

gc_percent-live :
    (live : ℕ) (percent : ℤ)
    → live ≤ max_uint64
    → ((p : ℕ) → percent ≡ pos p → (live * p ≤ max_uint64) × (live + live * p / 100 ≤ max_uint64))
    → live ≤ gc_percent_heap_goal live percent
gc_percent-live live (negsuc n) h k = unfold gc_percent_heap_goal in h
gc_percent-live live (pos p) h k =
    let (a, b) = k p refl in omega (arith, gc_percent_heap_goal_exact live p a b)

effective-min :
    (live : ℕ) (percent limit : ℤ)
    → effective_heap_goal live percent limit
      ≡ min (gc_percent_heap_goal live percent) (memory_limit_heap_goal limit live)
unfolding effective_heap_goal
effective-min live percent limit = ground arith

-- The effective goal is the smaller of the two, and where nothing wraps around it is never below
-- the live heap, whatever the two settings are.
pub effective_heap_goal_bounds :
    (live : ℕ) (percent limit : ℤ)
    → live ≤ max_uint64
    → ((p : ℕ) → percent ≡ pos p → (live * p ≤ max_uint64) × (live + live * p / 100 ≤ max_uint64))
    → (effective_heap_goal live percent limit
        ≡ min (gc_percent_heap_goal live percent) (memory_limit_heap_goal limit live))
      × (live ≤ effective_heap_goal live percent limit)
effective_heap_goal_bounds live percent limit h k =
    let is_min = effective-min live percent limit in
    (
      is_min,
      omega (arith, is_min, gc_percent-live live percent h k, memory_limit-live limit live h),
    )

-- For a container limit above 0 the recommendation is positive and finite; with the reserve it
-- makes up the container exactly if the reserve fits, and it is 1 MiB otherwise.
pub recommend_memory_limit_exact :
    (container : ℕ) (reserve : ℤ)
    → 0 < container
    → (0 < recommend_memory_limit (pos container) reserve)
      × ((clamp_reserve reserve < container)
            × (recommend_memory_limit (pos container) reserve + clamp_reserve reserve ≡ container)
          ⊎ (container ≤ clamp_reserve reserve)
            × (recommend_memory_limit (pos container) reserve ≡ mib))
unfolding recommend_memory_limit
recommend_memory_limit_exact container reserve h = (ground arith, ground arith)
