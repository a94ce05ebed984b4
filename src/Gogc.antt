-- ===== src/Gogc.antt =====
-- adv028_gogc_memlimit/main.go, lines 160 to 224: heap goals by GOGC and by GOMEMLIMIT. A uint64 is
-- a number below 2 ^ 64 with its wrap-around written out, and an int or int64 is an integer.
pub mod Goals
use go_daily_learning.Prelude.{
  ℕ, zero, suc, ◌+◌, ◌-◌, ◌*◌, ◌/◌, ◌%◌, ◌^◌, Bool, true, false, ltb, leb, ◌==◌, if◌then◌else◌,
}
use go_daily_learning.Prelude.Int.{ℤ, pos, negsuc}

abbrev pub mib : ℕ
mib = 1048576

-- math.MaxUint64 and noLimit, which is math.MaxInt64.
abbrev pub max_uint64 : ℕ
max_uint64 = 18446744073709551615

abbrev pub no_limit : ℕ
no_limit = 9223372036854775807

abbrev pub u64 : ℕ → ℕ
u64 n = n % 18446744073709551616

abbrev pub min_heap_goal : ℕ
min_heap_goal = 4 * mib

pub gc_percent_heap_goal : ℕ → ℤ → ℕ
gc_percent_heap_goal live (negsuc n) = max_uint64
gc_percent_heap_goal live (pos gc_percent) =
    let goal = u64 (live + u64 (live * gc_percent) / 100) in
    if ltb goal min_heap_goal then min_heap_goal else goal

-- The guard `memLimit <= 0 || memLimit == noLimit`, by the sign of the limit.
pub memory_limit_heap_goal : ℤ → ℕ → ℕ
memory_limit_heap_goal (negsuc n) live = max_uint64
memory_limit_heap_goal (pos limit) live =
    let non_heap = limit / 10 in
    let goal = limit - non_heap in
    if limit == 0
    then max_uint64
    else if limit == no_limit
    then max_uint64
    else if leb limit non_heap
    then live
    else if ltb goal live
    then live
    else goal

pub effective_heap_goal : ℕ → ℤ → ℤ → ℕ
effective_heap_goal live gc_percent mem_limit =
    let gc_goal = gc_percent_heap_goal live gc_percent in
    let lim_goal = memory_limit_heap_goal mem_limit live in
    if ltb lim_goal gc_goal then lim_goal else gc_goal

-- A negative reserve counts as none.
abbrev pub clamp_reserve : ℤ → ℕ
clamp_reserve (pos n) = n
clamp_reserve (negsuc n) = 0

pub recommend_memory_limit : ℤ → ℤ → ℕ
recommend_memory_limit (negsuc n) reserve = no_limit
recommend_memory_limit (pos container) reserve =
    let held = clamp_reserve reserve in
    if container == 0 then no_limit else if leb container held then mib else container - held
