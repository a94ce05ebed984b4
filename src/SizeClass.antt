-- ===== src/SizeClass.antt =====
-- adv026_mallocgc/main.go, lines 73 to 81: the smallest size class for a request, found by
-- `sort.Search`, the binary search of the standard library. The table of classes is the runtime's
-- and is an argument.
pub mod Smallest
pub mod Gaps
pub mod Mode
mod Examples
use go_daily_learning.Prelude.{
  ℕ, zero, suc, ◌+◌, ◌/◌, Bool, true, false, Option, none, some, List, [], ◌∷◌, length, get_elem?,
  ltb, leb, ◌==◌, if◌then◌else◌,
}

-- The loop of `sort.Search` between `i` and `j`; the first number is fuel.
search_loop : (ℕ → Bool) → ℕ → ℕ → ℕ → ℕ
search_loop f zero i j = i
search_loop f (suc k) i j =
    let h = (i + j) / 2 in
    let left = search_loop f k i h in
    let right = search_loop f k (h + 1) j in if ltb i j then if f h then left else right else i

-- The interval shrinks in every round, so its length is enough fuel.
search : ℕ → (ℕ → Bool) → ℕ
unfolding search_loop
search n f = search_loop f n 0 n

-- `sizes[i] >= n`; the search asks only for indexes in range.
abbrev at_least : List ℕ → ℕ → ℕ → Bool
at_least sizes n i = elim (get_elem? sizes i) [ none ↦ false | some size ↦ leb n size ]

class_at : List ℕ → ℕ → Option ℕ
class_at sizes i = if i == length sizes then none else get_elem? sizes i

-- `none` is the result `0, false`.
unfoldable pub class_for : List ℕ → ℕ → Option ℕ
unfolding search class_at
class_for sizes n = class_at sizes (search (length sizes) (at_least sizes n))
