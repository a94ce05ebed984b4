-- ===== src/SizeClass/Gaps.antt =====
-- adv026_mallocgc/main.go, lines 59 to 70, 83 to 103, 203 to 234 and 256 to 266: the table of size
-- classes, the worst fragmentation, the gaps between addresses and their mode, and the number of
-- different addresses. Addresses and gaps are the 64-bit patterns of pointers and of an `int`.
use go_daily_learning.Prelude.{
  ℕ, ◌+◌, ◌-◌, ◌%◌, ◌^◌, Bool, Option, none, some, true, false, ◌||◌, List, [], ◌∷◌, length, take,
  ltb, ◌==◌, if◌then◌else◌,
}
use go_daily_learning.Prelude.Int.{ℤ, pos, negsuc}
use go_daily_learning.Sorting.{sort_by}

-- The sizes of `ms.BySize`, without the empty ones.
unfoldable pub size_classes : List ℕ → List ℕ
size_classes [] = []
size_classes (size ∷ sizes) =
    let rest = size_classes sizes in if size == 0 then rest else size ∷ rest

pub record FragRow : Type 0 where
  pub requested : ℕ
  pub class : ℕ

-- One more than each class, in uint32, with the class after it.
unfoldable pub frag_rows : List ℕ → List FragRow
frag_rows [] = []
frag_rows (size ∷ []) = []
frag_rows (size ∷ next ∷ sizes) =
    record { requested = (size + 1) % 2 ^ 32; class = next } ∷ frag_rows (next ∷ sizes)

-- `order` is the place of the waste of a row among the numbers of float64, the largest first.
unfoldable pub worst_fragmentation : (FragRow → ℕ) → List ℕ → ℕ → List FragRow
unfolding frag_rows
worst_fragmentation order sizes k =
    let rows = sort_by order (frag_rows sizes) in if ltb k (length rows) then take k rows else rows

-- The differences of the addresses of `dst`, one after another. Without an address the capacity
-- `n - 1` of the result makes the code panic.
differences : ℕ → List ℕ → List ℕ
differences p [] = []
differences p (q ∷ dst) = ((q + 2 ^ 64 - p) % 2 ^ 64) ∷ differences q dst

unfoldable pub gaps : List ℕ → Option (List ℕ)
unfolding differences
gaps [] = none
gaps (p ∷ dst) = some (differences p dst)

-- `counts[d]++`.
abbrev pub bump : (ℕ → ℕ) → ℕ → ℕ → ℕ
bump counts d x = if x == d then counts x + 1 else counts x

-- `counts[d] > bestN`.
abbrev pub exceeds : ℕ → ℤ → Bool
exceeds c (pos n) = ltb n c
exceeds c (negsuc n) = true

unfoldable pub mode_loop : (ℕ → ℕ) → ℕ → ℤ → List ℕ → ℕ × ℤ
mode_loop counts best best_n [] = (best, best_n)
mode_loop counts best best_n (d ∷ g) =
    let c = counts d + 1 in
    let more = exceeds c best_n in
    mode_loop (bump counts d) (if more then d else best) (if more then pos c else best_n) g

-- The most frequent gap, how often it occurs, and the number of gaps; the code divides the last
-- two.
unfoldable pub mode_gap : List ℕ → ℕ × (ℤ × ℕ)
unfolding mode_loop
mode_gap [] = (0, (pos 0, 1))
mode_gap (d ∷ g) =
    let (best, n) = mode_loop (λ x. 0) 0 (negsuc 0) (d ∷ g) in (best, (n, length (d ∷ g)))

-- The map of the addresses seen, as the list of its keys.
abbrev pub is_seen : ℕ → List ℕ → Bool
is_seen p [] = false
is_seen p (q ∷ seen) = p == q || is_seen p seen

abbrev pub see : ℕ → List ℕ → List ℕ
see p seen = if is_seen p seen then seen else p ∷ seen

unfoldable pub see_all : List ℕ → List ℕ → List ℕ
see_all seen [] = seen
see_all seen (p ∷ xs) = see_all (see p seen) xs

unfoldable pub see_parts : List ℕ → List (List ℕ) → List ℕ
unfolding see_all
see_parts seen [] = seen
see_parts seen (xs ∷ parts) = see_parts (see_all seen xs) parts

unfoldable pub count_unique : List (List ℕ) → ℕ
unfolding see_parts
count_unique parts = length (see_parts [] parts)
