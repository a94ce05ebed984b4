-- ===== src/SizeClass/Smallest.antt =====
-- The binary search of adv026_mallocgc/main.go finds what a scan of the table finds.
use go_daily_learning.Prelude.{
  ℕ, zero, suc, ◌+◌, ◌/◌, ◌≤◌, ◌<◌, ◌≡◌, refl, ap, ◌∙◌, Bool, true, Option, none, some, List, [],
  ◌∷◌, arith, length, leb, if◌then◌else◌,
}
use go_daily_learning.SizeClass.{search_loop, search, at_least, class_at, class_for}

abbrev AllAtLeast : ℕ → List ℕ → Type 0
AllAtLeast x [] = Unit
AllAtLeast x (y ∷ ys) = (x ≤ y) × AllAtLeast x ys

-- In ascending order.
abbrev pub IsSorted : List ℕ → Type 0
IsSorted [] = Unit
IsSorted (x ∷ xs) = AllAtLeast x xs × IsSorted xs

-- The first entry from the left that is at least `n`.
abbrev pub first_at_least : List ℕ → ℕ → Option ℕ
first_at_least [] n = none
first_at_least (x ∷ xs) n = if leb n x then some x else first_at_least xs n

-- Its index, or the length of the list.
abbrev lead : List ℕ → ℕ → ℕ
lead [] n = 0
lead (x ∷ xs) n = if leb n x then 0 else suc (lead xs n)

lead-bound : (sizes : List ℕ) (n : ℕ) → lead sizes n ≤ length sizes
lead-bound [] n = omega arith
lead-bound (x ∷ xs) n = let r = lead-bound xs n in ground arith

search_loop-lead :
    (f : ℕ → Bool) (n p : ℕ)
    → ((h : ℕ) → h < n → f h ≡ leb p h)
    → (k i j : ℕ) → i ≤ p
    → p ≤ j
    → j ≤ n
    → j ≤ i + k
    → search_loop f k i j ≡ p
unfolding search_loop
search_loop-lead f n p e zero i j a b c d = omega arith
search_loop-lead f n p e (suc k) i j a b c d =
    let h = (i + j) / 2 in
    let left = search_loop-lead f n p e k i h in
    let right = search_loop-lead f n p e k (h + 1) j in let test = e h in ground arith

all-at_least :
    (x n : ℕ) (xs : List ℕ) (h : ℕ)
    → n ≤ x
    → AllAtLeast x xs
    → h < length xs
    → at_least xs n h ≡ true
all-at_least x n [] h p s q = absurd (omega arith)
all-at_least x n (y ∷ ys) zero p s q = ground arith
all-at_least x n (y ∷ ys) (suc h) p (m, rest) q = all-at_least x n ys h p rest (omega arith)

at_least-lead :
    (sizes : List ℕ) (n h : ℕ)
    → IsSorted sizes
    → h < length sizes
    → at_least sizes n h ≡ leb (lead sizes n) h
at_least-lead [] n h s q = absurd (omega arith)
at_least-lead (x ∷ xs) n zero s q = ground arith
at_least-lead (x ∷ xs) n (suc h) (m, s) q =
    let r = at_least-lead xs n h s (omega arith) in let l = all-at_least x n xs h in ground arith

class_at-lead : (sizes : List ℕ) (n : ℕ) → class_at sizes (lead sizes n) ≡ first_at_least sizes n
unfolding class_at
class_at-lead [] n = refl
class_at-lead (x ∷ xs) n = let r = class_at-lead xs n in ground arith

-- For a table in ascending order, the binary search finds the first class that is at least the
-- request, or none where a scan of the table finds none.
pub class_for-first_at_least :
    (sizes : List ℕ) (n : ℕ) → IsSorted sizes → class_for sizes n ≡ first_at_least sizes n
unfolding class_for search
class_for-first_at_least sizes n s =
    let b = lead-bound sizes n in
    let e =
      search_loop-lead (at_least sizes n) (length sizes) (lead sizes n)
        (λ h q. at_least-lead sizes n h s q) (length sizes) 0 (length sizes) (omega arith) b
        (omega arith) (omega arith) in
    ap (class_at sizes) e ∙ class_at-lead sizes n
