-- ===== src/Cancel/Queue.antt =====
-- The names that wait in `doneCh` of adv019_context_cancel/main.go.
use go_daily_learning.Prelude.{ℕ, ◌+◌, ◌≡◌, refl, List, [], ◌∷◌, ◌++◌, length, arith}
use go_daily_learning.Cancel.{Level, parent, child, grandchild}

abbrev pub same : Level → Level → ℕ
same parent parent = 1
same child child = 1
same grandchild grandchild = 1
same _ _ = 0

-- How often a name stands in the queue.
abbrev pub count : Level → List Level → ℕ
count l [] = 0
count l (m ∷ ms) = same l m + count l ms

pub count-append : (l m : Level) (q : List Level) → count l (q ++ m ∷ []) ≡ count l q + same l m
count-append l m [] = omega arith
count-append l m (x ∷ q) = omega (arith, count-append l m q)

pub length-count : (q : List Level) → length q ≡ count parent q + count child q + count grandchild q
length-count [] = refl
length-count (parent ∷ q) = omega (arith, length-count q)
length-count (child ∷ q) = omega (arith, length-count q)
length-count (grandchild ∷ q) = omega (arith, length-count q)

-- A name goes to the end of the queue.
pub count_lem :
    (q : List Level) (l : Level)
    → (count parent (q ++ l ∷ []) ≡ count parent q + same parent l)
      × (count child (q ++ l ∷ []) ≡ count child q + same child l)
      × (count grandchild (q ++ l ∷ []) ≡ count grandchild q + same grandchild l)
count_lem q l = (count-append parent l q, count-append child l q, count-append grandchild l q)
