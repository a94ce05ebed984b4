-- ===== src/SizeClass/Examples.antt =====
-- The gaps of adv026_mallocgc/main.go at small inputs.
use go_daily_learning.Prelude.{ℕ, ◌≤◌, ◌<◌, ◌≡◌, refl, some, [], ◌∷◌}
use go_daily_learning.Prelude.Int.{pos}
use go_daily_learning.SizeClass.Gaps.{gaps, mode_gap, size_classes, frag_rows}
use go_daily_learning.SizeClass.Mode.{count, mode_gap-count}

table : size_classes (0 ∷ 8 ∷ 16 ∷ 24 ∷ []) ≡ 8 ∷ 16 ∷ 24 ∷ []
unfolding size_classes
table = refl

rows :
    frag_rows (8 ∷ 16 ∷ 24 ∷ [])
    ≡ record { requested = 9; class = 16 } ∷ record { requested = 17; class = 24 } ∷ []
unfolding frag_rows
rows = refl

mode_of_gaps :
    (gaps (0 ∷ 16 ∷ 32 ∷ 4096 ∷ 4112 ∷ []) ≡ some (16 ∷ 16 ∷ 4064 ∷ 16 ∷ []))
    × (mode_gap (16 ∷ 16 ∷ 4064 ∷ 16 ∷ []) ≡ (16, (pos 3, 4)))
unfolding mode_gap gaps
mode_of_gaps = (refl, refl)

mode_gap-count_example :
    (best n : ℕ) × (mode_gap (16 ∷ 16 ∷ 4064 ∷ []) ≡ (best, (pos n, 3)))
    × (count best (16 ∷ 16 ∷ 4064 ∷ []) ≡ n)
    × ((x : ℕ) → count x (16 ∷ 16 ∷ 4064 ∷ []) ≤ n)
    × (0 < n)
mode_gap-count_example = mode_gap-count 16 (16 ∷ 4064 ∷ [])
