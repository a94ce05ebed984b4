-- ===== src/Parallel/Examples.antt =====
-- Two workers of adv001_gmp_model/main.go.
use go_daily_learning.Prelude.{ℕ, ◌≡◌, refl}
use go_daily_learning.Parallel.{cpu_bound}

abbrev seven : ℕ
seven = 7

sum_of_four : cpu_bound 1 4 ≡ seven
unfolding cpu_bound
sum_of_four = refl
