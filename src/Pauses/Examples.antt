-- ===== src/Pauses/Examples.antt =====
-- A summary of three pauses for adv029_stw_phases/main.go.
use go_daily_learning.Prelude.{ℕ, ◌/◌, ◌*◌, ◌≡◌, ◌≤◌, refl, some, [], ◌∷◌, length}
use go_daily_learning.Pauses.{PauseSummary, summarize_pauses}
use go_daily_learning.Pauses.Summary.{Summarizes, summarize_pauses-Summarizes}

abbrev half : ℕ → ℕ
half n = n / 2

abbrev nearly_all : ℕ → ℕ
nearly_all n = 99 * n / 100

three_pauses :
    summarize_pauses half nearly_all (30 ∷ 10 ∷ 20 ∷ [])
    ≡ some (record { count = 3; total = 60; max = 30; p50 = 20; p99 = 30 })
unfolding summarize_pauses
three_pauses = refl

summarize_pauses-Summarizes_example :
    (s : PauseSummary) × (summarize_pauses half nearly_all (30 ∷ 10 ∷ 20 ∷ []) ≡ some s)
    × Summarizes s (30 ∷ 10 ∷ 20 ∷ [])
    × (half (length {A = ℕ} (30 ∷ 10 ∷ 20 ∷ [])) ≤ nearly_all (length {A = ℕ} (30 ∷ 10 ∷ 20 ∷ []))
        → s.p50 ≤ s.p99)
summarize_pauses-Summarizes_example = summarize_pauses-Summarizes half nearly_all 30 (10 ∷ 20 ∷ [])
