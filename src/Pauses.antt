-- ===== src/Pauses.antt =====
-- adv029_stw_phases/main.go: the summary of the pauses of the collector, which are not negative.
-- `int(q * float64(len(sorted)))` is floating-point code: a parameter gives the rank for a length.
pub mod Order
pub mod Summary
mod Examples
use go_daily_learning.Prelude.{
  ℕ, ◌+◌, ◌-◌, ◌%◌, ◌^◌, Option, some, List, [], ◌∷◌, leb, if◌then◌else◌, get_elem?, length, ◌>>=◌,
}
use go_daily_learning.Sorting.{sort_by}

pub record PauseSummary : Type 0 where
  pub count : ℕ
  pub total : ℕ
  pub max : ℕ
  pub p50 : ℕ
  pub p99 : ℕ

-- An index out of range panics: `none`.
abbrev pub quantile : (ℕ → ℕ) → List ℕ → Option ℕ
quantile rank [] = some 0
quantile rank (d ∷ ds) =
    let n = length (d ∷ ds) in get_elem? (d ∷ ds) (if leb n (rank n) then n - 1 else rank n)

-- The 64-bit pattern of the sum from a first value on.
abbrev pub sum_from : ℕ → List ℕ → ℕ
sum_from s [] = s
sum_from s (d ∷ ds) = sum_from ((s + d) % 2 ^ 64) ds

abbrev pub summarize_sorted : (ℕ → ℕ) → (ℕ → ℕ) → List ℕ → Option PauseSummary
summarize_sorted rank50 rank99 cp = do
  m ← get_elem? cp (length cp - 1)
  q50 ← quantile rank50 cp
  q99 ← quantile rank99 cp
  some (record { count = length cp; total = sum_from 0 cp; max = m; p50 = q50; p99 = q99 })

unfoldable pub summarize_pauses : (ℕ → ℕ) → (ℕ → ℕ) → List ℕ → Option PauseSummary
summarize_pauses rank50 rank99 [] =
    some (record { count = 0; total = 0; max = 0; p50 = 0; p99 = 0 })
summarize_pauses rank50 rank99 (d ∷ ds) = summarize_sorted rank50 rank99 (sort_by (λ x. x) (d ∷ ds))
