-- ===== src/Parallel.antt =====
-- adv001_gmp_model/main.go: `cpuBound`, and `runParallel`, whose goroutines write to one slice at
-- places of their own. The counter of `cooperativeYieldWorkers` is the one of Counters.
pub mod Results
mod Examples
use go_daily_learning.Prelude.{ℕ, zero, suc, ◌+◌, ◌%◌, ◌^◌, Option, none, some, List, [], ◌∷◌, set}
use go_daily_learning.Threads.{World, replicate, run}

-- The loop of `cpuBound` from `i` with the number of rounds that are left.
abbrev pub cpu_loop : ℕ → ℕ → ℕ → ℕ
cpu_loop zero i sum = sum
cpu_loop (suc k) i sum = cpu_loop k (suc i) ((sum + i) % 2 ^ 64)

unfoldable pub cpu_bound : ℕ → ℕ → ℕ
cpu_bound worker_id iterations = (cpu_loop iterations 0 0 + worker_id) % 2 ^ 64

-- A goroutine with its `id` before and after it wrote its result.
pub data Task : Type 0 where
  computing : ℕ → Task
  finished : ℕ → Task

abbrev pub act : ℕ → List ℕ → Task → Option (List ℕ × Task)
act iterations results (computing id) = some (set results id (cpu_bound id iterations), finished id)
act iterations results (finished id) = none

abbrev pub tasks_from : ℕ → ℕ → List Task
tasks_from id zero = []
tasks_from id (suc n) = computing id ∷ tasks_from (suc id) n

abbrev pub run_parallel : ℕ → ℕ → List ℕ → World (List ℕ) Task
run_parallel workers iterations schedule =
    run (act iterations) schedule
      (record { shared = replicate workers 0; threads = tasks_from 0 workers })
