-- ===== src/Schedtrace/Workers.antt =====
-- `runCPUWorkers` of adv008_schedtrace/main.go: goroutines that count rounds until the context is
-- canceled, and then add their counts up.
use go_daily_learning.Prelude.{
  ℕ, zero, suc, ◌+◌, Bool, true, false, Option, none, some, List, ◌==◌, if◌then◌else◌,
}
use go_daily_learning.Parties.{PartyMove, party_move}
use go_daily_learning.Steps.{run_moves}
use go_daily_learning.Threads.{World, total, replicate}

pub record CpuStats : Type 0 where
  pub started : ℕ
  pub iterations : ℕ

-- In the loop with its count `local`, before `iterations.Add`, before the deferred `wg.Done`, and
-- after it.
pub data CpuWorker : Type 0 where
  spinning adding leaving gone : ℕ → CpuWorker

-- The caller at `<-ctx.Done()`, at `wg.Wait()`, and back.
pub data CpuCaller : Type 0 where
  awaiting joining : CpuCaller
  returned : CpuStats → CpuCaller

pub record CpuRun : Type 0 where
  pub done : Bool
  pub iterations : ℕ
  pub caller : CpuCaller

pub data CpuMove : Type 0 where
  cancels caller_acts : CpuMove

-- The `select` takes its default only while the context is not done.
abbrev pub cpu_worker_act : Unit {0} → CpuRun → CpuWorker → Option (CpuRun × CpuWorker)
cpu_worker_act u r (spinning n) = some (r, if r.done then adding n else spinning (n + 1))
cpu_worker_act u r (adding n) = some (record r { iterations = r.iterations + n }, leaving n)
cpu_worker_act u r (leaving n) = some (r, gone n)
cpu_worker_act u r (gone n) = none

-- The count of the `WaitGroup`.
abbrev pub running : CpuWorker → ℕ
running (spinning n) = 1
running (adding n) = 1
running (leaving n) = 1
running (gone n) = 0

abbrev pub cpu_caller_act : ℕ → ℕ → CpuRun → CpuCaller → Option CpuRun
cpu_caller_act workers left r awaiting =
    if r.done then some (record r { caller = joining }) else none
cpu_caller_act workers left r joining =
    if left == 0
    then some
        (record r { caller = returned (record { started = workers; iterations = r.iterations }) })
    else none
cpu_caller_act workers left r (returned s) = none

abbrev pub cpu_shared_act : ℕ → CpuMove → CpuRun → List CpuWorker → Option CpuRun
cpu_shared_act workers cancels r ts = if r.done then none else some (record r { done = true })
cpu_shared_act workers caller_acts r ts = cpu_caller_act workers (total running ts) r r.caller

unfoldable pub cpu_move :
    ℕ → World CpuRun CpuWorker → PartyMove (Unit {0}) CpuMove → Option (World CpuRun CpuWorker)
cpu_move workers = party_move cpu_worker_act (cpu_shared_act workers)

-- With fewer than one worker the zero statistics come back at once.
abbrev pub first_caller : ℕ → CpuCaller
first_caller zero = returned (record { started = 0; iterations = 0 })
first_caller (suc n) = awaiting

abbrev pub new_cpu_run : ℕ → World CpuRun CpuWorker
new_cpu_run workers = record {
  shared = record { done = false; iterations = 0; caller = first_caller workers };
  threads = replicate workers (spinning 0);
}

unfoldable pub run_cpu_workers : ℕ → List (PartyMove (Unit {0}) CpuMove) → World CpuRun CpuWorker
unfolding cpu_move
run_cpu_workers workers ms = run_moves (cpu_move workers) ms (new_cpu_run workers)
