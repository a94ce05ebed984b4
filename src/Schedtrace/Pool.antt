-- ===== src/Schedtrace/Pool.antt =====
-- The worker pool of `runSchedulerDemo` in adv008_schedtrace/main.go. The channel has no buffer, so
-- a task goes from the feeding goroutine to a worker in one move.
use go_daily_learning.Prelude.{
  ℕ, zero, suc, ◌+◌, ◌*◌, ◌%◌, ◌^◌, Bool, true, false, Option, none, some, List, [], ◌∷◌, ltb,
  if◌then◌else◌, ◌||◌,
}
use go_daily_learning.Parties.{PartyMove, party_move}
use go_daily_learning.Steps.{run_moves}
use go_daily_learning.Threads.{World, replicate}

-- The loop of `cpuTask` from `i`, with the number of rounds that are left.
cpu_rounds : ℕ → ℕ → ℕ → ℕ
cpu_rounds zero i sum = sum
cpu_rounds (suc k) i sum = cpu_rounds k (suc i) ((sum * 31 + i) % 2 ^ 64)

-- The 64-bit pattern of the result.
unfoldable pub cpu_task : ℕ → ℕ
unfolding cpu_rounds
cpu_task n = cpu_rounds 1000 0 n

-- The feeding goroutine with the number of tasks sent, before and after it closed `tasksCh`.
pub data Feeder : Type 0 where
  feeding : ℕ → Feeder
  closed : ℕ → Feeder

pub data PoolWorker : Type 0 where
  idle : PoolWorker
  busy : ℕ → PoolWorker
  stopped : PoolWorker

-- `completed` is the counter; `finished` are the tasks that were completed, the latest in front,
-- which the program does not keep.
pub record Pool : Type 0 where
  pub canceled : Bool
  pub feeder : Feeder
  pub completed : ℕ
  pub finished : List ℕ

abbrev pub take_task : ℕ → Pool → Feeder → PoolWorker → Option (Pool × PoolWorker)
take_task tasks p (feeding i) idle =
    if ltb i tasks then some (record p { feeder = feeding (suc i) }, busy i) else none
take_task tasks p (feeding i) (busy n) = none
take_task tasks p (feeding i) stopped = none
take_task tasks p (closed i) t = none

abbrev pub complete : Pool → PoolWorker → Option (Pool × PoolWorker)
complete p idle = none
complete p (busy n) =
    some (record p { completed = suc p.completed; finished = n ∷ p.finished }, idle)
complete p stopped = none

abbrev pub is_closed : Feeder → Bool
is_closed (feeding i) = false
is_closed (closed i) = true

abbrev pub stop : Pool → PoolWorker → Option (Pool × PoolWorker)
stop p idle = if p.canceled || is_closed p.feeder then some (p, stopped) else none
stop p (busy n) = none
stop p stopped = none

pub data WorkerMove : Type 0 where
  takes : WorkerMove
  completes : WorkerMove
  stops : WorkerMove

abbrev pub worker_act : ℕ → WorkerMove → Pool → PoolWorker → Option (Pool × PoolWorker)
worker_act tasks takes p t = take_task tasks p p.feeder t
worker_act tasks completes p t = complete p t
worker_act tasks stops p t = stop p t

-- The feeding goroutine closes the channel after the last task, or when it sees the cancellation.
abbrev close_tasks : ℕ → Pool → Feeder → Option Pool
close_tasks tasks p (feeding i) =
    if p.canceled
    then some (record p { feeder = closed i })
    else if ltb i tasks
    then none
    else some (record p { feeder = closed i })
close_tasks tasks p (closed i) = none

pub data SharedMove : Type 0 where
  feeder_closes : SharedMove
  cancels : SharedMove

abbrev pub shared_act : ℕ → SharedMove → Pool → List PoolWorker → Option Pool
shared_act tasks feeder_closes p ts = close_tasks tasks p p.feeder
shared_act tasks cancels p ts = if p.canceled then none else some (record p { canceled = true })

abbrev pub PoolMove : Type 0
PoolMove = PartyMove WorkerMove SharedMove

abbrev pub pool_move : ℕ → World Pool PoolWorker → PoolMove → Option (World Pool PoolWorker)
pool_move tasks = party_move (worker_act tasks) (shared_act tasks)

abbrev pub run_scheduler_demo : ℕ → ℕ → List PoolMove → World Pool PoolWorker
run_scheduler_demo workers tasks ms = run_moves (pool_move tasks) ms (record {
  shared = record { canceled = false; feeder = feeding 0; completed = 0; finished = [] };
  threads = replicate workers idle;
})
