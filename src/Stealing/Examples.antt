-- ===== src/Stealing/Examples.antt =====
-- The two runs of adv002_work_stealing/main.go: the hot task runs at the next tick from the slot,
-- and four ticks later from the end of the queue.
use go_daily_learning.Prelude.{◌≡◌, refl, some}
use go_daily_learning.Stealing.{
  queue_fifo, queue_runnext, new_proc, put_runnext, enqueue, pop_from, pop_local, steal_half,
  p0_runs, p0_turn, p1_runs, p1_stole, p1_turn, loop, tasks_from, run_hot_latency,
}

runnext_run : (run_hot_latency queue_runnext).hot_tick ≡ some 1
unfolding run_hot_latency loop p0_turn p0_runs p1_turn p1_runs p1_stole pop_local pop_from enqueue
    put_runnext steal_half tasks_from new_proc
runnext_run = refl

fifo_run : (run_hot_latency queue_fifo).hot_tick ≡ some 5
unfolding run_hot_latency loop p0_turn p0_runs p1_turn p1_runs p1_stole pop_local pop_from enqueue
    put_runnext steal_half tasks_from new_proc
fifo_run = refl
