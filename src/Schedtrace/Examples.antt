-- ===== src/Schedtrace/Examples.antt =====
-- A trace line and a run of the worker pool of adv008_schedtrace/main.go.
use go_daily_learning.Prelude.{
  ℕ, length, ltb, if◌then◌else◌, ◌≡◌, ◌≤◌, ◌<◌, ◌+◌, ◌*◌, refl, true, false, List, [], ◌∷◌,
}
use go_daily_learning.Prelude.Int.{negsuc}
use go_daily_learning.Parties.{PartyMove, on_thread, on_shared, party_move}
use go_daily_learning.Steps.{run_moves, enabled}
use go_daily_learning.Threads.{total}
use go_daily_learning.Text.{codes, has_prefix, trim_space, err_range}
use go_daily_learning.Schedtrace.Pool.{
  takes, completes, stops, feeder_closes, PoolMove, pool_move, run_scheduler_demo,
}
use go_daily_learning.Schedtrace.Burst.{
  wakes, sends, finishes, closes, receives, returns, returned, WaiterMove, BurstMove,
  run_channel_burst,
}
use go_daily_learning.Schedtrace.Tasks.{times, running}
use go_daily_learning.Schedtrace.Completed.{
  run_scheduler_demo-completed, Goes, run_scheduler_demo-returns,
}
use go_daily_learning.Schedtrace.Line.{
  int, atoi, parsed, not_a_line, bad_int_field, bad_queue, parse_schedtrace_line,
}
use go_daily_learning.Schedtrace.Printed.{
  Number, Printed, print_line, stats_of, parse_schedtrace_line-print_line,
}
use go_daily_learning.Schedtrace.Errors.{any_large, seven, parse_schedtrace_line-errors}

abbrev two : Number
two = record { first = b'2'; others = [] }

abbrev ten : Number
ten = record { first = b'1'; others = b'0' ∷ [] }

abbrev sample : Printed
sample = record {
  ms = ten;
  gomaxprocs = two;
  idleprocs = two;
  threads = ten;
  spinningthreads = two;
  needspinning = two;
  idlethreads = two;
  runqueue = two;
  p_queues = two ∷ ten ∷ [];
}

parse_schedtrace_line-print_line_example :
    parse_schedtrace_line (print_line sample) ≡ parsed (stats_of sample)
parse_schedtrace_line-print_line_example = parse_schedtrace_line-print_line sample refl refl

parse_schedtrace_line-errors_example :
    (any_large (seven sample) ≡ true
      → parse_schedtrace_line (print_line sample) ≡ bad_int_field err_range)
    × (any_large (seven sample) ≡ false
        → any_large (two ∷ ten ∷ []) ≡ true
        → parse_schedtrace_line (print_line sample) ≡ bad_queue err_range)
    × (has_prefix (trim_space (codes "hello")) (codes "SCHED") ≡ false
        → parse_schedtrace_line (codes "hello") ≡ not_a_line)
parse_schedtrace_line-errors_example = parse_schedtrace_line-errors sample (codes "hello") refl

minus_five : atoi (codes "-5") ≡ int (negsuc 4)
minus_five = refl

abbrev pool_run : List PoolMove
pool_run =
    on_thread takes 0
    ∷ on_shared feeder_closes
    ∷ on_thread completes 0
    ∷ on_thread stops 0
    ∷ on_thread stops 1
    ∷ []

run_scheduler_demo-completed_example :
    let w = run_scheduler_demo 2 1 pool_run in
    ((i : ℕ) → times i w.shared.finished ≤ (if ltb i 1 then 1 else 0))
    × (length w.shared.finished ≡ w.shared.completed)
    × (w.shared.completed ≤ 1)
    × (total running w.threads ≡ 0
        → w.shared.canceled ≡ false
        → (w.shared.completed ≡ 1)
          × ((i : ℕ) → times i w.shared.finished ≡ (if ltb i 1 then 1 else 0)))
run_scheduler_demo-completed_example = run_scheduler_demo-completed 1 1 pool_run

run_scheduler_demo-returns_example :
    let w = run_scheduler_demo 2 1 pool_run in
    (0 < total running w.threads → Goes 1 w)
    × (enabled (pool_move 1) pool_run (run_scheduler_demo 2 1 []) ≤ 3 * 1 + 2 + 2)
run_scheduler_demo-returns_example = run_scheduler_demo-returns 2 1 pool_run

abbrev burst_run : List (PartyMove WaiterMove BurstMove)
burst_run =
    on_shared closes
    ∷ on_thread wakes 0
    ∷ on_thread sends 0
    ∷ on_shared receives
    ∷ on_thread finishes 0
    ∷ on_shared returns
    ∷ []

burst_returned : (run_channel_burst 1 burst_run).shared.receiver ≡ returned
unfolding run_moves party_move
burst_returned = refl
