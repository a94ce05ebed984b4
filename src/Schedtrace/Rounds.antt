-- ===== src/Schedtrace/Rounds.antt =====
-- A run of `runCPUWorkers` of adv008_schedtrace/main.go with two workers.
use go_daily_learning.Prelude.{◌+◌, ◌*◌, ◌≤◌, ◌≡◌, ◌⊎◌, refl, some, true, List, [], ◌∷◌}
use go_daily_learning.Steps.{enabled, run_moves}
use go_daily_learning.Threads.{World}
use go_daily_learning.Parties.{PartyMove, on_thread, on_shared, party_move}
use go_daily_learning.Schedtrace.Workers.{
  CpuStats, returned, CpuRun, CpuWorker, CpuMove, cancels, caller_acts, cpu_move, run_cpu_workers,
}
use go_daily_learning.Schedtrace.Canceled.{run_cpu_workers-returns}

abbrev before : List (PartyMove (Unit {0}) CpuMove)
before = on_thread tt 0 ∷ on_thread tt 1 ∷ on_thread tt 0 ∷ on_shared cancels ∷ []

abbrev whole : List (PartyMove (Unit {0}) CpuMove)
whole =
    on_thread tt 0
    ∷ on_thread tt 1
    ∷ on_thread tt 0
    ∷ on_shared cancels
    ∷ on_shared caller_acts
    ∷ on_thread tt 0
    ∷ on_thread tt 1
    ∷ on_thread tt 1
    ∷ on_thread tt 1
    ∷ on_thread tt 0
    ∷ on_thread tt 0
    ∷ on_shared caller_acts
    ∷ []

abbrev three_rounds : CpuStats
three_rounds = record { started = 2; iterations = 3 }

whole_returned : (run_cpu_workers 2 whole).shared.caller ≡ returned three_rounds
unfolding run_cpu_workers cpu_move run_moves party_move
whole_returned = refl

before_done : (run_cpu_workers 2 before).shared.done ≡ true
unfolding run_cpu_workers cpu_move run_moves party_move
before_done = refl

run_cpu_workers-returns_example :
    (enabled (cpu_move 2) whole (run_cpu_workers 2 before) ≤ 2 * 3 + 2)
    × (((s : CpuStats) × ((run_cpu_workers 2 before).shared.caller ≡ returned s))
        ⊎ ((m : PartyMove (Unit {0}) CpuMove) × (w' : World CpuRun CpuWorker) × (cpu_move 2
                (run_cpu_workers 2 before)
                m
              ≡ some w')))
run_cpu_workers-returns_example = run_cpu_workers-returns 2 before whole before_done
