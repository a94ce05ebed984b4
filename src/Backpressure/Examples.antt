-- ===== src/Backpressure/Examples.antt =====
-- Runs of the scenarios of adv023_backpressure/main.go.
use go_daily_learning.Prelude.{
  ◌+◌, ◌-◌, ◌*◌, ◌≤◌, ◌≡◌, refl, true, false, ◌||◌, List, [], ◌∷◌, length,
}
use go_daily_learning.Steps.{enabled, goes}
use go_daily_learning.Backpressure.Scenarios.{
  blocking, returned, ScenarioMove, produces, drains, run_scenario, run_drop_scenario,
  run_blocking_scenario, scenario_move, new_scene,
}
use go_daily_learning.Backpressure.Scenarios.Outcome.{
  min, u64, run_scenario-dropping, run_scenario-blocking,
}
use go_daily_learning.Backpressure.Scenarios.Ascending.{ascends, upto}
use go_daily_learning.Backpressure.Scenarios.Returns.{run_scenario-returns}

-- Of three values one is dropped, because the goroutine has not run yet.
abbrev slow_drain : List ScenarioMove
slow_drain =
    produces ∷ produces ∷ produces ∷ produces ∷ produces ∷ drains ∷ drains ∷ drains ∷ drains
    ∷ drains ∷ produces ∷ []

slow_drain_served : (run_drop_scenario 3 2 slow_drain).served ≡ 0 ∷ 1 ∷ []
unfolding run_scenario
slow_drain_served = refl

slow_drain_returns : (run_drop_scenario 3 2 slow_drain).producer ≡ returned
unfolding run_scenario
slow_drain_returns = refl

run_scenario-dropping_example :
    let s = run_drop_scenario 3 2 slow_drain in
    (s.served ≡ s.taken)
    × (length s.served ≡ s.accepted)
    × (ascends 0 s.served 3 ≡ true)
    × (min 3 2 ≤ s.accepted)
    × (s.accepted ≤ 3)
    × (s.queue.dropped ≡ u64 (3 - s.accepted))
run_scenario-dropping_example = run_scenario-dropping 3 2 slow_drain slow_drain_returns

-- Each value is handed over to the goroutine that waits.
abbrev hand_over_run : List ScenarioMove
hand_over_run =
    drains ∷ produces ∷ drains ∷ drains ∷ produces ∷ produces ∷ produces ∷ drains ∷ drains
    ∷ produces ∷ []

hand_over_returns : (run_blocking_scenario 2 0 hand_over_run).producer ≡ returned
unfolding run_scenario
hand_over_returns = refl

run_scenario-blocking_example : (run_blocking_scenario 2 0 hand_over_run).served ≡ upto 0 2
run_scenario-blocking_example = run_scenario-blocking 2 0 hand_over_run hand_over_returns

run_scenario-returns_example :
    let s = run_scenario blocking 2 0 hand_over_run in
    (enabled (scenario_move blocking 2) hand_over_run (new_scene 0) ≤ 4 * 2 + 5)
    × ((goes (scenario_move blocking 2 s produces) || goes (scenario_move blocking 2 s drains))
          ≡ false
        → s.producer ≡ returned)
run_scenario-returns_example = run_scenario-returns blocking 2 0 hand_over_run
