-- ===== src/Backpressure/Scenarios/Returns.antt =====
-- The two scenarios of adv023_backpressure/main.go return.
use go_daily_learning.Prelude.{
  ℕ, ◌+◌, ◌-◌, ◌*◌, ◌≤◌, ◌<◌, ◌≡◌, false, ◌||◌, some, List, [], ◌∷◌, arith, length, length-append,
}
use go_daily_learning.Steps.{goes, run_moves, enabled, enabled-bound}
use go_daily_learning.Backpressure.Scenarios.{
  Mode, dropping, blocking, Producer, pushing, closing, joining, returned, Drainer, at_receive,
  parked, working, ended, Scene, ScenarioMove, produces, drains, scenario_move, new_scene,
  run_scenario,
}
use go_daily_learning.Backpressure.Scenarios.Outcome.{Inv, run_scenario-Inv}

abbrev effort_producer : Producer → ℕ
effort_producer pushing = 3
effort_producer closing = 2
effort_producer joining = 1
effort_producer returned = 0

abbrev effort_drainer : Drainer → ℕ
effort_drainer at_receive = 2
effort_drainer parked = 1
effort_drainer working = 3
effort_drainer ended = 0

abbrev effort : ℕ → Scene → ℕ
effort tasks s =
    effort_producer s.producer
    + 4 * (tasks - s.next)
    + 3 * length s.queue.ch.buf
    + effort_drainer s.drainer

scenario_move-effort :
    (m : Mode) (tasks : ℕ) (s s' : Scene) (move : ScenarioMove)
    → scenario_move m tasks s move ≡ some s'
    → effort tasks s' < effort tasks s
unfolding scenario_move
scenario_move-effort dropping tasks s s' produces e =
    let l = length-append s.queue.ch.buf (s.next ∷ []) in ground arith
scenario_move-effort blocking tasks s s' produces e =
    let l = length-append s.queue.ch.buf (s.next ∷ []) in ground arith
scenario_move-effort m tasks s s' drains e = ground arith

-- While the producer is not back, one of the two can go on.
some_goes :
    (m : Mode) (tasks c : ℕ) (s : Scene)
    → Inv m tasks c s
    → (goes (scenario_move m tasks s produces) || goes (scenario_move m tasks s drains)) ≡ false
    → s.producer ≡ returned
unfolding scenario_move
some_goes dropping tasks c s v h = ground arith
some_goes blocking tasks c s v h = ground arith

-- Both scenarios return, for every capacity, 0 included: a run has at most 4 * tasks + 5 enabled
-- moves, and until the producer is back it or the draining goroutine can go on.
pub run_scenario-returns :
    (m : Mode) (tasks capacity : ℕ) (ms : List ScenarioMove)
    → let s = run_scenario m tasks capacity ms in
      (enabled (scenario_move m tasks) ms (new_scene capacity) ≤ 4 * tasks + 5)
      × ((goes (scenario_move m tasks s produces) || goes (scenario_move m tasks s drains)) ≡ false
          → s.producer ≡ returned)
unfolding run_scenario new_scene
run_scenario-returns m tasks c ms =
    let b =
      enabled-bound (scenario_move m tasks) (effort tasks)
        (λ s s' move e. scenario_move-effort m tasks s s' move e) ms (new_scene c) in
    (
      omega (arith, b),
      some_goes m tasks c (run_moves (scenario_move m tasks) ms (new_scene c))
          (run_scenario-Inv m tasks c ms),
    )
