-- ===== src/Cancel/Examples.antt =====
-- Runs of the model of adv019_context_cancel/main.go.
use go_daily_learning.Prelude.{◌≡◌, ◌≤◌, ◌⊎◌, refl, true, false, List, [], ◌∷◌, some}
use go_daily_learning.Steps.{enabled}
use go_daily_learning.Cancel.{
  Scene, ended, CancelMove, observer_acts, wakes, sends, parent, child, grandchild, observe_cancel,
  returned, cancel_move, new_scene, receiving,
}
use go_daily_learning.Cancel.Observe.{observe_cancel-seen}
use go_daily_learning.Cancel.Returns.{observe_cancel-returns}

-- The grandchild's name arrives before the child's.
abbrev child_run : List CancelMove
child_run =
    observer_acts
    ∷ observer_acts
    ∷ wakes grandchild
    ∷ sends grandchild
    ∷ wakes child
    ∷ observer_acts
    ∷ sends child
    ∷ observer_acts
    ∷ observer_acts
    ∷ observer_acts
    ∷ observer_acts
    ∷ wakes parent
    ∷ observer_acts
    ∷ observer_acts
    ∷ sends parent
    ∷ observer_acts
    ∷ observer_acts
    ∷ observer_acts
    ∷ observer_acts
    ∷ []

child_run_returns : (observe_cancel true child_run).observer ≡ returned
unfolding observe_cancel
child_run_returns = refl

-- The goroutine of a canceled child that has not run blocks the caller.
slow_child :
    (observe_cancel true (observer_acts ∷ observer_acts ∷ observer_acts ∷ [])).observer
    ≡ receiving 2
unfolding observe_cancel
slow_child = refl

observe_cancel-seen_example :
    let s = observe_cancel true child_run in
    (s.seen ≡ record { saw_parent = false; saw_child = true; saw_grandchild = true })
    × (s.watchers ≡ record { on_parent = ended; on_child = ended; on_grandchild = ended })
    × (s.queue ≡ [])
observe_cancel-seen_example = observe_cancel-seen true child_run child_run_returns

observe_cancel-returns_example :
    (enabled (cancel_move false) child_run (new_scene false) ≤ 21)
    × ((observe_cancel false child_run).observer ≡ returned
        ⊎ ((m : CancelMove) × (s' : Scene) × (cancel_move false (observe_cancel false child_run) m
              ≡ some s')))
observe_cancel-returns_example = observe_cancel-returns false child_run
