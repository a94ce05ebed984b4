-- ===== src/Cancel/Observe.antt =====
-- What `observeCancel` of adv019_context_cancel/main.go returns.
use go_daily_learning.Prelude.{
  bit, ℕ, suc, ◌+◌, ◌≤◌, ◌≡◌, ◌≢◌, refl, Bool, true, false, not, some, List, [], ◌∷◌, arith,
}
use go_daily_learning.Steps.{run_moves-keeps}
use go_daily_learning.Cancel.{
  Level, parent, child, grandchild, Tree, Seen, Watcher, waiting, sending, ended, Watchers,
  Observer, canceling, receiving, checking, cleaning, draining, finishing, returned, Scene,
  CancelMove, observer_acts, wakes, sends, cancel_move, new_scene, observe_cancel,
}
use go_daily_learning.Cancel.Queue.{same, count, length-count, count_lem}

abbrev pub woken : Watcher → Bool
woken waiting = false
woken sending = true
woken ended = true

abbrev pub sent : Watcher → ℕ
sent waiting = 0
sent sending = 0
sent ended = 1

-- The name that the caller has received and dropped.
abbrev pub dropped : Bool → Observer → ℕ
dropped true (finishing l) = 1
dropped true returned = 1
dropped _ _ = 0

-- How the contexts and the result stand at each place of the caller.
abbrev pub Phase : Bool → Observer → Tree → Seen → Type 0
Phase true (canceling parent) t r = ⊥
Phase true (canceling child) t r =
    (t.parent_done ≡ false)
    × (r.saw_parent ≡ false)
    × (r.saw_child ≡ false)
    × (r.saw_grandchild ≡ false)
Phase true (canceling grandchild) t r =
    (t.parent_done ≡ false)
    × (t.child_done ≡ true)
    × (r.saw_parent ≡ false)
    × (r.saw_child ≡ false)
    × (r.saw_grandchild ≡ false)
Phase true (receiving n) t r =
    (t.parent_done ≡ false)
    × (t.child_done ≡ true)
    × (t.grandchild_done ≡ true)
    × (r.saw_parent ≡ false)
    × (n + bit r.saw_child + bit r.saw_grandchild ≡ 2)
Phase true checking t r =
    (t.parent_done ≡ false)
    × (t.child_done ≡ true)
    × (t.grandchild_done ≡ true)
    × (r.saw_parent ≡ false)
    × (r.saw_child ≡ true)
    × (r.saw_grandchild ≡ true)
Phase true (cleaning l) t r =
    (t.child_done ≡ true)
    × (t.grandchild_done ≡ true)
    × (r.saw_parent ≡ false)
    × (r.saw_child ≡ true)
    × (r.saw_grandchild ≡ true)
    × (bit t.parent_done + same l parent ≡ 1)
Phase true draining t r =
    (t.parent_done ≡ true)
    × (t.child_done ≡ true)
    × (t.grandchild_done ≡ true)
    × (r.saw_parent ≡ false)
    × (r.saw_child ≡ true)
    × (r.saw_grandchild ≡ true)
Phase true (finishing l) t r =
    (t.parent_done ≡ true)
    × (t.child_done ≡ true)
    × (t.grandchild_done ≡ true)
    × (r.saw_parent ≡ false)
    × (r.saw_child ≡ true)
    × (r.saw_grandchild ≡ true)
Phase true returned t r =
    (t.parent_done ≡ true)
    × (t.child_done ≡ true)
    × (t.grandchild_done ≡ true)
    × (r.saw_parent ≡ false)
    × (r.saw_child ≡ true)
    × (r.saw_grandchild ≡ true)
Phase false (canceling parent) t r =
    (r.saw_parent ≡ false) × (r.saw_child ≡ false) × (r.saw_grandchild ≡ false)
Phase false (canceling child) t r =
    (t.parent_done ≡ true)
    × (r.saw_parent ≡ false)
    × (r.saw_child ≡ false)
    × (r.saw_grandchild ≡ false)
Phase false (canceling grandchild) t r =
    (t.parent_done ≡ true)
    × (t.child_done ≡ true)
    × (r.saw_parent ≡ false)
    × (r.saw_child ≡ false)
    × (r.saw_grandchild ≡ false)
Phase false (receiving n) t r =
    (t.parent_done ≡ true)
    × (t.child_done ≡ true)
    × (t.grandchild_done ≡ true)
    × (n + bit r.saw_parent + bit r.saw_child + bit r.saw_grandchild ≡ 3)
Phase false checking t r = ⊥
Phase false (cleaning l) t r = ⊥
Phase false draining t r = ⊥
Phase false (finishing l) t r =
    (t.parent_done ≡ true)
    × (t.child_done ≡ true)
    × (t.grandchild_done ≡ true)
    × (r.saw_parent ≡ true)
    × (r.saw_child ≡ true)
    × (r.saw_grandchild ≡ true)
Phase false returned t r =
    (t.parent_done ≡ true)
    × (t.child_done ≡ true)
    × (t.grandchild_done ≡ true)
    × (r.saw_parent ≡ true)
    × (r.saw_child ≡ true)
    × (r.saw_grandchild ≡ true)

-- A name is sent once, after its context is done, and stands in the queue until it is received.
pub record Inv (b : Bool) (s : Scene) : Type 0 where
  pub phase : Phase b s.observer s.tree s.seen
  pub parents :
      count parent s.queue + bit s.seen.saw_parent + dropped b s.observer
      ≡ sent s.watchers.on_parent
  pub children : count child s.queue + bit s.seen.saw_child ≡ sent s.watchers.on_child
  pub grandchildren :
      count grandchild s.queue + bit s.seen.saw_grandchild ≡ sent s.watchers.on_grandchild
  pub after_parent : bit (woken s.watchers.on_parent) ≤ bit s.tree.parent_done
  pub after_child : bit (woken s.watchers.on_child) ≤ bit s.tree.child_done
  pub after_grandchild : bit (woken s.watchers.on_grandchild) ≤ bit s.tree.grandchild_done

new_scene-Inv : (b : Bool) → Inv b (new_scene b)
unfolding new_scene
new_scene-Inv true = ground arith
new_scene-Inv false = ground arith

observer_acts-Inv :
    (b : Bool) (o : Observer) (t : Tree) (w : Watchers) (q : List Level) (r : Seen) (s' : Scene)
    → cancel_move b
        (record { observer = o; tree = t; watchers = w; queue = q; seen = r })
        observer_acts
      ≡ some s'
    → Inv b (record { observer = o; tree = t; watchers = w; queue = q; seen = r })
    → Inv b s'
unfolding cancel_move
observer_acts-Inv true (receiving (suc n)) t w (m ∷ q) r s' e i = ground arith
observer_acts-Inv true draining t w (m ∷ q) r s' e i = ground arith
observer_acts-Inv true checking t w (m ∷ q) r s' e i = ground arith
observer_acts-Inv true o t w q r s' e i = ground arith
observer_acts-Inv false o t w [] r s' e i = ground arith
observer_acts-Inv false o t w (m ∷ q) r s' e i = ground arith

watcher_acts-Inv :
    (b : Bool) (s s' : Scene) (m : CancelMove)
    → m ≢ observer_acts
    → cancel_move b s m ≡ some s'
    → Inv b s
    → Inv b s'
unfolding cancel_move
watcher_acts-Inv b s s' observer_acts n e i = absurd (n refl)
watcher_acts-Inv b s s' (wakes parent) n e i = ground arith
watcher_acts-Inv b s s' (wakes child) n e i = ground arith
watcher_acts-Inv b s s' (wakes grandchild) n e i = ground arith
watcher_acts-Inv b s s' (sends parent) n e i = let c = count_lem s.queue parent in ground arith
watcher_acts-Inv b s s' (sends child) n e i = let c = count_lem s.queue child in ground arith
watcher_acts-Inv b s s' (sends grandchild) n e i =
    let c = count_lem s.queue grandchild in ground arith

cancel_move-Inv :
    (b : Bool) (s s' : Scene) (m : CancelMove) → cancel_move b s m ≡ some s' → Inv b s → Inv b s'
cancel_move-Inv b s s' observer_acts e i =
    observer_acts-Inv b s.observer s.tree s.watchers s.queue s.seen s' e i
cancel_move-Inv b s s' (wakes l) e i = watcher_acts-Inv b s s' (wakes l) (λ p. cc) e i
cancel_move-Inv b s s' (sends l) e i = watcher_acts-Inv b s s' (sends l) (λ p. cc) e i

pub observe_cancel-Inv : (b : Bool) (ms : List CancelMove) → Inv b (observe_cancel b ms)
unfolding observe_cancel
observe_cancel-Inv b ms =
    run_moves-keeps (cancel_move b) (Inv b) (λ s s' m e. cancel_move-Inv b s s' m e) ms
      (new_scene b) (new_scene-Inv b)

-- Once `observeCancel` has returned, it saw the parent canceled exactly if it was called to cancel
-- the parent, and the child and the grandchild canceled in both cases. Its three goroutines have
-- then ended and every name has been received.
pub observe_cancel-seen :
    (b : Bool) (ms : List CancelMove)
    → let s = observe_cancel b ms in
      s.observer ≡ returned
      → (s.seen ≡ record { saw_parent = not b; saw_child = true; saw_grandchild = true })
        × (s.watchers ≡ record { on_parent = ended; on_child = ended; on_grandchild = ended })
        × (s.queue ≡ [])
observe_cancel-seen b ms e = at_end b (observe_cancel b ms) e (observe_cancel-Inv b ms)
  where
    at_end :
        (b : Bool) (s : Scene)
        → s.observer ≡ returned
        → Inv b s
        → (s.seen ≡ record { saw_parent = not b; saw_child = true; saw_grandchild = true })
          × (s.watchers ≡ record { on_parent = ended; on_child = ended; on_grandchild = ended })
          × (s.queue ≡ [])
    at_end true s e i = let l = length-count s.queue in ground arith
    at_end false s e i = let l = length-count s.queue in ground arith
