-- ===== src/Cancel/Returns.antt =====
-- `observeCancel` of adv019_context_cancel/main.go returns.
use go_daily_learning.Prelude.{
  bit, ℕ, zero, suc, ◌+◌, ◌≤◌, ◌<◌, ◌≡◌, ◌⊎◌, inl, inr, refl, Bool, true, false, none, some, List,
  [], ◌∷◌, ◌++◌, length, ltb, arith, if◌then◌else◌, ap, ◌∙◌, Bool-cases,
}
use go_daily_learning.Steps.{enabled, enabled-bound, run_moves}
use go_daily_learning.Cancel.{
  Level, parent, child, grandchild, Watcher, waiting, sending, ended, Observer, canceling,
  receiving, checking, cleaning, draining, finishing, returned, Scene, CancelMove, observer_acts,
  wakes, sends, cancel_move, new_scene, observe_cancel, set_watcher, watcher, is_done, observer_act,
  receive, drop_name,
}
use go_daily_learning.Cancel.Observe.{Inv, observe_cancel-Inv}

abbrev place : Level → ℕ
place parent = 3
place child = 2
place grandchild = 1

abbrev effort_observer : Observer → ℕ
effort_observer (canceling l) = 12 + place l
effort_observer (receiving n) = 9 + n
effort_observer checking = 8
effort_observer (cleaning l) = 4 + place l
effort_observer draining = 4
effort_observer (finishing l) = place l
effort_observer returned = 0

abbrev effort_watcher : Watcher → ℕ
effort_watcher waiting = 2
effort_watcher sending = 1
effort_watcher ended = 0

abbrev effort : Scene → ℕ
effort s =
    effort_observer s.observer
    + effort_watcher s.watchers.on_parent
    + effort_watcher s.watchers.on_child
    + effort_watcher s.watchers.on_grandchild

cancel_move-effort :
    (b : Bool) (s s' : Scene) (m : CancelMove) → cancel_move b s m ≡ some s' → effort s' < effort s
unfolding cancel_move
cancel_move-effort b s s' observer_acts e = ground arith
cancel_move-effort b s s' (wakes parent) e = ground arith
cancel_move-effort b s s' (wakes child) e = ground arith
cancel_move-effort b s s' (wakes grandchild) e = ground arith
cancel_move-effort b s s' (sends parent) e = ground arith
cancel_move-effort b s s' (sends child) e = ground arith
cancel_move-effort b s s' (sends grandchild) e = ground arith

abbrev CanMove : Bool → Scene → Type 0
CanMove b s = (m : CancelMove) × (s' : Scene) × (cancel_move b s m ≡ some s')

abbrev pending : Watcher → Bool → Bool
pending waiting d = d
pending sending d = d
pending ended d = false

-- A goroutine whose context is done can go on while the queue is empty.
pending-CanMove :
    (b : Bool) (s : Scene) (l : Level) (w : Watcher)
    → watcher l s.watchers ≡ w
    → s.queue ≡ []
    → pending w (is_done l s.tree) ≡ true
    → CanMove b s
unfolding cancel_move
pending-CanMove b s l waiting e q d =
    let s' : Scene = record s { watchers = set_watcher l sending s.watchers } in
    (wakes l, s', rw e (ap (λ c. if c then some s' else none) d))
pending-CanMove b s l sending e q d =
    let s' : Scene = record s {
      watchers = set_watcher l ended s.watchers;
      queue = s.queue ++ l ∷ [];
    } in
    (sends l, s', rw e (ap (λ (p : List Level). if ltb (length p) 3 then some s' else none) q))
pending-CanMove b s l ended e q d = absurd (ground arith)

abbrev receives : Observer → Bool
receives (receiving (suc n)) = true
receives draining = true
receives _ = false

some_pending :
    (b : Bool) (s : Scene)
    → Inv b s
    → receives s.observer ≡ true
    → s.queue ≡ []
    → 0
      < bit (pending s.watchers.on_parent s.tree.parent_done)
        + bit (pending s.watchers.on_child s.tree.child_done)
        + bit (pending s.watchers.on_grandchild s.tree.grandchild_done)
some_pending true s i o q = ground arith
some_pending false s i o q = ground arith

empty-CanMove :
    (b : Bool) (s : Scene) → Inv b s → receives s.observer ≡ true → s.queue ≡ [] → CanMove b s
empty-CanMove b s i o q =
    let p = some_pending b s i o q in
    elim (Bool-cases (pending s.watchers.on_parent s.tree.parent_done)) [
      | inl h ↦ pending-CanMove b s parent s.watchers.on_parent refl q h
      | inr h ↦ elim (Bool-cases (pending s.watchers.on_child s.tree.child_done)) [
        | inl k ↦ pending-CanMove b s child s.watchers.on_child refl q k
        | inr k ↦ pending-CanMove b s grandchild s.watchers.on_grandchild refl q (ground arith)
      ]
    ]

observer-CanMove :
    (b : Bool) (s : Scene) (o : Observer) (q : List Level)
    → s.observer ≡ o
    → s.queue ≡ q
    → Inv b s
    → (o ≡ returned) ⊎ CanMove b s
unfolding cancel_move
observer-CanMove b s (canceling l) q e k i = inr (observer_acts, _, ap (λ p. observer_act b p s) e)
observer-CanMove b s (receiving zero) q e k i =
    inr (observer_acts, _, ap (λ p. observer_act b p s) e)
observer-CanMove b s (receiving (suc n)) [] e k i = inr (empty-CanMove b s i (ap receives e) k)
observer-CanMove b s (receiving (suc n)) (name ∷ q) e k i =
    inr (observer_acts, _, ap (λ p. observer_act b p s) e ∙ ap (receive n s) k)
observer-CanMove b s checking q e k i = inr (observer_acts, _, ap (λ p. observer_act b p s) e)
observer-CanMove b s (cleaning l) q e k i = inr (observer_acts, _, ap (λ p. observer_act b p s) e)
observer-CanMove b s draining [] e k i = inr (empty-CanMove b s i (ap receives e) k)
observer-CanMove b s draining (name ∷ q) e k i =
    inr (observer_acts, _, ap (λ p. observer_act b p s) e ∙ ap (drop_name s) k)
observer-CanMove b s (finishing l) q e k i = inr (observer_acts, _, ap (λ p. observer_act b p s) e)
observer-CanMove b s returned q e k i = inl refl

-- `observeCancel` is never stuck, and it returns: in every run at most 21 moves are enabled, and
-- until the caller is back one of the four can go on.
pub observe_cancel-returns :
    (b : Bool) (ms : List CancelMove)
    → (enabled (cancel_move b) ms (new_scene b) ≤ 21)
      × ((observe_cancel b ms).observer ≡ returned
          ⊎ ((m : CancelMove) × (s' : Scene) × (cancel_move b (observe_cancel b ms) m ≡ some s')))
unfolding observe_cancel new_scene
observe_cancel-returns b ms =
    let s : Scene = run_moves (cancel_move b) ms (new_scene b) in
    (
      at_most b _ _ (
          enabled-bound (cancel_move b) effort (λ s s' m e. cancel_move-effort b s s' m e) ms
            (new_scene b)),
      observer-CanMove b s s.observer s.queue refl refl (observe_cancel-Inv b ms),
    )
  where
    at_most : (b : Bool) (n k : ℕ) → n + k ≤ effort (new_scene b) → n ≤ 21
    at_most true n k h = omega arith
    at_most false n k h = omega arith
