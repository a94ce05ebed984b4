-- ===== src/Cancel.antt =====
-- adv019_context_cancel/main.go, lines 19 to 92: `observeCancel`. Three contexts, each derived from
-- the one before, a goroutine for each that waits for its `Done` and sends its name to `doneCh`,
-- and the caller, which cancels and receives. A move is the next atomic action of one of the four.
-- Cancelling a context closes its own `Done` and then those of its descendants, one after another,
-- so the goroutines can run in between.
mod Queue
pub mod Observe
pub mod Returns
mod Examples
use go_daily_learning.Prelude.{
  ℕ, zero, suc, Bool, true, false, Option, none, some, List, [], ◌∷◌, ◌++◌, length, ltb,
  if◌then◌else◌,
}
use go_daily_learning.Steps.{run_moves}

pub data Level : Type 0 where
  parent child grandchild : Level

-- Which `Done` channels are closed.
pub record Tree : Type 0 where
  pub parent_done : Bool
  pub child_done : Bool
  pub grandchild_done : Bool

-- What a caller of `observeCancel` gets.
pub record Seen : Type 0 where
  pub saw_parent : Bool
  pub saw_child : Bool
  pub saw_grandchild : Bool

pub data Watcher : Type 0 where
  waiting sending ended : Watcher

pub record Watchers : Type 0 where
  pub on_parent : Watcher
  pub on_child : Watcher
  pub on_grandchild : Watcher

-- Where the caller is: closing the `Done` of a level for its first cancel, receiving so many more
-- names, at the `select`, closing for the second `parentCancel`, receiving the name it drops, at
-- one of the three last cancels, or back.
pub data Observer : Type 0 where
  canceling : Level → Observer
  receiving : ℕ → Observer
  checking : Observer
  cleaning : Level → Observer
  draining : Observer
  finishing : Level → Observer
  returned : Observer

pub record Scene : Type 0 where
  pub observer : Observer
  pub tree : Tree
  pub watchers : Watchers
  pub queue : List Level
  pub seen : Seen

pub data CancelMove : Type 0 where
  observer_acts : CancelMove
  wakes : Level → CancelMove
  sends : Level → CancelMove

abbrev pub is_done : Level → Tree → Bool
is_done parent t = t.parent_done
is_done child t = t.child_done
is_done grandchild t = t.grandchild_done

unfoldable pub close_done : Level → Tree → Tree
close_done parent t = record t { parent_done = true }
close_done child t = record t { child_done = true }
close_done grandchild t = record t { grandchild_done = true }

-- The whole of a cancel function: nothing when the context is done, or else its `Done` and those of
-- its descendants are closed.
unfoldable pub cancel : Level → Tree → Tree
cancel parent t =
    if t.parent_done
    then t
    else record { parent_done = true; child_done = true; grandchild_done = true }
cancel child t = if t.child_done then t else record t { child_done = true; grandchild_done = true }
cancel grandchild t = record t { grandchild_done = true }

-- `case "parent": parentDone = true` and the like.
unfoldable pub mark : Level → Seen → Seen
mark parent r = record r { saw_parent = true }
mark child r = record r { saw_child = true }
mark grandchild r = record r { saw_grandchild = true }

-- `if name == "parent" { parentDone = true }`.
unfoldable pub mark_parent : Level → Seen → Seen
mark_parent parent r = record r { saw_parent = true }
mark_parent child r = r
mark_parent grandchild r = r

abbrev pub first_level : Bool → Level
first_level true = child
first_level false = parent

abbrev pub names_awaited : Bool → ℕ
names_awaited true = 2
names_awaited false = 3

-- What follows the close of a level, a loop over so many names, and a last cancel.
abbrev after_cancel : Bool → Level → Observer
after_cancel b parent = canceling child
after_cancel b child = canceling grandchild
after_cancel b grandchild = receiving (names_awaited b)

abbrev after_loop : Bool → Observer
after_loop true = checking
after_loop false = finishing parent

abbrev after_cleaning : Level → Observer
after_cleaning parent = cleaning child
after_cleaning child = cleaning grandchild
after_cleaning grandchild = draining

abbrev after_finish : Level → Observer
after_finish parent = finishing child
after_finish child = finishing grandchild
after_finish grandchild = returned

receive : ℕ → Scene → List Level → Option Scene
unfolding mark
receive n s [] = none
receive n s (name ∷ rest) =
    some (record s { observer = receiving n; queue = rest; seen = mark name s.seen })

select_name : Scene → List Level → Scene
unfolding mark_parent
select_name s [] = record s { observer = cleaning parent }
select_name s (name ∷ rest) = record s {
  observer = cleaning parent;
  queue = rest;
  seen = mark_parent name s.seen;
}

drop_name : Scene → List Level → Option Scene
drop_name s [] = none
drop_name s (name ∷ rest) = some (record s { observer = finishing parent; queue = rest })

observer_act : Bool → Observer → Scene → Option Scene
unfolding close_done receive select_name drop_name cancel
observer_act b (canceling l) s =
    some (record s { observer = after_cancel b l; tree = close_done l s.tree })
observer_act b (receiving zero) s = some (record s { observer = after_loop b })
observer_act b (receiving (suc n)) s = receive n s s.queue
observer_act b checking s = some (select_name s s.queue)
observer_act b (cleaning l) s =
    some (record s { observer = after_cleaning l; tree = close_done l s.tree })
observer_act b draining s = drop_name s s.queue
observer_act b (finishing l) s =
    some (record s { observer = after_finish l; tree = cancel l s.tree })
observer_act b returned s = none

abbrev pub watcher : Level → Watchers → Watcher
watcher parent w = w.on_parent
watcher child w = w.on_child
watcher grandchild w = w.on_grandchild

unfoldable pub set_watcher : Level → Watcher → Watchers → Watchers
set_watcher parent x w = record w { on_parent = x }
set_watcher child x w = record w { on_child = x }
set_watcher grandchild x w = record w { on_grandchild = x }

-- `<-ctx.Done()` goes on once the channel is closed.
wake : Level → Scene → Watcher → Option Scene
unfolding set_watcher
wake l s waiting =
    if is_done l s.tree
    then some (record s { watchers = set_watcher l sending s.watchers })
    else none
wake l s sending = none
wake l s ended = none

-- `doneCh <- name`, on a channel of capacity 3.
send : Level → Scene → Watcher → Option Scene
unfolding set_watcher
send l s waiting = none
send l s sending =
    if ltb (length s.queue) 3
    then some (record s { watchers = set_watcher l ended s.watchers; queue = s.queue ++ l ∷ [] })
    else none
send l s ended = none

-- `b` is the argument `cancelChild`.
unfoldable pub cancel_move : Bool → Scene → CancelMove → Option Scene
unfolding observer_act wake send
cancel_move b s observer_acts = observer_act b s.observer s
cancel_move b s (wakes l) = wake l s (watcher l s.watchers)
cancel_move b s (sends l) = send l s (watcher l s.watchers)

-- The three contexts are derived and the three goroutines started.
unfoldable pub new_scene : Bool → Scene
new_scene b = record {
  observer = canceling (first_level b);
  tree = record { parent_done = false; child_done = false; grandchild_done = false };
  watchers = record { on_parent = waiting; on_child = waiting; on_grandchild = waiting };
  queue = [];
  seen = record { saw_parent = false; saw_child = false; saw_grandchild = false };
}

unfoldable pub observe_cancel : Bool → List CancelMove → Scene
unfolding new_scene cancel_move run_moves
observe_cancel b ms = run_moves (cancel_move b) ms (new_scene b)
