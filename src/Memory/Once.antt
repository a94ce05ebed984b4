-- ===== src/Memory/Once.antt =====
-- `concurrentOnce` of adv009_memory_model/main.go: goroutines that call `once.Do` and then send,
-- and the caller that receives from each. `workers` is 8 in the source, and the capacity of `done`.
use go_daily_learning.Prelude.{
  ℕ, zero, suc, ◌-◌, ◌+◌, Option, none, some, List, ltb, ◌==◌, if◌then◌else◌,
}
use go_daily_learning.Parties.{PartyMove, party_move}
use go_daily_learning.Steps.{run_moves}
use go_daily_learning.Threads.{World, replicate}
use go_daily_learning.Memory.{double}

-- A `sync.Once` before its first call, while that runs, and afterwards.
pub data OnceState : Type 0 where
  fresh busy over : OnceState

-- Before `once.Do`, before the store of its function and before the end of that call, before the
-- send, and after it.
pub data Worker : Type 0 where
  calling storing finishing sending gone : Worker

pub data Caller : Type 0 where
  receiving : ℕ → Caller
  returned : ℕ → Caller

pub record Shared : Type 0 where
  pub once : OnceState
  pub v : ℕ
  pub buffered : ℕ
  pub caller : Caller

-- The first call runs the function, a call during that one waits, and a later one does nothing.
abbrev enter : OnceState → Shared → Option (Shared × Worker)
enter fresh s = some (record s { once = busy }, storing)
enter busy s = none
enter over s = some (s, sending)

abbrev pub once_act : ℕ → ℕ → Unit {0} → Shared → Worker → Option (Shared × Worker)
once_act workers n u s calling = enter s.once s
once_act workers n u s storing = some (record s { v = double n }, finishing)
once_act workers n u s finishing = some (record s { once = over }, sending)
once_act workers n u s sending =
    if ltb s.buffered workers then some (record s { buffered = s.buffered + 1 }, gone) else none
once_act workers n u s gone = none

abbrev caller_act : Shared → Caller → Option Shared
caller_act s (receiving zero) = some (record s { caller = returned s.v })
caller_act s (receiving (suc k)) =
    if s.buffered == 0
    then none
    else some (record s { buffered = s.buffered - 1; caller = receiving k })
caller_act s (returned x) = none

abbrev pub once_caller_act : Unit {0} → Shared → List Worker → Option Shared
once_caller_act u s ts = caller_act s s.caller

abbrev pub OnceMove : Type 0
OnceMove = PartyMove (Unit {0}) (Unit {0})

unfoldable pub once_move : ℕ → ℕ → World Shared Worker → OnceMove → Option (World Shared Worker)
once_move workers n = party_move (once_act workers n) once_caller_act

abbrev pub new_once : ℕ → World Shared Worker
new_once workers = record {
  shared = record { once = fresh; v = 0; buffered = 0; caller = receiving workers };
  threads = replicate workers calling;
}

unfoldable pub concurrent_once : ℕ → ℕ → List OnceMove → World Shared Worker
unfolding once_move
concurrent_once workers n ms = run_moves (once_move workers n) ms (new_once workers)
