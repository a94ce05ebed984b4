-- ===== src/Memory/Mutex.antt =====
-- `publishWithMutex` of adv009_memory_model/main.go: a writer and a reader that polls.
use go_daily_learning.Prelude.{ℕ, Bool, true, false, Option, none, some, List, if◌then◌else◌}
use go_daily_learning.Steps.{run_moves}
use go_daily_learning.Memory.{double}

-- Before `mu.Lock()`, each of the two stores and `mu.Unlock()`, and after it.
pub data Writer : Type 0 where
  locking storing flagging unlocking gone : Writer

-- A round of the loop: before `mu.Lock()`, the load of `v`, the load of `ready`, `mu.Unlock()` and
-- the test; and back.
pub data Poller : Type 0 where
  entering loading : Poller
  asking : ℕ → Poller
  leaving testing : ℕ → Bool → Poller
  returned : ℕ → Poller

pub record Guarded : Type 0 where
  pub locked : Bool
  pub v : ℕ
  pub ready : Bool
  pub writer : Writer
  pub poller : Poller

pub data MutexMove : Type 0 where
  writes polls : MutexMove

writer_act : ℕ → Writer → Guarded → Option Guarded
writer_act n locking s =
    if s.locked then none else some (record s { locked = true; writer = storing })
writer_act n storing s = some (record s { v = double n; writer = flagging })
writer_act n flagging s = some (record s { ready = true; writer = unlocking })
writer_act n unlocking s = some (record s { locked = false; writer = gone })
writer_act n gone s = none

poller_act : Poller → Guarded → Option Guarded
poller_act entering s =
    if s.locked then none else some (record s { locked = true; poller = loading })
poller_act loading s = some (record s { poller = asking s.v })
poller_act (asking x) s = some (record s { poller = leaving x s.ready })
poller_act (leaving x ok) s = some (record s { locked = false; poller = testing x ok })
poller_act (testing x ok) s = some (record s { poller = if ok then returned x else entering })
poller_act (returned x) s = none

unfoldable pub mutex_move : ℕ → Guarded → MutexMove → Option Guarded
unfolding writer_act poller_act
mutex_move n s writes = writer_act n s.writer s
mutex_move n s polls = poller_act s.poller s

unfoldable pub new_guarded : Guarded
new_guarded = record { locked = false; v = 0; ready = false; writer = locking; poller = entering }

unfoldable pub publish_with_mutex : ℕ → List MutexMove → Guarded
unfolding new_guarded mutex_move run_moves
publish_with_mutex n ms = run_moves (mutex_move n) ms new_guarded
