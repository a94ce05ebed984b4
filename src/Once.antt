-- ===== src/Once.antt =====
-- adv014_waitgroup_once/main.go, lines 106 to 166: `countingDoubleOnce`, the double-checked lock of
-- `sync.Once` with counters, called by goroutines. The function it runs once adds 1 to `calls`.
pub mod Exactly
use go_daily_learning.Prelude.{
  ℕ, zero, suc, ◌+◌, ◌≡◌, Bool, true, false, Option, none, some, List, if◌then◌else◌,
}
use go_daily_learning.Threads.{World, replicate, run}

pub record CountingDoubleOnce : Type 0 where
  pub locked : Bool
  pub done : Bool
  pub fast_path : ℕ
  pub slow_path : ℕ
  pub calls : ℕ

-- A caller of `Do`: before the first load of `done`; before it counts itself on the fast or the
-- slow path; before `Lock`; before the second load; before `f`; before the deferred store; before
-- the deferred `Unlock`; and back from the call.
pub data Caller : Type 0 where
  arriving : Caller
  on_fast : Caller
  on_slow : Caller
  locking : Caller
  checking : Caller
  calling : Caller
  storing : Caller
  unlocking : Caller
  returned : Caller

abbrev pub do_act : CountingDoubleOnce → Caller → Option (CountingDoubleOnce × Caller)
do_act o arriving = some (o, if o.done then on_fast else on_slow)
do_act o on_fast = some (record o { fast_path = o.fast_path + 1 }, returned)
do_act o on_slow = some (record o { slow_path = o.slow_path + 1 }, locking)
do_act o locking = if o.locked then none else some (record o { locked = true }, checking)
do_act o checking = some (o, if o.done then unlocking else calling)
do_act o calling = some (record o { calls = o.calls + 1 }, storing)
do_act o storing = some (record o { done = true }, unlocking)
do_act o unlocking = some (record o { locked = false }, returned)
do_act o returned = none

abbrev pub new_once : CountingDoubleOnce
new_once = record { locked = false; done = false; fast_path = 0; slow_path = 0; calls = 0 }

-- `n` goroutines that call `Do` on `o`.
unfoldable pub run_callers : CountingDoubleOnce → ℕ → List ℕ → World CountingDoubleOnce Caller
run_callers o n schedule =
    run do_act schedule (record { shared = o; threads = replicate n arriving })

-- After the first call of `runCountingOnceAfterFirst`, which took the slow path.
abbrev pub warmed_up : CountingDoubleOnce
warmed_up = record { locked = false; done = true; fast_path = 0; slow_path = 1; calls = 1 }

-- `runOnce`, whose `sync.Once` is the standard library's and takes the same steps without the two
-- counts.
pub run_once : ℕ → List ℕ → ℕ
run_once n schedule = (run_callers new_once n schedule).shared.calls
