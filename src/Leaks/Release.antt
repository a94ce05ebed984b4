-- ===== src/Leaks/Release.antt =====
-- adv024_goroutine_leak/main.go: the four functions that leak a goroutine, with the `release` that
-- they hand out, and the four that do not.
use go_daily_learning.Prelude.{ℕ, suc, Bool, true, false, Option, none, some, List, if◌then◌else◌}
use go_daily_learning.Steps.{run_moves}

-- What the goroutine waits for: a receiver, the end of a `range`, `ctx.Done()`, or `stop`.
pub data Cause : Type 0 where
  channel_send : Cause
  range_no_close : Cause
  context_never_cancelled : Cause
  loop_stop_not_signaled : Cause

-- The goroutine before `close(s)`, where it waits, and after its end.
pub data Waiter : Type 0 where
  unstarted : Waiter
  waiting : Waiter
  ended : Waiter

pub record Leak : Type 0 where
  pub waiter : Waiter
  pub started : Bool
  -- Whether the channel or the context that the goroutine waits for is closed.
  pub closed : Bool
  -- Whether `once` has run.
  pub released : Bool
  -- How often a channel was closed or a value received by `release`.
  pub releases : ℕ

pub data LeakMove : Type 0 where
  begins : LeakMove
  finishes : LeakMove
  releases_it : LeakMove

abbrev pub new_leak : Leak
new_leak = record {
  waiter = unstarted;
  started = false;
  closed = false;
  released = false;
  releases = 0;
}

abbrev begin : Leak → Waiter → Option Leak
begin s unstarted = some (record s { waiter = waiting; started = true })
begin s waiting = none
begin s ended = none

-- Where it waits the goroutine goes on when the channel or the context is closed. A send goes on
-- only with a receiver.
abbrev finish : Cause → Leak → Waiter → Option Leak
finish channel_send s w = none
finish _ s unstarted = none
finish _ s waiting = if s.closed then some (record s { waiter = ended }) else none
finish _ s ended = none

-- The receive of `release` meets the send of the goroutine.
abbrev receive : Leak → Waiter → Option Leak
receive s unstarted = none
receive s waiting = some (record s { waiter = ended; released = true; releases = suc s.releases })
receive s ended = none

abbrev release_once : Cause → Leak → Option Leak
release_once channel_send s = receive s s.waiter
release_once range_no_close s =
    some (record s { closed = true; released = true; releases = suc s.releases })
release_once context_never_cancelled s =
    some (record s { closed = true; released = true; releases = suc s.releases })
release_once loop_stop_not_signaled s =
    some (record s { closed = true; released = true; releases = suc s.releases })

unfoldable pub leak_move : Cause → Leak → LeakMove → Option Leak
leak_move c s begins = begin s s.waiter
leak_move c s finishes = finish c s s.waiter
leak_move c s releases_it = if s.released then some s else release_once c s

abbrev pub run_leak : Cause → List LeakMove → Leak
run_leak c ms = run_moves (leak_move c) ms new_leak

abbrev pub no_release : LeakMove → Bool
no_release begins = true
no_release finishes = true
no_release releases_it = false

abbrev pub is_ended : Waiter → Bool
is_ended unstarted = false
is_ended waiting = false
is_ended ended = true

abbrev pub is_send : Cause → Bool
is_send channel_send = true
is_send range_no_close = false
is_send context_never_cancelled = false
is_send loop_stop_not_signaled = false

-- The four functions that do not leak. The caller before it receives, closes or cancels, while it
-- waits for the goroutine, and after it returned.
pub data Caller : Type 0 where
  calling : Caller
  joining : Caller
  returned : Caller

-- The goroutine at its receive or send, before its deferred call, and after it.
pub data Helper : Type 0 where
  running : Helper
  deferring : Helper
  gone : Helper

pub record Fixed : Type 0 where
  pub caller : Caller
  pub helper : Helper
  pub closed : Bool
  -- Whether `wg` is at zero or the channel `done` is closed.
  pub done : Bool

pub data FixedMove : Type 0 where
  signals : FixedMove
  sees : FixedMove
  defers : FixedMove
  joins : FixedMove

abbrev pub new_fixed : Fixed
new_fixed = record { caller = calling; helper = running; closed = false; done = false }

abbrev signal : Cause → Fixed → Caller → Helper → Option Fixed
signal channel_send s calling running = some (record s { caller = joining; helper = deferring })
signal channel_send s calling deferring = none
signal channel_send s calling gone = none
signal range_no_close s calling h = some (record s { caller = joining; closed = true })
signal context_never_cancelled s calling h = some (record s { caller = joining; closed = true })
signal loop_stop_not_signaled s calling h = some (record s { caller = joining; closed = true })
signal c s joining h = none
signal c s returned h = none

abbrev see : Cause → Fixed → Helper → Option Fixed
see channel_send s h = none
see _ s running = if s.closed then some (record s { helper = deferring }) else none
see _ s deferring = none
see _ s gone = none

abbrev defer_done : Fixed → Helper → Option Fixed
defer_done s running = none
defer_done s deferring = some (record s { helper = gone; done = true })
defer_done s gone = none

abbrev join : Fixed → Caller → Option Fixed
join s calling = none
join s joining = if s.done then some (record s { caller = returned }) else none
join s returned = none

unfoldable pub fixed_move : Cause → Fixed → FixedMove → Option Fixed
fixed_move c s signals = signal c s s.caller s.helper
fixed_move c s sees = see c s s.helper
fixed_move c s defers = defer_done s s.helper
fixed_move c s joins = join s s.caller

abbrev pub run_fixed : Cause → List FixedMove → Fixed
run_fixed c ms = run_moves (fixed_move c) ms new_fixed
