-- ===== src/Schedtrace/Burst.antt =====
-- `runChannelBurst` of adv008_schedtrace/main.go: goroutines that wait for `start` to be closed and
-- then fill the buffered channel `done`.
use go_daily_learning.Prelude.{
  ℕ, zero, suc, ◌-◌, Bool, true, false, Option, none, some, List, ltb, ◌==◌, if◌then◌else◌,
}
use go_daily_learning.Parties.{PartyMove, party_move}
use go_daily_learning.Steps.{run_moves}
use go_daily_learning.Threads.{World, total, replicate}

-- At `<-start`, at the send, before the deferred `wg.Done`, and after it.
pub data Waiter : Type 0 where
  at_start : Waiter
  at_send : Waiter
  at_done : Waiter
  gone : Waiter

-- The caller before `close(start)`, with the number of values that it still receives (at `wg.Wait`
-- when there is none), and after its return.
pub data Receiver : Type 0 where
  before_close : Receiver
  receiving : ℕ → Receiver
  returned : Receiver

pub record Burst : Type 0 where
  pub capacity : ℕ
  pub started : Bool
  pub buffered : ℕ
  pub receiver : Receiver

pub data WaiterMove : Type 0 where
  wakes : WaiterMove
  sends : WaiterMove
  finishes : WaiterMove

abbrev pub waiter_act : WaiterMove → Burst → Waiter → Option (Burst × Waiter)
waiter_act wakes b at_start = if b.started then some (b, at_send) else none
waiter_act sends b at_send =
    if ltb b.buffered b.capacity
    then some (record b { buffered = suc b.buffered }, at_done)
    else none
waiter_act finishes b at_done = some (b, gone)
waiter_act _ b _ = none

pub data BurstMove : Type 0 where
  closes : BurstMove
  receives : BurstMove
  returns : BurstMove

-- The count of the `WaitGroup`.
abbrev pub left : Waiter → ℕ
left at_start = 1
left at_send = 1
left at_done = 1
left gone = 0

abbrev receiver_act : BurstMove → Burst → Receiver → ℕ → Option Burst
receiver_act closes b before_close n =
    some (record b { started = true; receiver = receiving b.capacity })
receiver_act receives b (receiving (suc k)) n =
    if b.buffered == 0
    then none
    else some (record b { buffered = b.buffered - 1; receiver = receiving k })
receiver_act returns b (receiving zero) n =
    if n == 0 then some (record b { receiver = returned }) else none
receiver_act _ b _ n = none

abbrev pub burst_act : BurstMove → Burst → List Waiter → Option Burst
burst_act k b ts = receiver_act k b b.receiver (total left ts)

abbrev pub burst_move :
    World Burst Waiter → PartyMove WaiterMove BurstMove → Option (World Burst Waiter)
burst_move = party_move waiter_act burst_act

abbrev pub run_channel_burst : ℕ → List (PartyMove WaiterMove BurstMove) → World Burst Waiter
run_channel_burst n ms = run_moves burst_move ms (record {
  shared = record { capacity = n; started = false; buffered = 0; receiver = before_close };
  threads = replicate n at_start;
})
