-- ===== src/Backpressure/Scenarios.antt =====
-- adv023_backpressure/main.go, lines 189 to 228, with `Drain` of both queues: `runDropScenario` and
-- `runBlockingScenario`. A producer and the goroutine that drains share a channel; a move is the
-- next atomic action of one of them. A receiver that waits at the channel is given the value
-- directly, so a capacity of 0 is covered too. Times are left out: a sleep may take any time.
pub mod Ascending
pub mod Outcome
pub mod Returns
use go_daily_learning.Prelude.{
  ℕ, ◌+◌, Bool, true, false, Option, none, some, List, [], ◌∷◌, ◌++◌, ltb, if◌then◌else◌,
}
use go_daily_learning.Channel.{
  Received, received, empty, closed_empty, sent, full, send_panics, make_chan,
}
use go_daily_learning.Steps.{run_moves}
use go_daily_learning.Backpressure.{
  DropQueue, try_push, drop_close, blocking_push, blocking_pop, blocking_close,
}

-- `dropping` is `runDropScenario`, `blocking` is `runBlockingScenario`.
pub data Mode : Type 0 where
  dropping blocking : Mode

pub data Producer : Type 0 where
  pushing closing joining returned : Producer

-- The draining goroutine is about to receive, waits in the receive, sleeps, or has ended.
pub data Drainer : Type 0 where
  at_receive parked working ended : Drainer

-- `accepted` counts the values that went in, and `taken` are these values in the order of their
-- pushes, which the program does not keep; `served` are the values received, in order.
pub record Scene : Type 0 where
  pub producer : Producer
  pub next : ℕ
  pub accepted : ℕ
  pub taken : List ℕ
  pub queue : DropQueue
  pub drainer : Drainer
  pub served : List ℕ

pub data ScenarioMove : Type 0 where
  produces drains : ScenarioMove

abbrev pub is_parked : Drainer → Bool
is_parked at_receive = false
is_parked parked = true
is_parked working = false
is_parked ended = false

count_push : Scene → Bool → Scene
count_push s true = record s {
  next = s.next + 1;
  accepted = s.accepted + 1;
  taken = s.taken ++ s.next ∷ [];
}
count_push s false = record s { next = s.next + 1 }

-- The value goes straight to the receiver that waits.
hand_over : Scene → Scene
unfolding count_push
hand_over s = count_push (record s { drainer = working; served = s.served ++ s.next ∷ [] }) true

-- `if q.TryPush(i) { accepted++ }`; `none` is a panic.
after_try_push : Scene → Option (DropQueue × Bool) → Option Scene
unfolding count_push
after_try_push s none = none
after_try_push s (some (q, went)) = some (count_push (record s { queue = q }) went)

-- `q.Push(i)`; `none` while it blocks.
push_blocking : Scene → Option Scene
unfolding count_push blocking_push
push_blocking s = elim (blocking_push (record { ch = s.queue.ch }) s.next) [
  | sent ch' ↦ some (count_push (record s { queue = record (s.queue) { ch = ch' } }) true)
  | full ↦ none
  | send_panics ↦ none
]

push_next : Mode → Scene → Option Scene
unfolding after_try_push push_blocking hand_over try_push
push_next dropping s =
    if is_parked s.drainer then some (hand_over s) else after_try_push s (try_push s.queue s.next)
push_next blocking s = if is_parked s.drainer then some (hand_over s) else push_blocking s

abbrev pub has_ended : Drainer → Bool
has_ended at_receive = false
has_ended parked = false
has_ended working = false
has_ended ended = true

close_queue : Mode → DropQueue → DropQueue
unfolding drop_close blocking_close
close_queue dropping q = drop_close q
close_queue blocking q = let b = blocking_close (record { ch = q.ch }) in record q { ch = b.ch }

-- `for i := 0; i < tasks; i++`, `q.Close()`, `wg.Wait()`, and the return.
producer_act : Mode → ℕ → Producer → Scene → Option Scene
unfolding push_next close_queue
producer_act m tasks pushing s =
    if ltb s.next tasks then push_next m s else some (record s { producer = closing })
producer_act m tasks closing s =
    some (record s { producer = joining; queue = close_queue m s.queue })
producer_act m tasks joining s =
    if has_ended s.drainer then some (record s { producer = returned }) else none
producer_act m tasks returned s = none

after_receive : Scene → Received ℕ → Scene
after_receive s (received v ch') = record s {
  queue = record (s.queue) { ch = ch' };
  drainer = working;
  served = s.served ++ v ∷ [];
}
after_receive s empty = record s { drainer = parked }
after_receive s closed_empty = record s { drainer = ended }

-- `for range q.ch { time.Sleep(work) }`.
drainer_act : Drainer → Scene → Option Scene
unfolding after_receive blocking_pop
drainer_act at_receive s = some (after_receive s (blocking_pop (record { ch = s.queue.ch })))
drainer_act parked s = if s.queue.ch.closed then some (record s { drainer = ended }) else none
drainer_act working s = some (record s { drainer = at_receive })
drainer_act ended s = none

unfoldable pub scenario_move : Mode → ℕ → Scene → ScenarioMove → Option Scene
unfolding producer_act drainer_act
scenario_move m tasks s produces = producer_act m tasks s.producer s
scenario_move m tasks s drains = drainer_act s.drainer s

unfoldable pub new_scene : ℕ → Scene
new_scene capacity = record {
  producer = pushing;
  next = 0;
  accepted = 0;
  taken = [];
  queue = record { ch = make_chan capacity; dropped = 0 };
  drainer = at_receive;
  served = [];
}

unfoldable pub run_scenario : Mode → ℕ → ℕ → List ScenarioMove → Scene
unfolding new_scene scenario_move run_moves
run_scenario m tasks capacity ms = run_moves (scenario_move m tasks) ms (new_scene capacity)

abbrev pub run_drop_scenario : ℕ → ℕ → List ScenarioMove → Scene
run_drop_scenario tasks capacity ms = run_scenario dropping tasks capacity ms

abbrev pub run_blocking_scenario : ℕ → ℕ → List ScenarioMove → Scene
run_blocking_scenario tasks capacity ms = run_scenario blocking tasks capacity ms
