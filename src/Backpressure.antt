-- ===== src/Backpressure.antt =====
-- adv023_backpressure/main.go, lines 19 to 143: an unbounded queue under a lock, a queue that drops
-- what does not fit, and a queue that blocks. The lock makes each call one step; a call that would
-- wait is the case `waits`, which changes nothing.
pub mod Fifo
pub mod Drop
pub mod Scenarios
mod Examples
use go_daily_learning.Prelude.{
  ℕ, ◌+◌, ◌%◌, Bool, true, false, Option, none, some, List, [], ◌∷◌, ◌++◌, length, if◌then◌else◌,
}
use go_daily_learning.Channel.{
  Channel, Sent, sent, full, send_panics, Received, received, empty, closed_empty, make_chan, send,
  receive,
}

pub record UnboundedQueue : Type 0 where
  pub buf : List ℕ
  pub closed : Bool

pub data Popped : Type 0 where
  popped : ℕ → UnboundedQueue → Popped
  drained : Popped
  waits : Popped

pub new_unbounded_queue : UnboundedQueue
new_unbounded_queue = record { buf = []; closed = false }

pub push : UnboundedQueue → ℕ → UnboundedQueue
push q v = record q { buf = q.buf ++ v ∷ [] }

pop_from : UnboundedQueue → List ℕ → Popped
pop_from q [] = if q.closed then drained else waits
pop_from q (v ∷ rest) = popped v (record q { buf = rest })

pub pop : UnboundedQueue → Popped
unfolding pop_from
pop q = pop_from q q.buf

pub len : UnboundedQueue → ℕ
len q = length q.buf

pub close : UnboundedQueue → UnboundedQueue
close q = record q { closed = true }

-- The counter of dropped requests is a uint64.
pub record DropQueue : Type 0 where
  pub ch : Channel ℕ
  pub dropped : ℕ

pub new_drop_queue : ℕ → DropQueue
new_drop_queue capacity = record { ch = make_chan capacity; dropped = 0 }

-- The result of `select { case q.ch <- v: … default: … }`; `none` is the panic after `Close`.
pub try_push : DropQueue → ℕ → Option (DropQueue × Bool)
try_push q v = elim (send q.ch v) [
  | sent ch' ↦ some (record q { ch = ch' }, true)
  | full ↦ some (record q { dropped = (q.dropped + 1) % 18446744073709551616 }, false)
  | send_panics ↦ none
]

-- `none` where the call would wait; `(0, false)` once the channel is closed and empty.
pub drop_pop : DropQueue → Option (ℕ × Bool × DropQueue)
drop_pop q = elim (receive q.ch) [
  | received v ch' ↦ some (v, true, record q { ch = ch' })
  | empty ↦ none
  | closed_empty ↦ some (0, false, q)
]

pub drop_close : DropQueue → DropQueue
drop_close q = record q { ch = record (q.ch) { closed = true } }

pub drop_len : DropQueue → ℕ
drop_len q = length q.ch.buf

pub record BlockingQueue : Type 0 where
  pub ch : Channel ℕ

pub new_blocking_queue : ℕ → BlockingQueue
new_blocking_queue capacity = record { ch = make_chan capacity }

-- What a send on the channel says: it goes through, blocks while the buffer is full, or panics.
pub blocking_push : BlockingQueue → ℕ → Sent ℕ
blocking_push q v = send q.ch v

-- What a receive says; on a closed and drained channel `Pop` returns 0 and `Drain` ends.
pub blocking_pop : BlockingQueue → Received ℕ
blocking_pop q = receive q.ch

pub blocking_close : BlockingQueue → BlockingQueue
blocking_close q = record { ch = record q.ch { closed = true } }

pub blocking_len : BlockingQueue → ℕ
blocking_len q = length q.ch.buf
