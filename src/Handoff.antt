-- ===== src/Handoff.antt =====
-- adv017_hchan_internals/main.go, lines 9 to 116: what two goroutines record around an unbuffered
-- and a buffered channel. A value of `Event` stands for the text that `rec.add` makes; the recorder
-- is written under its mutex, so an `add` is one move. On the unbuffered channel a send and a
-- receive are one move of both goroutines.
pub mod Unbuffered
pub mod Buffered
pub mod Order
pub mod Arrival
mod Examples
use go_daily_learning.Prelude.{
  ℕ, Bool, true, false, Option, none, some, List, [], ◌∷◌, ◌++◌, length, if◌then◌else◌, ◌>>=◌,
}
use go_daily_learning.Channel.{
  Channel, Sent, sent, full, send_panics, Received, received, empty, closed_empty, make_chan, send,
  receive,
}
use go_daily_learning.Steps.{run_moves}

pub data Event : Type 0 where
  blocked_before_receive : Event
  about_to_send_unbuffered : Event
  got_value : ℕ → Event
  send_returned_confirmed : Event
  about_to_send_buffered : Event
  send_returned_no_receiver : Event
  about_to_receive : Event
  sends_before_receives : Event
  first_receive : ℕ → Event
  second_receive : ℕ → Event

sent_on : {A : Type 0} → Sent A → Option (Channel A)
sent_on (sent ch) = some ch
sent_on full = none
sent_on send_panics = none

received_on : {A : Type 0} → Received A → Option (A × Channel A)
received_on (received v ch) = some (v, ch)
received_on empty = none
received_on closed_empty = none

-- `bufferedCircularFIFOSequence` with the two values 1 and 2 as arguments; `none` where it would
-- block.
unfoldable pub circular_fifo : ℕ → ℕ → Option (List Event)
unfolding sent_on received_on
circular_fifo a b = do
  ch ← sent_on (send (make_chan 2) a)
  ch ← sent_on (send ch b)
  (v1, ch) ← received_on (receive ch)
  (v2, ch) ← received_on (receive ch)
  some (sends_before_receives ∷ first_receive v1 ∷ second_receive v2 ∷ [])

-- `channelCapacityAndLength`: length and capacity of the two channels.
unfoldable pub capacity_and_length : Option ((ℕ × ℕ) × (ℕ × ℕ))
unfolding sent_on
capacity_and_length = do
  let unbuffered = make_chan {A = ℕ} 0
  buffered ← sent_on {A = ℕ} (send (make_chan 2) 10)
  some ((length unbuffered.buf, unbuffered.cap), (length buffered.buf, buffered.cap))
