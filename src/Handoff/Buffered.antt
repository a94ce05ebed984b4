-- ===== src/Handoff/Buffered.antt =====
-- adv017_hchan_internals/main.go, lines 65 to 86: `bufferedSendSequence`.
use go_daily_learning.Prelude.{
  ℕ, Bool, true, false, Option, none, some, List, [], ◌∷◌, ◌++◌, if◌then◌else◌,
}
use go_daily_learning.Channel.{
  Channel, Sent, sent, full, send_panics, Received, received, empty, closed_empty, make_chan, send,
  receive,
}
use go_daily_learning.Steps.{run_moves}
use go_daily_learning.Handoff.{
  Event, about_to_send_buffered, send_returned_no_receiver, got_value, about_to_receive,
}

-- `bufferedSendSequence`: the sender starts the goroutine after its send has returned.
pub data Sender : Type 0 where
  announcing pushing reporting spawning joining : Sender
  returned : List Event → Sender

pub data Receiver : Type 0 where
  unborn arriving taking : Receiver
  recording : ℕ → Receiver
  leaving ended : Receiver

pub record Buffered : Type 0 where
  pub sender : Sender
  pub receiver : Receiver
  pub ch : Channel ℕ
  pub left : Bool
  pub events : List Event

pub data BufferedMove : Type 0 where
  sender_acts receiver_acts : BufferedMove

after_send : Buffered → Sent ℕ → Option Buffered
after_send b (sent ch') = some (record b { sender = reporting; ch = ch' })
after_send b full = none
after_send b send_panics = none

after_receive : Buffered → Received ℕ → Option Buffered
after_receive b (received v ch') = some (record b { receiver = recording v; ch = ch' })
after_receive b empty = none
after_receive b closed_empty = some (record b { receiver = recording 0 })

buffered_sender_act : ℕ → Sender → Buffered → Option Buffered
unfolding after_send
buffered_sender_act v announcing b =
    some (record b { sender = pushing; events = b.events ++ about_to_send_buffered ∷ [] })
buffered_sender_act v pushing b = after_send b (send b.ch v)
buffered_sender_act v reporting b =
    some (record b { sender = spawning; events = b.events ++ send_returned_no_receiver ∷ [] })
buffered_sender_act v spawning b = some (record b { sender = joining; receiver = arriving })
buffered_sender_act v joining b =
    if b.left then some (record b { sender = returned b.events }) else none
buffered_sender_act v (returned es) b = none

buffered_receiver_act : Receiver → Buffered → Option Buffered
unfolding after_receive
buffered_receiver_act unborn b = none
buffered_receiver_act arriving b =
    some (record b { receiver = taking; events = b.events ++ about_to_receive ∷ [] })
buffered_receiver_act taking b = after_receive b (receive b.ch)
buffered_receiver_act (recording v) b =
    some (record b { receiver = leaving; events = b.events ++ got_value v ∷ [] })
buffered_receiver_act leaving b = some (record b { receiver = ended; left = true })
buffered_receiver_act ended b = none

unfoldable pub buffered_move : ℕ → Buffered → BufferedMove → Option Buffered
unfolding buffered_sender_act buffered_receiver_act
buffered_move v b sender_acts = buffered_sender_act v b.sender b
buffered_move v b receiver_acts = buffered_receiver_act b.receiver b

unfoldable pub new_buffered : Buffered
new_buffered = record {
  sender = announcing;
  receiver = unborn;
  ch = make_chan 1;
  left = false;
  events = [];
}

unfoldable pub buffered_send : ℕ → List BufferedMove → Buffered
unfolding new_buffered buffered_move run_moves
buffered_send v ms = run_moves (buffered_move v) ms new_buffered
