-- ===== src/Handoff/Unbuffered.antt =====
-- adv017_hchan_internals/main.go, lines 30 to 63: `unbufferedHandoffSequence`.
use go_daily_learning.Prelude.{
  ℕ, Bool, true, false, Option, none, some, List, [], ◌∷◌, ◌++◌, if◌then◌else◌,
}
use go_daily_learning.Steps.{run_moves}
use go_daily_learning.Handoff.{
  Event, blocked_before_receive, about_to_send_unbuffered, got_value, send_returned_confirmed,
}

-- The goroutine of `unbufferedHandoffSequence`: before each of its actions, with the value once it
-- has one.
pub data Receiver : Type 0 where
  starting closing_ready receiving : Receiver
  recording : ℕ → Receiver
  closing_got leaving ended : Receiver

pub data Sender : Type 0 where
  awaiting_ready announcing sending awaiting_got confirming joining : Sender
  returned : List Event → Sender

pub record Handoff : Type 0 where
  pub sender : Sender
  pub receiver : Receiver
  pub ready : Bool
  pub got : Bool
  pub left : Bool
  pub events : List Event

pub data HandoffMove : Type 0 where
  sender_acts receiver_acts meet : HandoffMove

sender_act : Sender → Handoff → Option Handoff
sender_act awaiting_ready h = if h.ready then some (record h { sender = announcing }) else none
sender_act announcing h =
    some (record h { sender = sending; events = h.events ++ about_to_send_unbuffered ∷ [] })
sender_act sending h = none
sender_act awaiting_got h = if h.got then some (record h { sender = confirming }) else none
sender_act confirming h =
    some (record h { sender = joining; events = h.events ++ send_returned_confirmed ∷ [] })
sender_act joining h = if h.left then some (record h { sender = returned h.events }) else none
sender_act (returned es) h = none

receiver_act : Receiver → Handoff → Option Handoff
receiver_act starting h =
    some (record h { receiver = closing_ready; events = h.events ++ blocked_before_receive ∷ [] })
receiver_act closing_ready h = some (record h { receiver = receiving; ready = true })
receiver_act receiving h = none
receiver_act (recording v) h =
    some (record h { receiver = closing_got; events = h.events ++ got_value v ∷ [] })
receiver_act closing_got h = some (record h { receiver = leaving; got = true })
receiver_act leaving h = some (record h { receiver = ended; left = true })
receiver_act ended h = none

-- The send of `v` and the receive, when both goroutines are there.
exchange : ℕ → Sender → Receiver → Handoff → Option Handoff
exchange v sending receiving h = some (record h { sender = awaiting_got; receiver = recording v })
exchange v s r h = none

unfoldable pub handoff_move : ℕ → Handoff → HandoffMove → Option Handoff
unfolding sender_act receiver_act exchange
handoff_move v h sender_acts = sender_act h.sender h
handoff_move v h receiver_acts = receiver_act h.receiver h
handoff_move v h meet = exchange v h.sender h.receiver h

unfoldable pub new_handoff : Handoff
new_handoff = record {
  sender = awaiting_ready;
  receiver = starting;
  ready = false;
  got = false;
  left = false;
  events = [];
}

-- `v` is 42 in the source.
unfoldable pub unbuffered_handoff : ℕ → List HandoffMove → Handoff
unfolding new_handoff handoff_move run_moves
unbuffered_handoff v ms = run_moves (handoff_move v) ms new_handoff
