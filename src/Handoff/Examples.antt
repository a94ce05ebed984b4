-- ===== src/Handoff/Examples.antt =====
-- Runs of the sequences of adv017_hchan_internals/main.go.
use go_daily_learning.Prelude.{◌≡◌, ◌≤◌, refl, false, List, [], ◌∷◌}
use go_daily_learning.Steps.{enabled}
use go_daily_learning.Handoff.Unbuffered.{
  HandoffMove, sender_acts, receiver_acts, meet, handoff_move, new_handoff, unbuffered_handoff,
  returned,
}
use go_daily_learning.Handoff.Order.{all_events, any_goes, unbuffered_handoff-order}
use go_daily_learning.Handoff.Buffered as Buffered
use go_daily_learning.Handoff.Arrival as Arrival

abbrev handoff_run : List HandoffMove
handoff_run =
    sender_acts ∷ receiver_acts ∷ receiver_acts ∷ sender_acts ∷ sender_acts ∷ meet ∷ sender_acts
    ∷ receiver_acts ∷ receiver_acts ∷ sender_acts ∷ sender_acts ∷ receiver_acts ∷ sender_acts ∷ []

handoff_run_ends : (unbuffered_handoff 42 handoff_run).sender ≡ returned (all_events 42)
unfolding unbuffered_handoff
handoff_run_ends = refl

unbuffered_handoff-order_example :
    let h = unbuffered_handoff 42 handoff_run in
    (enabled (handoff_move 42) handoff_run new_handoff ≤ 12)
    × (any_goes 42 h ≡ false → h.sender ≡ returned (all_events 42))
unbuffered_handoff-order_example = unbuffered_handoff-order 42 handoff_run

abbrev buffered_run : List Buffered.BufferedMove
buffered_run =
    Buffered.receiver_acts ∷ Buffered.sender_acts ∷ Buffered.sender_acts ∷ Buffered.sender_acts
    ∷ Buffered.sender_acts ∷ Buffered.receiver_acts ∷ Buffered.receiver_acts
    ∷ Buffered.receiver_acts ∷ Buffered.receiver_acts ∷ Buffered.sender_acts ∷ []

buffered_run_ends :
    (Buffered.buffered_send 42 buffered_run).sender ≡ Buffered.returned (Arrival.sent_first 42)
unfolding Buffered.buffered_send
buffered_run_ends = refl
