-- ===== src/Handoff/Order.antt =====
-- The order of events around the unbuffered channel of adv017_hchan_internals/main.go.
use go_daily_learning.Prelude.{
  ℕ, ◌≤◌, ◌+◌, ◌<◌, ◌≡◌, Bool, true, false, ◌||◌, some, List, [], ◌∷◌, arith,
}
use go_daily_learning.Steps.{run_moves, run_moves-keeps, enabled, enabled-bound, goes}
use go_daily_learning.Handoff.{
  Event, blocked_before_receive, about_to_send_unbuffered, got_value, send_returned_confirmed,
}
use go_daily_learning.Handoff.Unbuffered.{
  Receiver, starting, closing_ready, receiving, recording, closing_got, leaving, ended, Sender,
  awaiting_ready, announcing, sending, awaiting_got, confirming, joining, returned, Handoff,
  HandoffMove, sender_acts, receiver_acts, meet, handoff_move, new_handoff, unbuffered_handoff,
}

-- The four events, in the order of the comments in the source.
abbrev pub all_events : ℕ → List Event
all_events v =
    blocked_before_receive ∷ about_to_send_unbuffered ∷ got_value v ∷ send_returned_confirmed ∷ []

abbrev three : ℕ → List Event
three v = blocked_before_receive ∷ about_to_send_unbuffered ∷ got_value v ∷ []

abbrev two : List Event
two = blocked_before_receive ∷ about_to_send_unbuffered ∷ []

-- Where the two goroutines can stand together, and what has been recorded then.
abbrev Stage : ℕ → Sender → Receiver → List Event → Type 0
Stage v awaiting_ready starting es = es ≡ []
Stage v awaiting_ready closing_ready es = es ≡ blocked_before_receive ∷ []
Stage v awaiting_ready receiving es = es ≡ blocked_before_receive ∷ []
Stage v announcing receiving es = es ≡ blocked_before_receive ∷ []
Stage v sending receiving es = es ≡ two
Stage v awaiting_got (recording x) es = (x ≡ v) × (es ≡ two)
Stage v awaiting_got closing_got es = es ≡ three v
Stage v awaiting_got leaving es = es ≡ three v
Stage v awaiting_got ended es = es ≡ three v
Stage v confirming leaving es = es ≡ three v
Stage v confirming ended es = es ≡ three v
Stage v joining leaving es = es ≡ all_events v
Stage v joining ended es = es ≡ all_events v
Stage v (returned rs) ended es = (rs ≡ all_events v) × (es ≡ rs)
Stage v _ _ es = ⊥

abbrev is_ready : Receiver → Bool
is_ready starting = false
is_ready closing_ready = false
is_ready _ = true

abbrev has_got : Receiver → Bool
has_got leaving = true
has_got ended = true
has_got _ = false

abbrev has_left : Receiver → Bool
has_left ended = true
has_left _ = false

record Inv (v : ℕ) (h : Handoff) : Type 0 where
  stage : Stage v h.sender h.receiver h.events
  ready : h.ready ≡ is_ready h.receiver
  got : h.got ≡ has_got h.receiver
  left : h.left ≡ has_left h.receiver

new_handoff-Inv : (v : ℕ) → Inv v new_handoff
unfolding new_handoff
new_handoff-Inv v = ground arith

handoff_move-Inv :
    (v : ℕ) (h h' : Handoff) (m : HandoffMove) → handoff_move v h m ≡ some h' → Inv v h → Inv v h'
unfolding handoff_move
handoff_move-Inv v h h' sender_acts e i = ground arith
handoff_move-Inv v h h' receiver_acts e i = ground arith
handoff_move-Inv v h h' meet e i = ground arith

handoff-Inv : (v : ℕ) (ms : List HandoffMove) → Inv v (unbuffered_handoff v ms)
unfolding unbuffered_handoff
handoff-Inv v ms =
    run_moves-keeps (handoff_move v) (Inv v) (λ h h' m e. handoff_move-Inv v h h' m e) ms
      new_handoff (new_handoff-Inv v)

abbrev sender_effort : Sender → ℕ
sender_effort awaiting_ready = 6
sender_effort announcing = 5
sender_effort sending = 4
sender_effort awaiting_got = 3
sender_effort confirming = 2
sender_effort joining = 1
sender_effort (returned es) = 0

abbrev receiver_effort : Receiver → ℕ
receiver_effort starting = 6
receiver_effort closing_ready = 5
receiver_effort receiving = 4
receiver_effort (recording v) = 3
receiver_effort closing_got = 2
receiver_effort leaving = 1
receiver_effort ended = 0

abbrev effort : Handoff → ℕ
effort h = sender_effort h.sender + receiver_effort h.receiver

handoff_move-effort :
    (v : ℕ) (h h' : Handoff) (m : HandoffMove) → handoff_move v h m ≡ some h' → effort h' < effort h
unfolding handoff_move
handoff_move-effort v h h' sender_acts e = ground arith
handoff_move-effort v h h' receiver_acts e = ground arith
handoff_move-effort v h h' meet e = ground arith

-- Some goroutine can go on, or they meet.
abbrev pub any_goes : ℕ → Handoff → Bool
any_goes v h =
    goes (handoff_move v h sender_acts)
    || goes (handoff_move v h receiver_acts)
    || goes (handoff_move v h meet)

any_goes-Inv :
    (v : ℕ) (h : Handoff) → Inv v h → any_goes v h ≡ false → h.sender ≡ returned (all_events v)
unfolding handoff_move
any_goes-Inv v h i e = ground arith

-- Over every interleaving `unbufferedHandoffSequence` ends after at most 12 moves, and when nothing
-- can go on it has returned the four events in one order: the receiver waits, the sender is about
-- to send, the receiver has the value, the send is confirmed.
pub unbuffered_handoff-order :
    (v : ℕ) (ms : List HandoffMove)
    → let h = unbuffered_handoff v ms in
      (enabled (handoff_move v) ms new_handoff ≤ 12)
      × (any_goes v h ≡ false → h.sender ≡ returned (all_events v))
unfolding unbuffered_handoff new_handoff
unbuffered_handoff-order v ms =
    let b =
      enabled-bound (handoff_move v) effort (λ h h' m e. handoff_move-effort v h h' m e) ms
        new_handoff in
    (
      omega (arith, b),
      any_goes-Inv v (run_moves (handoff_move v) ms new_handoff) (handoff-Inv v ms),
    )
