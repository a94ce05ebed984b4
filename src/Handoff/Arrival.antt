-- ===== src/Handoff/Arrival.antt =====
-- The order of events around the buffered channels of adv017_hchan_internals/main.go.
use go_daily_learning.Prelude.{
  ℕ, ◌≤◌, ◌+◌, ◌<◌, ◌≡◌, refl, Bool, true, false, ◌||◌, some, List, [], ◌∷◌, arith,
}
use go_daily_learning.Steps.{run_moves, run_moves-keeps, enabled, enabled-bound, goes}
use go_daily_learning.Handoff.{
  Event, about_to_send_buffered, send_returned_no_receiver, about_to_receive, got_value,
  sends_before_receives, first_receive, second_receive, circular_fifo, capacity_and_length,
}
use go_daily_learning.Handoff.Buffered.{
  Sender, announcing, pushing, reporting, spawning, joining, returned, Receiver, unborn, arriving,
  taking, recording, leaving, ended, Buffered, BufferedMove, sender_acts, receiver_acts,
  buffered_move, new_buffered, buffered_send,
}

abbrev pub sent_first : ℕ → List Event
sent_first v =
    about_to_send_buffered ∷ send_returned_no_receiver ∷ about_to_receive ∷ got_value v ∷ []

abbrev two : List Event
two = about_to_send_buffered ∷ send_returned_no_receiver ∷ []

abbrev three : List Event
three = about_to_send_buffered ∷ send_returned_no_receiver ∷ about_to_receive ∷ []

-- Where the two goroutines can stand together, with what is buffered and recorded then.
abbrev Stage : ℕ → Sender → Receiver → List ℕ → List Event → Type 0
Stage v announcing unborn buf es = (buf ≡ []) × (es ≡ [])
Stage v pushing unborn buf es = (buf ≡ []) × (es ≡ about_to_send_buffered ∷ [])
Stage v reporting unborn buf es = (buf ≡ v ∷ []) × (es ≡ about_to_send_buffered ∷ [])
Stage v spawning unborn buf es = (buf ≡ v ∷ []) × (es ≡ two)
Stage v joining arriving buf es = (buf ≡ v ∷ []) × (es ≡ two)
Stage v joining taking buf es = (buf ≡ v ∷ []) × (es ≡ three)
Stage v joining (recording x) buf es = (x ≡ v) × (es ≡ three)
Stage v joining leaving buf es = es ≡ sent_first v
Stage v joining ended buf es = es ≡ sent_first v
Stage v (returned rs) ended buf es = (rs ≡ sent_first v) × (es ≡ rs)
Stage v _ _ buf es = ⊥

abbrev has_left : Receiver → Bool
has_left ended = true
has_left _ = false

record Inv (v : ℕ) (b : Buffered) : Type 0 where
  stage : Stage v b.sender b.receiver b.ch.buf b.events
  left : b.left ≡ has_left b.receiver
  cap : b.ch.cap ≡ 1
  open_still : b.ch.closed ≡ false

new_buffered-Inv : (v : ℕ) → Inv v new_buffered
unfolding new_buffered
new_buffered-Inv v = ground arith

buffered_move-Inv :
    (v : ℕ) (b b' : Buffered) (m : BufferedMove)
    → buffered_move v b m ≡ some b'
    → Inv v b
    → Inv v b'
unfolding buffered_move
buffered_move-Inv v b b' sender_acts e i = ground arith
buffered_move-Inv v b b' receiver_acts e i = ground arith

buffered-Inv : (v : ℕ) (ms : List BufferedMove) → Inv v (buffered_send v ms)
unfolding buffered_send
buffered-Inv v ms =
    run_moves-keeps (buffered_move v) (Inv v) (λ b b' m e. buffered_move-Inv v b b' m e) ms
      new_buffered (new_buffered-Inv v)

abbrev sender_effort : Sender → ℕ
sender_effort announcing = 10
sender_effort pushing = 9
sender_effort reporting = 8
sender_effort spawning = 7
sender_effort joining = 1
sender_effort (returned es) = 0

abbrev receiver_effort : Receiver → ℕ
receiver_effort unborn = 0
receiver_effort arriving = 5
receiver_effort taking = 4
receiver_effort (recording v) = 3
receiver_effort leaving = 2
receiver_effort ended = 1

abbrev effort : Buffered → ℕ
effort b = sender_effort b.sender + receiver_effort b.receiver

buffered_move-effort :
    (v : ℕ) (b b' : Buffered) (m : BufferedMove)
    → buffered_move v b m ≡ some b'
    → effort b' < effort b
unfolding buffered_move
buffered_move-effort v b b' sender_acts e = ground arith
buffered_move-effort v b b' receiver_acts e = ground arith

abbrev pub any_goes : ℕ → Buffered → Bool
any_goes v b = goes (buffered_move v b sender_acts) || goes (buffered_move v b receiver_acts)

any_goes-Inv :
    (v : ℕ) (b : Buffered) → Inv v b → any_goes v b ≡ false → b.sender ≡ returned (sent_first v)
unfolding buffered_move
any_goes-Inv v b i e = ground arith

-- Over every interleaving `bufferedSendSequence` ends after at most 10 moves, and when nothing can
-- go on it has returned the four events in one order: both events of the send stand before those of
-- the receiver, which gets the value that was sent.
pub buffered_send-order :
    (v : ℕ) (ms : List BufferedMove)
    → let b = buffered_send v ms in
      (enabled (buffered_move v) ms new_buffered ≤ 10)
      × (any_goes v b ≡ false → b.sender ≡ returned (sent_first v))
unfolding buffered_send new_buffered
buffered_send-order v ms =
    let bound =
      enabled-bound (buffered_move v) effort (λ b b' m e. buffered_move-effort v b b' m e) ms
        new_buffered in
    (
      omega (arith, bound),
      any_goes-Inv v (run_moves (buffered_move v) ms new_buffered) (buffered-Inv v ms),
    )

-- The buffer of two gives its values back in the order of the sends.
circular_fifo_lem :
    (a b : ℕ)
    → circular_fifo a b ≡ some (sends_before_receives ∷ first_receive a ∷ second_receive b ∷ [])
unfolding circular_fifo
circular_fifo_lem a b = refl

capacity_and_length_lem : capacity_and_length ≡ some ((0, 0), (1, 2))
unfolding capacity_and_length
capacity_and_length_lem = refl
