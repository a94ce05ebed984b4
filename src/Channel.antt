-- ===== src/Channel.antt =====
-- A Go channel as the programs use it: a buffer of fixed capacity, closed at most once. The
-- handover to a receiver that waits on an unbuffered channel is not needed here: every channel that
-- is modelled has a capacity.
use go_daily_learning.Prelude.{ℕ, Bool, false, List, [], ◌∷◌, ◌++◌, length, ltb, if◌then◌else◌}

pub record Channel {ℓ} (A : Type ℓ) : Type ℓ where
  pub buf : List A
  pub cap : ℕ
  pub closed : Bool

-- A send goes through, finds the buffer full, or panics on a closed channel.
pub data Sent {ℓ} (A : Type ℓ) : Type ℓ where
  sent : Channel A → Sent A
  full : Sent A
  send_panics : Sent A

-- A receive gets a value, has to wait, or finds the channel closed and empty.
pub data Received {ℓ} (A : Type ℓ) : Type ℓ where
  received : A → Channel A → Received A
  empty : Received A
  closed_empty : Received A

module _ {ℓ} {A : Type ℓ} where
  abbrev pub make_chan : ℕ → Channel A
  make_chan n = record { buf = []; cap = n; closed = false }

  abbrev pub send : Channel A → A → Sent A
  send ch v =
      if ch.closed
      then send_panics
      else if ltb (length ch.buf) ch.cap
      then sent (record ch { buf = ch.buf ++ v ∷ [] })
      else full

  abbrev receive_from : Channel A → List A → Received A
  receive_from ch [] = if ch.closed then closed_empty else empty
  receive_from ch (v ∷ rest) = received v (record ch { buf = rest })

  abbrev pub receive : Channel A → Received A
  receive ch = receive_from ch ch.buf
