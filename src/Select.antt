-- ===== src/Select.antt =====
-- adv018_select_impl/main.go, lines 9 to 94: channels that are always ready, polled in a fixed
-- order or by a `select`. The case that a `select` picks among the ready ones is an input: its
-- random order is the runtime's.
pub mod Fairness
use go_daily_learning.Prelude.{
  ℕ, zero, suc, ◌+◌, ◌≡◌, Bool, true, false, Option, none, some, List, [], ◌∷◌, get_elem?, set,
  ◌>>=◌,
}
use go_daily_learning.Channel.{
  Channel, make_chan, Sent, sent, full, send_panics, send, Received, received, empty, closed_empty,
  receive,
}

abbrev pub demo_channels : ℕ
demo_channels = 4

-- The value and the channel it was taken from; a receive on a closed channel gives 0 as well.
abbrev pub non_blocking_receive : Channel ℕ → Option (ℕ × Channel ℕ)
non_blocking_receive ch = elim (receive ch) [
  | received v ch' ↦ some (v, ch')
  | empty ↦ none
  | closed_empty ↦ some (0, ch)
]

abbrev fill : Channel ℕ → ℕ → Option (Channel ℕ)
fill ch v = elim (send ch v) [ sent ch' ↦ some ch' | full ↦ none | send_panics ↦ none ]

pub record Polled : Type 0 where
  pub chans : List (Channel ℕ)
  pub counts : List ℕ

-- `n` channels with room for one value, from number `i` on, each filled with its number.
abbrev pub full_channels : ℕ → ℕ → List (Channel ℕ)
full_channels zero i = []
full_channels (suc n) i = record (make_chan 1) { buf = i ∷ [] } ∷ full_channels n (suc i)

abbrev pub zeros : ℕ → List ℕ
zeros zero = []
zeros (suc n) = 0 ∷ zeros n

-- `counts[chosen]++`; `none` is an index out of range.
abbrev pub bump : List ℕ → ℕ → Option (List ℕ)
bump counts chosen = elim (get_elem? counts chosen) [
  | none ↦ none
  | some c ↦ some (set counts chosen (c + 1))
]

-- `chans[chosen] <- chosen`; `none` where it blocks.
abbrev pub refill : List (Channel ℕ) → ℕ → Option (List (Channel ℕ))
refill chans chosen = do
  ch ← get_elem? chans chosen
  ch' ← fill ch chosen
  some (set chans chosen ch')

-- A receive that succeeded on channel `i`: count its value and put it back.
took : Polled → ℕ → ℕ → Channel ℕ → Option Polled
took p i v ch' = do
  counts ← bump p.counts v
  chans ← refill (set p.chans i ch') v
  some (record { chans = chans; counts = counts })

-- The inner loop of `FixedOrderDemo` over the channels that are left; `none` is its panic.
poll_from : Polled → ℕ → List (Channel ℕ) → Option Polled
unfolding took
poll_from p i [] = none
poll_from p i (ch ∷ chs) =
    let rest = poll_from p (suc i) chs in
    elim (non_blocking_receive ch) [ some (v, ch') ↦ took p i v ch' | none ↦ rest ]

start : Polled
start = record { chans = full_channels demo_channels 0; counts = zeros demo_channels }

trials_from : ℕ → Polled → Option Polled
unfolding poll_from
trials_from zero p = some p
trials_from (suc n) p = do p' ← poll_from p 0 p.chans; trials_from n p'

unfoldable pub fixed_order_demo : ℕ → Option (List ℕ)
unfolding trials_from start
fixed_order_demo trials = do p ← trials_from trials start; some p.counts

-- One `select` that picks case `pick`; `none` where that case is not ready.
select_once : Polled → ℕ → Option Polled
unfolding took
select_once p pick = do
  ch ← get_elem? p.chans pick
  (v, ch') ← non_blocking_receive ch
  took p pick v ch'

selects_from : List ℕ → Polled → Option Polled
unfolding select_once
selects_from [] p = some p
selects_from (k ∷ ks) p = do p' ← select_once p k; selects_from ks p'

-- One trial for every pick.
unfoldable pub select_fairness_demo : List ℕ → Option (List ℕ)
unfolding selects_from start
select_fairness_demo picks = do p ← selects_from picks start; some p.counts
