-- ===== src/Memory/Channel.antt =====
-- `publishWithChannel` of adv009_memory_model/main.go, and that it returns the value.
use go_daily_learning.Prelude.{
  ℕ, ◌+◌, ◌≤◌, ◌<◌, ◌≡◌, refl, Bool, true, false, ◌||◌, Option, none, some, List, arith,
  if◌then◌else◌,
}
use go_daily_learning.Steps.{run_moves, run_moves-keeps, enabled, enabled-bound, goes}
use go_daily_learning.Memory.{double}

-- Before `v = n * 2`, before `close(done)`, and after it.
pub data Writer : Type 0 where
  storing closing gone : Writer

-- At `<-done`, before the load of `v`, and back.
pub data Reader : Type 0 where
  receiving loading : Reader
  returned : ℕ → Reader

pub record Shared : Type 0 where
  pub v : ℕ
  pub closed : Bool
  pub writer : Writer
  pub reader : Reader

pub data ChannelMove : Type 0 where
  writes reads : ChannelMove

writer_act : ℕ → Writer → Shared → Option Shared
writer_act n storing s = some (record s { v = double n; writer = closing })
writer_act n closing s = some (record s { closed = true; writer = gone })
writer_act n gone s = none

reader_act : Reader → Shared → Option Shared
reader_act receiving s = if s.closed then some (record s { reader = loading }) else none
reader_act loading s = some (record s { reader = returned s.v })
reader_act (returned x) s = none

unfoldable pub channel_move : ℕ → Shared → ChannelMove → Option Shared
unfolding writer_act reader_act
channel_move n s writes = writer_act n s.writer s
channel_move n s reads = reader_act s.reader s

unfoldable pub new_shared : Shared
new_shared = record { v = 0; closed = false; writer = storing; reader = receiving }

unfoldable pub publish_with_channel : ℕ → List ChannelMove → Shared
unfolding new_shared channel_move run_moves
publish_with_channel n ms = run_moves (channel_move n) ms new_shared

abbrev Written : ℕ → Writer → ℕ → Bool → Type 0
Written n storing v c = c ≡ false
Written n closing v c = (v ≡ double n) × (c ≡ false)
Written n gone v c = (v ≡ double n) × (c ≡ true)

abbrev Read : ℕ → Reader → Bool → Type 0
Read n receiving c = Unit {0}
Read n loading c = c ≡ true
Read n (returned x) c = x ≡ double n

record Inv (n : ℕ) (s : Shared) : Type 0 where
  written : Written n s.writer s.v s.closed
  read : Read n s.reader s.closed

channel_move-Inv :
    (n : ℕ) (s s' : Shared) (m : ChannelMove) → channel_move n s m ≡ some s' → Inv n s → Inv n s'
unfolding channel_move
channel_move-Inv n s s' writes e i = ground arith
channel_move-Inv n s s' reads e i = ground arith

publish-Inv : (n : ℕ) (ms : List ChannelMove) → Inv n (publish_with_channel n ms)
unfolding publish_with_channel new_shared
publish-Inv n ms =
    run_moves-keeps (channel_move n) (Inv n) (λ s s' m e. channel_move-Inv n s s' m e) ms new_shared
      (record { written = refl; read = tt })

abbrev effort_writer : Writer → ℕ
effort_writer storing = 2
effort_writer closing = 1
effort_writer gone = 0

abbrev effort_reader : Reader → ℕ
effort_reader receiving = 2
effort_reader loading = 1
effort_reader (returned x) = 0

abbrev effort : Shared → ℕ
effort s = effort_writer s.writer + effort_reader s.reader

channel_move-effort :
    (n : ℕ) (s s' : Shared) (m : ChannelMove) → channel_move n s m ≡ some s' → effort s' < effort s
unfolding channel_move
channel_move-effort n s s' writes e = ground arith
channel_move-effort n s s' reads e = ground arith

channel_move-stops :
    (n : ℕ) (s : Shared)
    → Inv n s
    → (goes (channel_move n s writes) || goes (channel_move n s reads)) ≡ false
    → s.reader ≡ returned (double n)
unfolding channel_move
channel_move-stops n s i e = ground arith

-- Over every interleaving at most 4 moves are enabled, and when none is, `publishWithChannel` has
-- returned the value that the other goroutine wrote.
pub publish_with_channel-returns :
    (n : ℕ) (ms : List ChannelMove)
    → let s = publish_with_channel n ms in
      (enabled (channel_move n) ms new_shared ≤ 4)
      × ((goes (channel_move n s writes) || goes (channel_move n s reads)) ≡ false
          → s.reader ≡ returned (double n))
unfolding publish_with_channel new_shared
publish_with_channel-returns n ms =
    let b =
      enabled-bound (channel_move n) effort (λ s s' m e. channel_move-effort n s s' m e) ms
        new_shared in
    (
      omega (arith, b),
      channel_move-stops n (run_moves (channel_move n) ms new_shared) (publish-Inv n ms),
    )
