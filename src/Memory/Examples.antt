-- ===== src/Memory/Examples.antt =====
-- Runs of the programs of adv009_memory_model/main.go.
use go_daily_learning.Prelude.{◌+◌, ◌*◌, ◌≤◌, ◌≡◌, ◌⊎◌, refl, some, List, [], ◌∷◌, arith}
use go_daily_learning.Steps.{enabled, run_moves}
use go_daily_learning.Threads.{World}
use go_daily_learning.Parties.{on_thread, on_shared, party_move}
use go_daily_learning.Memory.{double}
use go_daily_learning.Memory.Channel as Channel
use go_daily_learning.Memory.Mutex as Mutex
use go_daily_learning.Memory.Once.{
  Shared, Worker, OnceMove, concurrent_once, once_move, new_once, returned,
}
use go_daily_learning.Memory.Ends.{concurrent_once-returns}

abbrev channel_run : List Channel.ChannelMove
channel_run = Channel.reads ∷ Channel.writes ∷ Channel.writes ∷ Channel.reads ∷ Channel.reads ∷ []

channel_run_returns : (Channel.publish_with_channel 21 channel_run).reader ≡ Channel.returned 42
unfolding Channel.publish_with_channel double
channel_run_returns = refl

-- The reader polls once too early.
abbrev mutex_run : List Mutex.MutexMove
mutex_run =
    Mutex.polls ∷ Mutex.polls ∷ Mutex.writes ∷ Mutex.polls ∷ Mutex.polls ∷ Mutex.polls
    ∷ Mutex.writes ∷ Mutex.writes ∷ Mutex.writes ∷ Mutex.writes ∷ []

abbrev once_run : List OnceMove
once_run =
    on_thread tt 1
    ∷ on_thread tt 0
    ∷ on_thread tt 1
    ∷ on_thread tt 1
    ∷ on_thread tt 1
    ∷ on_thread tt 0
    ∷ on_thread tt 0
    ∷ on_shared tt
    ∷ on_shared tt
    ∷ on_shared tt
    ∷ []

once_run_returns : (concurrent_once 2 21 once_run).shared.caller ≡ returned 42
unfolding concurrent_once once_move run_moves party_move double
once_run_returns = refl

concurrent_once-returns_example :
    let w = concurrent_once 2 21 once_run in
    (enabled (once_move 2 21) once_run (new_once 2) ≤ 5 * 2 + 1)
    × ((w.shared.caller ≡ returned (double 21))
        ⊎ ((m : OnceMove) × (w' : World Shared Worker) × (once_move 2 21 w m ≡ some w')))
concurrent_once-returns_example = concurrent_once-returns 2 21 once_run (omega arith)
