-- ===== src/WaitGroup.antt =====
-- adv014_waitgroup_once/main.go, lines 10 to 91: the state word of a `sync.WaitGroup`, the right
-- and the wrong place of `Add`. The word has the counter in its upper and the waiters in its lower
-- 32 bits. A call of `Add` or `Done` on the wait groups of the demonstrations is one action on the
-- counter.
pub mod Packed
pub mod Workers
use go_daily_learning.Prelude.{
  ℕ, zero, suc, ◌+◌, ◌-◌, ◌*◌, ◌/◌, ◌%◌, ◌^◌, ◌≡◌, Bool, true, false, Option, none, some, List, [],
  ◌∷◌, ◌==◌, ltb, if◌then◌else◌,
}
use go_daily_learning.Prelude.Int.{ℤ, pos, negsuc}
use go_daily_learning.Threads.{World, replicate, run}

-- `uint64(delta)` of an int64.
abbrev pub to_uint64 : ℤ → ℕ
to_uint64 (pos n) = n % 2 ^ 64
to_uint64 (negsuc n) = 2 ^ 64 - 1 - n % 2 ^ 64

-- A left shift by 32 of a 64-bit word.
abbrev pub high32_delta : ℤ → ℕ
high32_delta delta = to_uint64 delta * 2 ^ 32 % 2 ^ 64

-- `state.Add(d)`.
abbrev pub add_state : ℕ → ℕ → ℕ
add_state state d = (state + d) % 2 ^ 64

-- `int32(h)` of the upper half.
abbrev pub to_int32 : ℕ → ℤ
to_int32 h = if ltb h (2 ^ 31) then pos h else negsuc (2 ^ 32 - 1 - h)

abbrev pub counter_of : ℕ → ℤ
counter_of v = to_int32 (v / 2 ^ 32)

abbrev pub waiters_of : ℕ → ℕ
waiters_of v = v % 2 ^ 32

-- The three words of `simulatePackedState`.
abbrev pub simulate_packed_state : List ℕ
simulate_packed_state =
    let first = 2 * 2 ^ 32 in
    let second = add_state first 1 in
    let third = add_state second (high32_delta (negsuc 0)) in first ∷ second ∷ third ∷ []

-- What the demonstrations share: the counter of the wait group, `completed`, and whether `start` is
-- closed.
pub record Shared : Type 0 where
  pub counter : ℕ
  pub completed : ℕ
  pub started : Bool

-- The main goroutine before `Wait`, after it, and with the count it returns; a worker before and
-- after it raises `completed`, and at its end; a worker that still has to pass `start` and call
-- `Add`; and the main goroutine after it has read `returnedBefore`.
pub data Party : Type 0 where
  waiting : Party
  woken : Party
  read_value : ℕ → Party
  working : Party
  leaving : Party
  ended : Party
  fenced : Party
  adding : Party
  waits_first : Party
  reads_first : Party
  read_before : ℕ → Party
  opened : ℕ → Party

-- `leaving` comes after an `Add` of the same worker, so the counter is positive at each `Done`.
abbrev pub act : Shared → Party → Option (Shared × Party)
act s waiting = if s.counter == 0 then some (s, woken) else none
act s woken = some (s, read_value s.completed)
act s (read_value n) = none
act s working = some (record s { completed = s.completed + 1 }, leaving)
act s leaving = some (record s { counter = s.counter - 1 }, ended)
act s ended = none
act s fenced = if s.started then some (s, adding) else none
act s adding = some (record s { counter = s.counter + 1 }, working)
act s waits_first = if s.counter == 0 then some (s, reads_first) else none
act s reads_first = some (s, read_before s.completed)
act s (read_before n) = some (record s { started = true }, opened n)
act s (opened n) = none

-- `wg.Add(n)` comes before the workers are started.
unfoldable pub run_correct_wait_group : ℕ → List ℕ → World Shared Party
run_correct_wait_group n schedule = run act schedule (record {
  shared = record { counter = n; completed = 0; started = false };
  threads = waiting ∷ replicate n working;
})

-- Every worker calls `Add` itself, once `start` is closed.
unfoldable pub run_wrong_add_in_goroutine : ℕ → List ℕ → World Shared Party
run_wrong_add_in_goroutine n schedule = run act schedule (record {
  shared = record { counter = 0; completed = 0; started = false };
  threads = waits_first ∷ replicate n fenced;
})
