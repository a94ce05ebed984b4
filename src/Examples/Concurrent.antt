-- ===== src/Examples/Concurrent.antt =====
-- The queues and the goroutines under schedules at concrete inputs.
use go_daily_learning.Prelude.{ℕ, ◌+◌, ◌≤◌, ◌≡◌, refl, some, List, [], ◌∷◌, get_elem?}
use go_daily_learning.Threads.{total, run}
use go_daily_learning.Rates.{run_with_semaphore}
use go_daily_learning.Rates.Semaphores.{chan_semaphore}
use go_daily_learning.Rates.Limit.{holds, peak_within_limit}
use go_daily_learning.Counters.{run_mutex_counter, run_publish, returned, sum_concurrently_unsafe}
use go_daily_learning.Counters.Locks.{in_section, to_do, mutex_counts}
use go_daily_learning.Once.{new_once, warmed_up, run_callers, run_once}
use go_daily_learning.Once as Once
use go_daily_learning.Once.Exactly.{returned-called}
use go_daily_learning.WaitGroup.{
  simulate_packed_state, read_value, read_before, run_correct_wait_group,
  run_wrong_add_in_goroutine,
}

-- Three goroutines, limit 1: the second one waits until the first has ended.
abbrev turns : List ℕ
turns = 0 ∷ 1 ∷ 0 ∷ 0 ∷ 0 ∷ 0 ∷ 0 ∷ 0 ∷ 1 ∷ 1 ∷ []

peak_example :
    ((run_with_semaphore chan_semaphore 1 3 turns).shared.max ≤ 1)
    × (total holds (run_with_semaphore chan_semaphore 1 3 turns).threads ≤ 1)
peak_example = peak_within_limit chan_semaphore 1 3 turns

peak_measured :
    (run_with_semaphore chan_semaphore 2 3 (0 ∷ 1 ∷ 0 ∷ 1 ∷ 0 ∷ 1 ∷ 0 ∷ 1 ∷ 1 ∷ 1 ∷ [])).shared.max
    ≡ 2
unfolding run_with_semaphore run
peak_measured = refl

mutex_example :
    (total in_section (run_mutex_counter 2 3 turns).threads ≤ 1)
    × ((run_mutex_counter 2 3 turns).shared.value
          + total to_do (run_mutex_counter 2 3 turns).threads
        ≡ 6)
mutex_example = mutex_counts 2 3 turns

-- Both goroutines load before either stores, and an update is lost.
lost_update : (sum_concurrently_unsafe 2 1 (0 ∷ 1 ∷ 0 ∷ 1 ∷ [])).shared ≡ 1
unfolding sum_concurrently_unsafe run
lost_update = refl

abbrev publish_turns : List ℕ
publish_turns = 1 ∷ 0 ∷ 0 ∷ 1 ∷ 1 ∷ []

reader_returned : get_elem? (run_publish 7 1 publish_turns).threads 1 ≡ some (returned 7)
unfolding run_publish run
reader_returned = refl

-- One caller runs the function, the other waits for the lock and finds it done.
abbrev once_turns : List ℕ
once_turns = 0 ∷ 1 ∷ 0 ∷ 1 ∷ 0 ∷ 1 ∷ 0 ∷ 0 ∷ 0 ∷ 0 ∷ 1 ∷ 1 ∷ []

caller_returned : get_elem? (run_callers new_once 2 once_turns).threads 0 ≡ some Once.returned
unfolding run_callers run
caller_returned = refl

once_returned_example : (run_callers new_once 2 once_turns).shared.calls ≡ 1
once_returned_example = returned-called 2 once_turns 0 caller_returned

packed_words : simulate_packed_state ≡ 8589934592 ∷ 8589934593 ∷ 4294967297 ∷ []
packed_words = refl

abbrev two : ℕ
two = 2

abbrev wait_turns : List ℕ
wait_turns = 0 ∷ 1 ∷ 2 ∷ 2 ∷ 1 ∷ 0 ∷ 0 ∷ []

main_returned : get_elem? (run_correct_wait_group 2 wait_turns).threads 0 ≡ some (read_value 2)
unfolding run_correct_wait_group run
main_returned = refl

abbrev nothing : ℕ
nothing = 0

main_read_early :
    get_elem? (run_wrong_add_in_goroutine 2 (1 ∷ 0 ∷ 0 ∷ [])).threads 0 ≡ some (read_before 0)
unfolding run_wrong_add_in_goroutine run
main_read_early = refl
