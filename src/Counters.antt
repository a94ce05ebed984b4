-- ===== src/Counters.antt =====
-- Counters that goroutines share: adv013_atomics_ordering/main.go (lines 11 to 38, 64 to 141 and
-- 181 to 240), a publication flag, an atomic counter, a counter under a mutex, and a spin lock, and
-- the counter without a lock of adv010_race_detector/main.go (lines 71 to 108). `v++` without an
-- atomic operation is a load and a store.
pub mod Locks
pub mod Publish
pub mod Races
use go_daily_learning.Prelude.{
  ℕ, zero, suc, ◌+◌, ◌-◌, ◌≡◌, Bool, true, false, Option, none, some, List, [], ◌∷◌, ◌==◌,
  if◌then◌else◌,
}
use go_daily_learning.Threads.{World, replicate, run}

-- `atomicCounter`, and `sumConcurrentlySafe`: a goroutine is the number of increments it has left.
abbrev pub atomic_act : ℕ → ℕ → Option (ℕ × ℕ)
atomic_act value zero = none
atomic_act value (suc n) = some (value + 1, n)

unfoldable pub run_atomic_counter : ℕ → ℕ → List ℕ → World ℕ ℕ
run_atomic_counter workers per_worker schedule =
    run atomic_act schedule (record { shared = 0; threads = replicate workers per_worker })

-- The program with `atomic.AddInt64`, with the 1000 of its inner loop as an argument.
unfoldable pub sum_concurrently_safe : ℕ → ℕ → List ℕ → World ℕ ℕ
sum_concurrently_safe goroutines rounds schedule =
    run atomic_act schedule (record { shared = 0; threads = replicate goroutines rounds })

pub record MutexCounter : Type 0 where
  pub locked : Bool
  pub value : ℕ

-- A goroutine with `n` calls of `inc` left: outside, with the lock, after the load of `value`, and
-- after the store.
pub data Incrementer : Type 0 where
  outside : ℕ → Incrementer
  entered : ℕ → Incrementer
  loaded : ℕ → ℕ → Incrementer
  stored : ℕ → Incrementer

abbrev pub mutex_act : MutexCounter → Incrementer → Option (MutexCounter × Incrementer)
mutex_act m (outside zero) = none
mutex_act m (outside (suc n)) =
    if m.locked then none else some (record m { locked = true }, entered n)
mutex_act m (entered n) = some (m, loaded m.value n)
mutex_act m (loaded v n) = some (record m { value = v + 1 }, stored n)
mutex_act m (stored n) = some (record m { locked = false }, outside n)

unfoldable pub run_mutex_counter : ℕ → ℕ → List ℕ → World MutexCounter Incrementer
run_mutex_counter workers per_worker schedule = run mutex_act schedule (record {
  shared = record { locked = false; value = 0 };
  threads = replicate workers (outside per_worker);
})

-- The counter without a lock: the same load and store. The steps for `entered` and `stored`, which
-- belong to the lock, are never reached.
abbrev pub unsafe_act : ℕ → Incrementer → Option (ℕ × Incrementer)
unsafe_act counter (outside zero) = none
unsafe_act counter (outside (suc n)) = some (counter, loaded counter n)
unsafe_act counter (entered n) = some (counter, loaded counter n)
unsafe_act counter (loaded v n) = some (v + 1, outside n)
unsafe_act counter (stored n) = some (counter, outside n)

-- `sumConcurrentlyUnsafe`, with the 1000 of its inner loop as an argument.
unfoldable pub sum_concurrently_unsafe : ℕ → ℕ → List ℕ → World ℕ Incrementer
sum_concurrently_unsafe goroutines rounds schedule =
    run unsafe_act schedule (record { shared = 0; threads = replicate goroutines (outside rounds) })

-- `spinMutex` and the counter `c` that `runSpinMutexDemo` guards with it.
pub record SpinMutex : Type 0 where
  pub locked : Bool
  pub retries : ℕ
  pub count : ℕ

pub data Spinner : Type 0 where
  trying : ℕ → Spinner
  holding : ℕ → Spinner
  counted : ℕ → Spinner

-- A failed compare-and-swap adds a retry and tries again.
abbrev pub spin_act : SpinMutex → Spinner → Option (SpinMutex × Spinner)
spin_act s (trying zero) = none
spin_act s (trying (suc n)) =
    if s.locked
    then some (record s { retries = s.retries + 1 }, trying (suc n))
    else some (record s { locked = true }, holding n)
spin_act s (holding n) = some (record s { count = s.count + 1 }, counted n)
spin_act s (counted n) = some (record s { locked = false }, trying n)

unfoldable pub run_spin_mutex : ℕ → ℕ → List ℕ → World SpinMutex Spinner
run_spin_mutex workers per_worker schedule = run spin_act schedule (record {
  shared = record { locked = false; retries = 0; count = 0 };
  threads = replicate workers (trying per_worker);
})

pub record PublishState : Type 0 where
  pub data_value : ℕ
  pub ready : Bool

-- The publisher of a value before each of its two stores; a reader in its loop, after the loop, and
-- with the value it returns.
pub data Party : Type 0 where
  writing : ℕ → Party
  publishing : Party
  published : Party
  polling : Party
  reading : Party
  returned : ℕ → Party

abbrev pub publish_act : PublishState → Party → Option (PublishState × Party)
publish_act p (writing v) = some (record p { data_value = v }, publishing)
publish_act p publishing = some (record p { ready = true }, published)
publish_act p published = none
publish_act p polling = some (p, if p.ready then reading else polling)
publish_act p reading = some (p, returned p.data_value)
publish_act p (returned v) = none

-- One publisher of `v` and any number of readers.
unfoldable pub run_publish : ℕ → ℕ → List ℕ → World PublishState Party
run_publish v readers schedule = run publish_act schedule (record {
  shared = record { data_value = 0; ready = false };
  threads = writing v ∷ replicate readers polling;
})
