-- ===== src/Counters/Locks.antt =====
-- Mutual exclusion and exact counts for the counters of adv013_atomics_ordering/main.go.
use go_daily_learning.Prelude.{
  bit, ℕ, suc, ◌+◌, ◌*◌, ◌≤◌, ◌≡◌, refl, Bool, false, some, List, arith, get_elem?, set,
}
use go_daily_learning.Threads.{
  run, World, total, replicate, total-replicate_times, total-set, total-here, total_mono,
  total-replicate, total-zero, run-keeps,
}
use go_daily_learning.Counters.{
  atomic_act, run_atomic_counter, sum_concurrently_safe, MutexCounter, Incrementer, outside,
  entered, loaded, stored, mutex_act, run_mutex_counter, SpinMutex, Spinner, trying, holding,
  counted, spin_act, run_spin_mutex,
}

bit_bound : (n : ℕ) (b : Bool) → n ≡ bit b → n ≤ 1
bit_bound n b e = ground arith

-- The increments that a goroutine has not made yet.
abbrev pub left_of : ℕ → ℕ
left_of n = n

AtomicInv : ℕ → World ℕ ℕ → Type 0
AtomicInv all w = w.shared + total left_of w.threads ≡ all

atomic_act-Inv :
    (all : ℕ) (w : World ℕ ℕ) (i : ℕ) (t t' : ℕ) (s : ℕ)
    → get_elem? w.threads i ≡ some t
    → atomic_act w.shared t ≡ some (s, t')
    → AtomicInv all w
    → AtomicInv all (record { shared = s; threads = set w.threads i t' })
unfolding AtomicInv
atomic_act-Inv all w i t t' s e a inv = let h = total-set left_of w.threads i t t' e in ground arith

begin-AtomicInv : (n k : ℕ) → AtomicInv (n * k) (record { shared = 0; threads = replicate n k })
unfolding AtomicInv
begin-AtomicInv n k = let r = total-replicate_times left_of n k in omega arith

run-AtomicInv :
    (n k : ℕ) (schedule : List ℕ)
    → AtomicInv (n * k) (run atomic_act schedule (record { shared = 0; threads = replicate n k }))
run-AtomicInv n k schedule =
    run-keeps atomic_act (AtomicInv (n * k)) (atomic_act-Inv (n * k)) schedule _
      (begin-AtomicInv n k)

-- Over every schedule, the value of the atomic counter and the increments that are left make up all
-- the increments that the goroutines were started with.
pub atomic_counts :
    (workers per_worker : ℕ) (schedule : List ℕ)
    → ((run_atomic_counter workers per_worker schedule).shared
          + total left_of (run_atomic_counter workers per_worker schedule).threads
        ≡ workers * per_worker)
      × ((sum_concurrently_safe workers per_worker schedule).shared
            + total left_of (sum_concurrently_safe workers per_worker schedule).threads
          ≡ workers * per_worker)
unfolding run_atomic_counter sum_concurrently_safe AtomicInv
atomic_counts workers per_worker schedule =
    (run-AtomicInv workers per_worker schedule, run-AtomicInv workers per_worker schedule)

abbrev pub in_section : Incrementer → ℕ
in_section (outside n) = 0
in_section (entered n) = 1
in_section (loaded v n) = 1
in_section (stored n) = 1

abbrev pub to_do : Incrementer → ℕ
to_do (outside n) = n
to_do (entered n) = suc n
to_do (loaded v n) = suc n
to_do (stored n) = n

-- The loaded value a goroutine carries.
abbrev carried : Incrementer → ℕ
carried (outside n) = 0
carried (entered n) = 0
carried (loaded v n) = v
carried (stored n) = 0

abbrev carrying : Incrementer → ℕ
carrying (outside n) = 0
carrying (entered n) = 0
carrying (loaded v n) = 1
carrying (stored n) = 0

carrying-carried : (t : Incrementer) → carrying t ≡ 0 → carried t ≡ 0
carrying-carried t e = ground arith

carrying≤in_section : (t : Incrementer) → carrying t ≤ in_section t
carrying≤in_section t = ground arith

record MutexInv (all : ℕ) (w : World MutexCounter Incrementer) : Type 0 where
  owner : total in_section w.threads ≡ bit w.shared.locked
  current : total carrying w.threads ≡ 1 → total carried w.threads ≡ w.shared.value
  made : w.shared.value + total to_do w.threads ≡ all

mutex_act-Inv :
    (all : ℕ) (w : World MutexCounter Incrementer) (i : ℕ) (t t' : Incrementer) (s : MutexCounter)
    → get_elem? w.threads i ≡ some t
    → mutex_act w.shared t ≡ some (s, t')
    → MutexInv all w
    → MutexInv all (record { shared = s; threads = set w.threads i t' })
mutex_act-Inv all w i t t' s e a inv =
    let b = total-set in_section w.threads i t t' e in
    let c = total-set carrying w.threads i t t' e in
    let d = total-set carried w.threads i t t' e in
    let f = total-set to_do w.threads i t t' e in
    let g = total-here in_section w.threads i t e in
    let h = total-here carrying w.threads i t e in
    let k = total_mono carrying in_section carrying≤in_section w.threads in
    let m = total_mono carrying in_section carrying≤in_section (set w.threads i t') in
    let n = total-zero carrying carried carrying-carried (set w.threads i t') in
    let o = total-zero carrying carried carrying-carried w.threads in ground arith

begin-MutexInv :
    (n k : ℕ)
    → MutexInv (n * k) (record {
      shared = record { locked = false; value = 0 };
      threads = replicate n (outside k);
    })
begin-MutexInv n k =
    let a = total-replicate in_section n (outside k) refl in
    let b = total-replicate carrying n (outside k) refl in
    let c = total-replicate_times to_do n (outside k) in
    record { owner = omega arith; current = λ e. absurd (omega arith); made = omega arith }

run-MutexInv : (n k : ℕ) (schedule : List ℕ) → MutexInv (n * k) (run_mutex_counter n k schedule)
unfolding run_mutex_counter
run-MutexInv n k schedule =
    run-keeps mutex_act (MutexInv (n * k)) (mutex_act-Inv (n * k)) schedule _ (begin-MutexInv n k)

-- Over every schedule, at most one goroutine is between `Lock` and `Unlock` of the mutex counter,
-- and no increment is lost: the value and the increments that are left make up all of them.
pub mutex_counts :
    (workers per_worker : ℕ) (schedule : List ℕ)
    → (total in_section (run_mutex_counter workers per_worker schedule).threads ≤ 1)
      × ((run_mutex_counter workers per_worker schedule).shared.value
            + total to_do (run_mutex_counter workers per_worker schedule).threads
          ≡ workers * per_worker)
mutex_counts workers per_worker schedule =
    let i = run-MutexInv workers per_worker schedule in (bit_bound _ _ i.owner, i.made)

abbrev pub in_spin_section : Spinner → ℕ
in_spin_section (trying n) = 0
in_spin_section (holding n) = 1
in_spin_section (counted n) = 1

abbrev pub spin_to_do : Spinner → ℕ
spin_to_do (trying n) = n
spin_to_do (holding n) = suc n
spin_to_do (counted n) = n

record SpinInv (all : ℕ) (w : World SpinMutex Spinner) : Type 0 where
  owner : total in_spin_section w.threads ≡ bit w.shared.locked
  made : w.shared.count + total spin_to_do w.threads ≡ all

spin_act-Inv :
    (all : ℕ) (w : World SpinMutex Spinner) (i : ℕ) (t t' : Spinner) (s : SpinMutex)
    → get_elem? w.threads i ≡ some t
    → spin_act w.shared t ≡ some (s, t')
    → SpinInv all w
    → SpinInv all (record { shared = s; threads = set w.threads i t' })
spin_act-Inv all w i t t' s e a inv =
    let b = total-set in_spin_section w.threads i t t' e in
    let f = total-set spin_to_do w.threads i t t' e in
    let g = total-here in_spin_section w.threads i t e in ground arith

begin-SpinInv :
    (n k : ℕ)
    → SpinInv (n * k) (record {
      shared = record { locked = false; retries = 0; count = 0 };
      threads = replicate n (trying k);
    })
begin-SpinInv n k =
    let a = total-replicate in_spin_section n (trying k) refl in
    let c = total-replicate_times spin_to_do n (trying k) in
    record { owner = omega arith; made = omega arith }

run-SpinInv : (n k : ℕ) (schedule : List ℕ) → SpinInv (n * k) (run_spin_mutex n k schedule)
unfolding run_spin_mutex
run-SpinInv n k schedule =
    run-keeps spin_act (SpinInv (n * k)) (spin_act-Inv (n * k)) schedule _ (begin-SpinInv n k)

-- Over every schedule, at most one goroutine holds the spin lock, and the count and the increments
-- that are left make up all of them.
pub spin_counts :
    (workers per_worker : ℕ) (schedule : List ℕ)
    → (total in_spin_section (run_spin_mutex workers per_worker schedule).threads ≤ 1)
      × ((run_spin_mutex workers per_worker schedule).shared.count
            + total spin_to_do (run_spin_mutex workers per_worker schedule).threads
          ≡ workers * per_worker)
spin_counts workers per_worker schedule =
    let i = run-SpinInv workers per_worker schedule in (bit_bound _ _ i.owner, i.made)
