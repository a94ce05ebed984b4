-- ===== src/WaitGroup/Workers.antt =====
-- What `Wait` waits for in adv014_waitgroup_once/main.go, over every schedule.
use go_daily_learning.Prelude.{
  bit, ℕ, zero, suc, ◌+◌, ◌≤◌, ◌<◌, ◌≡◌, refl, false, some, List, ◌∷◌, arith, get_elem?, set, ◌==◌,
  if◌then◌else◌,
}
use go_daily_learning.Threads.{
  World, total, replicate, total-set, total-here, total_mono, total-replicate, total-replicate_one,
  run-keeps,
}
use go_daily_learning.WaitGroup.{
  Shared, Party, waiting, woken, read_value, working, leaving, fenced, adding, waits_first,
  reads_first, read_before, opened, act, run_correct_wait_group, run_wrong_add_in_goroutine,
}

abbrev at_work : Party → ℕ
at_work working = 1
at_work _ = 0

abbrev in_group : Party → ℕ
in_group working = 1
in_group leaving = 1
in_group _ = 0

-- Past `Wait`, in the right program.
abbrev past_wait : Party → ℕ
past_wait woken = 1
past_wait (read_value x) = 1
past_wait _ = 0

-- 1 for a result other than `n`, and for a goroutine of the other program.
abbrev wrong : ℕ → Party → ℕ
wrong n (read_value x) = if x == n then 0 else 1
wrong n fenced = 1
wrong n adding = 1
wrong n waits_first = 1
wrong n reads_first = 1
wrong n (read_before x) = 1
wrong n (opened x) = 1
wrong n _ = 0

record Inv (n : ℕ) (w : World Shared Party) : Type 0 where
  members : total in_group w.threads ≡ w.shared.counter
  made : w.shared.completed + total at_work w.threads ≡ n
  after_wait : 0 < total past_wait w.threads → w.shared.counter ≡ 0
  right : total (wrong n) w.threads ≡ 0

at_work≤in_group : (t : Party) → at_work t ≤ in_group t
at_work≤in_group t = ground arith

act-Inv :
    (n : ℕ) (w : World Shared Party) (i : ℕ) (t t' : Party) (s : Shared)
    → get_elem? w.threads i ≡ some t
    → act w.shared t ≡ some (s, t')
    → Inv n w
    → Inv n (record { shared = s; threads = set w.threads i t' })
act-Inv n w i t t' s e a inv =
    let b = total-set in_group w.threads i t t' e in
    let c = total-set at_work w.threads i t t' e in
    let d = total-set past_wait w.threads i t t' e in
    let f = total-set (wrong n) w.threads i t t' e in
    let g = total-here in_group w.threads i t e in
    let h = total-here at_work w.threads i t e in
    let k = total-here past_wait w.threads i t e in
    let l = total-here (wrong n) w.threads i t e in
    let m = total_mono at_work in_group at_work≤in_group w.threads in ground arith

begin-Inv :
    (n : ℕ)
    → Inv n (record {
      shared = record { counter = n; completed = 0; started = false };
      threads = waiting ∷ replicate n working;
    })
begin-Inv n =
    let a = total-replicate_one in_group n working refl in
    let b = total-replicate_one at_work n working refl in
    let c = total-replicate past_wait n working refl in
    let d = total-replicate (wrong n) n working refl in
    record {
      members = omega arith;
      made = omega arith;
      after_wait = λ p. absurd (omega arith);
      right = omega arith;
    }

-- Over every schedule, the count that `runCorrectWaitGroup` returns is the number of workers.
pub wait_for_all :
    (n : ℕ) (schedule : List ℕ) (i x : ℕ)
    → get_elem? (run_correct_wait_group n schedule).threads i ≡ some (read_value x)
    → x ≡ n
unfolding run_correct_wait_group
wait_for_all n schedule i x e =
    let inv = run-keeps act (Inv n) (act-Inv n) schedule _ (begin-Inv n) in
    let h = total-here (wrong n) (run_correct_wait_group n schedule).threads i (read_value x) e in
    ground arith

-- 1 for a party that stands where the wrong program cannot be before `start` is closed.
abbrev too_early : Party → ℕ
too_early waits_first = 0
too_early reads_first = 0
too_early (read_before x) = 0
too_early fenced = 0
too_early _ = 1

abbrev bad_before : Party → ℕ
bad_before (read_before zero) = 0
bad_before (read_before (suc x)) = 1
bad_before (opened zero) = 0
bad_before (opened (suc x)) = 1
bad_before _ = 0

-- 1 for the main goroutine before it closes `start`, 0 afterwards.
abbrev is_main : Party → ℕ
is_main waits_first = 1
is_main reads_first = 1
is_main (read_before x) = 1
is_main _ = 0

record WrongInv (w : World Shared Party) : Type 0 where
  main : total is_main w.threads + bit w.shared.started ≡ 1
  quiet : w.shared.started ≡ false → total too_early w.threads + w.shared.completed ≡ 0
  zeros : total bad_before w.threads ≡ 0

act-WrongInv :
    (w : World Shared Party) (i : ℕ) (t t' : Party) (s : Shared)
    → get_elem? w.threads i ≡ some t
    → act w.shared t ≡ some (s, t')
    → WrongInv w
    → WrongInv (record { shared = s; threads = set w.threads i t' })
act-WrongInv w i t t' s e a inv =
    let b = total-set is_main w.threads i t t' e in
    let c = total-set too_early w.threads i t t' e in
    let d = total-set bad_before w.threads i t t' e in
    let g = total-here is_main w.threads i t e in
    let h = total-here too_early w.threads i t e in
    let k = total-here bad_before w.threads i t e in ground arith

begin-WrongInv :
    (n : ℕ)
    → WrongInv (record {
      shared = record { counter = 0; completed = 0; started = false };
      threads = waits_first ∷ replicate n fenced;
    })
begin-WrongInv n =
    let a = total-replicate is_main n fenced refl in
    let b = total-replicate too_early n fenced refl in
    let c = total-replicate bad_before n fenced refl in
    record { main = omega arith; quiet = λ e. omega arith; zeros = omega arith }

-- Over every schedule, `Wait` of `runWrongAddInGoroutine` has waited for no worker: the count that
-- is read after it is 0, whatever the number of workers.
pub wrong_add-waits_for_none :
    (n : ℕ) (schedule : List ℕ) (i x : ℕ)
    → get_elem? (run_wrong_add_in_goroutine n schedule).threads i ≡ some (read_before x)
    → x ≡ 0
unfolding run_wrong_add_in_goroutine
wrong_add-waits_for_none n schedule i x e =
    let inv = run-keeps act WrongInv act-WrongInv schedule _ (begin-WrongInv n) in
    let h =
      total-here bad_before (run_wrong_add_in_goroutine n schedule).threads i (read_before x) e in
    ground arith
