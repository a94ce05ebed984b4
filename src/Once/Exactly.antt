-- ===== src/Once/Exactly.antt =====
-- The function of a `countingDoubleOnce` runs exactly once, over every schedule of its callers.
use go_daily_learning.Prelude.{
  bit, ℕ, ◌+◌, ◌≤◌, ◌<◌, ◌≡◌, refl, true, some, List, arith, get_elem?, set,
}
use go_daily_learning.Threads.{
  World, total, replicate, total-set, total-here, total_mono, total-replicate, total-replicate_one,
  run-keeps,
}
use go_daily_learning.Once.{
  CountingDoubleOnce, Caller, arriving, on_fast, on_slow, locking, checking, calling, storing,
  unlocking, returned, do_act, new_once, run_callers, run_once, warmed_up,
}

abbrev has_lock : Caller → ℕ
has_lock arriving = 0
has_lock on_fast = 0
has_lock on_slow = 0
has_lock locking = 0
has_lock checking = 1
has_lock calling = 1
has_lock storing = 1
has_lock unlocking = 1
has_lock returned = 0

abbrev in_body : Caller → ℕ
in_body arriving = 0
in_body on_fast = 0
in_body on_slow = 0
in_body locking = 0
in_body checking = 0
in_body calling = 1
in_body storing = 1
in_body unlocking = 0
in_body returned = 0

abbrev is_storing : Caller → ℕ
is_storing arriving = 0
is_storing on_fast = 0
is_storing on_slow = 0
is_storing locking = 0
is_storing checking = 0
is_storing calling = 0
is_storing storing = 1
is_storing unlocking = 0
is_storing returned = 0

-- 1 for a caller that has to find `done` set.
abbrev is_late : Caller → ℕ
is_late arriving = 0
is_late on_fast = 1
is_late on_slow = 0
is_late locking = 0
is_late checking = 0
is_late calling = 0
is_late storing = 0
is_late unlocking = 1
is_late returned = 1

-- 1 for a caller that has not counted itself.
abbrev pub uncounted : Caller → ℕ
uncounted arriving = 1
uncounted on_fast = 1
uncounted on_slow = 1
uncounted locking = 0
uncounted checking = 0
uncounted calling = 0
uncounted storing = 0
uncounted unlocking = 0
uncounted returned = 0

-- 1 for a caller that is past the first load and not on the fast path.
abbrev off_fast : Caller → ℕ
off_fast arriving = 0
off_fast on_fast = 0
off_fast on_slow = 1
off_fast locking = 1
off_fast checking = 1
off_fast calling = 1
off_fast storing = 1
off_fast unlocking = 1
off_fast returned = 0

in_body≤has_lock : (t : Caller) → in_body t ≤ has_lock t
in_body≤has_lock t = ground arith

is_storing≤in_body : (t : Caller) → is_storing t ≤ in_body t
is_storing≤in_body t = ground arith

record Inv (all : ℕ) (w : World CountingDoubleOnce Caller) : Type 0 where
  owner : total has_lock w.threads ≡ bit w.shared.locked
  once : w.shared.calls ≡ total is_storing w.threads + bit w.shared.done
  single : total in_body w.threads + bit w.shared.done ≤ 1
  late : 0 < total is_late w.threads → w.shared.done ≡ true
  counted : w.shared.fast_path + w.shared.slow_path + total uncounted w.threads ≡ all

do_act-Inv :
    (all : ℕ) (w : World CountingDoubleOnce Caller) (i : ℕ) (t t' : Caller) (s : CountingDoubleOnce)
    → get_elem? w.threads i ≡ some t
    → do_act w.shared t ≡ some (s, t')
    → Inv all w
    → Inv all (record { shared = s; threads = set w.threads i t' })
do_act-Inv all w i t t' s e a inv =
    let b = total-set has_lock w.threads i t t' e in
    let c = total-set in_body w.threads i t t' e in
    let d = total-set is_storing w.threads i t t' e in
    let f = total-set is_late w.threads i t t' e in
    let g = total-set uncounted w.threads i t t' e in
    let h = total-here has_lock w.threads i t e in
    let k = total-here in_body w.threads i t e in
    let l = total-here is_storing w.threads i t e in
    let m = total-here is_late w.threads i t e in
    let n = total_mono in_body has_lock in_body≤has_lock (set w.threads i t') in
    let o = total_mono is_storing in_body is_storing≤in_body (set w.threads i t') in ground arith

begin-Inv : (n : ℕ) → Inv n (record { shared = new_once; threads = replicate n arriving })
begin-Inv n =
    let a = total-replicate has_lock n arriving refl in
    let b = total-replicate in_body n arriving refl in
    let c = total-replicate is_storing n arriving refl in
    let d = total-replicate is_late n arriving refl in
    let e = total-replicate_one uncounted n arriving refl in
    record {
      owner = omega arith;
      once = omega arith;
      single = omega arith;
      late = λ p. absurd (omega arith);
      counted = omega arith;
    }

run-Inv : (n : ℕ) (schedule : List ℕ) → Inv n (run_callers new_once n schedule)
unfolding run_callers
run-Inv n schedule = run-keeps do_act (Inv n) (do_act-Inv n) schedule _ (begin-Inv n)

-- Over every schedule of any number of goroutines, the number of calls that `runOnce` counts is at
-- most 1.
pub called_at_most_once : (n : ℕ) (schedule : List ℕ) → run_once n schedule ≤ 1
unfolding run_once
called_at_most_once n schedule =
    let i = run-Inv n schedule in
    let m =
      total_mono is_storing in_body is_storing≤in_body (run_callers new_once n schedule).threads in
    omega (arith, i.once, i.single)

-- Over every schedule, once some caller is back from `Do`, the function has run, exactly once.
pub returned-called :
    (n : ℕ) (schedule : List ℕ) (k : ℕ)
    → get_elem? (run_callers new_once n schedule).threads k ≡ some returned
    → (run_callers new_once n schedule).shared.calls ≡ 1
returned-called n schedule k e =
    let i = run-Inv n schedule in
    let h = total-here is_late (run_callers new_once n schedule).threads k returned e in
    let m =
      total_mono is_storing in_body is_storing≤in_body (run_callers new_once n schedule).threads in
    let d = i.late (omega arith) in ground arith

record WarmInv (all : ℕ) (w : World CountingDoubleOnce Caller) : Type 0 where
  done : w.shared.done ≡ true
  slow : w.shared.slow_path ≡ 1
  calls : w.shared.calls ≡ 1
  paths : total off_fast w.threads ≡ 0
  counted : w.shared.fast_path + total uncounted w.threads ≡ all

do_act-WarmInv :
    (all : ℕ) (w : World CountingDoubleOnce Caller) (i : ℕ) (t t' : Caller) (s : CountingDoubleOnce)
    → get_elem? w.threads i ≡ some t
    → do_act w.shared t ≡ some (s, t')
    → WarmInv all w
    → WarmInv all (record { shared = s; threads = set w.threads i t' })
do_act-WarmInv all w i t t' s e a inv =
    let b = total-set off_fast w.threads i t t' e in
    let g = total-set uncounted w.threads i t t' e in
    let h = total-here off_fast w.threads i t e in ground arith

begin-WarmInv : (n : ℕ) → WarmInv n (record { shared = warmed_up; threads = replicate n arriving })
begin-WarmInv n =
    let a = total-replicate off_fast n arriving refl in
    let e = total-replicate_one uncounted n arriving refl in
    record { done = refl; slow = refl; calls = refl; paths = a; counted = omega arith }

-- Over every schedule of callers after the first call: no call takes the slow path, the function
-- does not run again, and the fast path counts every call that has counted itself.
pub warm-fast_path :
    (n : ℕ) (schedule : List ℕ)
    → ((run_callers warmed_up n schedule).shared.slow_path ≡ 1)
      × ((run_callers warmed_up n schedule).shared.calls ≡ 1)
      × ((run_callers warmed_up n schedule).shared.fast_path
            + total uncounted (run_callers warmed_up n schedule).threads
          ≡ n)
unfolding run_callers
warm-fast_path n schedule =
    let i = run-keeps do_act (WarmInv n) (do_act-WarmInv n) schedule _ (begin-WarmInv n) in
    (i.slow, i.calls, i.counted)
