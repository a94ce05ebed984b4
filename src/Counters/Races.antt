-- ===== src/Counters/Races.antt =====
-- The counter without a lock of adv010_race_detector/main.go: what a lost update can and cannot do.
use go_daily_learning.Prelude.{
  ℕ, suc, ◌+◌, ◌-◌, ◌*◌, ◌≤◌, ◌≡◌, refl, some, List, arith, get_elem?, set, ltb, if◌then◌else◌,
}
use go_daily_learning.Threads.{
  World, total, replicate, total-set, total-here, total-zero, total-replicate,
  total-replicate_times, run-keeps,
}
use go_daily_learning.Counters.{
  Incrementer, outside, entered, loaded, stored, unsafe_act, sum_concurrently_unsafe,
}

-- The stores that a goroutine has not made yet.
abbrev pub stores_left : Incrementer → ℕ
stores_left (outside n) = n
stores_left (entered n) = suc n
stores_left (loaded v n) = suc n
stores_left (stored n) = n

-- 1 for a goroutine whose loaded value is above `bound`.
abbrev ahead : ℕ → Incrementer → ℕ
ahead bound (outside n) = 0
ahead bound (entered n) = 0
ahead bound (loaded v n) = if ltb bound v then 1 else 0
ahead bound (stored n) = 0

ahead-zero : (a b : ℕ) → a ≤ b → (t : Incrementer) → ahead a t ≡ 0 → ahead b t ≡ 0
ahead-zero a b p t e = ground arith

record Inv (all : ℕ) (w : World ℕ Incrementer) : Type 0 where
  value : w.shared + total stores_left w.threads ≤ all
  loads : total (ahead (all - total stores_left w.threads)) w.threads ≡ 0

unsafe_act-Inv :
    (all : ℕ) (w : World ℕ Incrementer) (i : ℕ) (t t' : Incrementer) (s : ℕ)
    → get_elem? w.threads i ≡ some t
    → unsafe_act w.shared t ≡ some (s, t')
    → Inv all w
    → Inv all (record { shared = s; threads = set w.threads i t' })
unsafe_act-Inv all w i t t' s e a inv =
    let old = all - total stores_left w.threads in
    let new = all - total stores_left (set w.threads i t') in
    let b = total-set stores_left w.threads i t t' e in
    let c = total-set (ahead old) w.threads i t t' e in
    let d = total-here (ahead old) w.threads i t e in
    let f = total-here stores_left w.threads i t e in
    let g =
      total-zero (ahead old) (ahead new) (ahead-zero old new (ground arith)) (set w.threads i t') in
    ground arith

begin-Inv : (n k : ℕ) → Inv (n * k) (record { shared = 0; threads = replicate n (outside k) })
begin-Inv n k =
    let a = total-replicate_times stores_left n (outside k) in
    let b =
      total-replicate (ahead (n * k - total stores_left (replicate n (outside k)))) n (outside k)
        refl in
    record { value = omega arith; loads = b }

-- Over every schedule, the counter that goroutines raise without a lock is at most the number of
-- stores made so far: updates are lost, never invented.
pub unsafe_never_above :
    (goroutines rounds : ℕ) (schedule : List ℕ)
    → (sum_concurrently_unsafe goroutines rounds schedule).shared
        + total stores_left (sum_concurrently_unsafe goroutines rounds schedule).threads
      ≤ goroutines * rounds
unfolding sum_concurrently_unsafe
unsafe_never_above n k schedule =
    let inv =
      run-keeps unsafe_act (Inv (n * k)) (unsafe_act-Inv (n * k)) schedule _ (begin-Inv n k) in
    inv.value
