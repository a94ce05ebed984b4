-- ===== src/Schedtrace/Completed.antt =====
-- What the worker pool of adv008_schedtrace/main.go has completed, over every run.
use go_daily_learning.Prelude.{
  ap, length, ℕ, suc, ◌+◌, ◌-◌, ◌*◌, ◌≤◌, ◌<◌, ◌≡◌, refl, Bool, true, false, some, List, [], ◌∷◌,
  inl, inr, get_elem?, arith, Bool-cases, ltb, if◌then◌else◌,
}
use go_daily_learning.Steps.{run_moves, enabled, enabled-bound}
use go_daily_learning.Parties.{
  party_move-cases, party_move-on_thread, party_move-on_shared, on_thread, on_shared,
}
use go_daily_learning.Threads.{World, total, total-set, total-find, total-replicate_one}
use go_daily_learning.Schedtrace.Pool.{
  Feeder, feeding, closed, PoolWorker, idle, busy, stopped, Pool, WorkerMove, takes, completes,
  stops, SharedMove, feeder_closes, cancels, worker_act, shared_act, PoolMove, pool_move,
  run_scheduler_demo, is_closed,
}
use go_daily_learning.Schedtrace.Tasks.{
  running, times, was_sent, sent, run_scheduler_demo-Inv, all_stopped, was_sent_mono,
  at_work-works_on,
}

-- Over every run of the pool no task is completed twice, none is completed that there is not, and
-- the counter is the number of completed tasks; when every worker has ended, so that `wg.Wait`
-- returns, and `ctx` was not canceled, each task was completed exactly once and the counter is
-- `tasks` (with at least one worker).
pub run_scheduler_demo-completed :
    (n tasks : ℕ) (ms : List PoolMove)
    → let w = run_scheduler_demo (suc n) tasks ms in
      ((i : ℕ) → times i w.shared.finished ≤ (if ltb i tasks then 1 else 0))
      × (length w.shared.finished ≡ w.shared.completed)
      × (w.shared.completed ≤ tasks)
      × (total running w.threads ≡ 0
          → w.shared.canceled ≡ false
          → (w.shared.completed ≡ tasks)
            × ((i : ℕ) → times i w.shared.finished ≡ (if ltb i tasks then 1 else 0)))
run_scheduler_demo-completed n tasks ms =
    let w = run_scheduler_demo (suc n) tasks ms in
    let inv = run_scheduler_demo-Inv tasks (suc n) ms in
    (
      λ i.
          let e = inv.each i in
          let b = was_sent_mono i (sent w.shared.feeder) tasks inv.bound in omega (arith, e, b),
      inv.size,
      omega (arith, inv.counted, inv.bound),
      λ z c.
          let (p, q) = all_stopped w.threads z in
          elim (Bool-cases (is_closed w.shared.feeder)) [
            | inl h ↦ (
              omega (arith, inv.counted, p, inv.all_sent c h),
              λ i.
                  let none_left = at_work-works_on i w.threads p in
                  let e = inv.each i in
                  let s : was_sent i (sent w.shared.feeder) ≡ was_sent i tasks =
                    ap (was_sent i) (inv.all_sent c h) in
                  omega (arith, e, s, none_left),
            )
            | inr h ↦ absurd (omega (arith, q, inv.workers, inv.none_stopped c h))
          ],
    )

abbrev feeder_energy : ℕ → Feeder → ℕ
feeder_energy tasks (feeding i) = 1 + 3 * (tasks - i)
feeder_energy tasks (closed i) = 0

abbrev worker_energy : PoolWorker → ℕ
worker_energy idle = 1
worker_energy (busy n) = 2
worker_energy stopped = 0

abbrev pool_energy : ℕ → Pool → ℕ
pool_energy tasks p = feeder_energy tasks p.feeder + (if p.canceled then 0 else 1)

energy : ℕ → World Pool PoolWorker → ℕ
energy tasks w = pool_energy tasks w.shared + total worker_energy w.threads

worker_act-energy :
    (tasks : ℕ) (k : WorkerMove) (p p' : Pool) (t t' : PoolWorker)
    → worker_act tasks k p t ≡ some (p', t')
    → pool_energy tasks p' + worker_energy t' < pool_energy tasks p + worker_energy t
worker_act-energy tasks takes p p' t t' e = ground arith
worker_act-energy tasks completes p p' t t' e = ground arith
worker_act-energy tasks stops p p' t t' e = ground arith

shared_act-energy :
    (tasks : ℕ) (k : SharedMove) (p p' : Pool) (ts : List PoolWorker)
    → shared_act tasks k p ts ≡ some p'
    → pool_energy tasks p' < pool_energy tasks p
shared_act-energy tasks feeder_closes p p' ts e = ground arith
shared_act-energy tasks cancels p p' ts e = ground arith

Lower : ℕ → World Pool PoolWorker → World Pool PoolWorker → Type 0
unfolding energy
Lower tasks w w' = energy tasks w' < energy tasks w

pool_move-energy :
    (tasks : ℕ) (w w' : World Pool PoolWorker) (m : PoolMove)
    → pool_move tasks w m ≡ some w'
    → energy tasks w' < energy tasks w
unfolding energy Lower
pool_move-energy tasks w w' m e =
    party_move-cases (worker_act tasks) (shared_act tasks) (Lower tasks w) w w' m
      (λ k i t t' p g a. omega (
        arith,
        worker_act-energy tasks k w.shared p t t' a,
        total-set worker_energy w.threads i t t' g,
      ))
      (λ k p q a. omega (arith, shared_act-energy tasks k w.shared p w.threads a)) e

abbrev pub is_cancels : PoolMove → Bool
is_cancels (on_thread k i) = false
is_cancels (on_shared feeder_closes) = false
is_cancels (on_shared cancels) = true

-- A move of the pool itself is enabled.
pub Goes : ℕ → World Pool PoolWorker → Type 0
Goes tasks w =
    (m : PoolMove) × (w' : World Pool PoolWorker) × (is_cancels m ≡ false)
    × (pool_move tasks w m ≡ some w')

worker-Goes :
    (tasks : ℕ) (w : World Pool PoolWorker) (k : WorkerMove) (i : ℕ) (t t' : PoolWorker) (p : Pool)
    → get_elem? w.threads i ≡ some t
    → worker_act tasks k w.shared t ≡ some (p, t')
    → Goes tasks w
unfolding Goes
worker-Goes tasks w k i t t' p g a = (
  on_thread k i,
  _,
  refl,
  party_move-on_thread (worker_act tasks) (shared_act tasks) w k i t t' p g a,
)

feeder-Goes :
    (tasks : ℕ) (w : World Pool PoolWorker) (p : Pool)
    → shared_act tasks feeder_closes w.shared w.threads ≡ some p
    → Goes tasks w
unfolding Goes
feeder-Goes tasks w p a = (
  on_shared feeder_closes,
  _,
  refl,
  party_move-on_shared (worker_act tasks) (shared_act tasks) w feeder_closes p a,
)

running-Goes :
    (tasks : ℕ) (w : World Pool PoolWorker) (i : ℕ) (t : PoolWorker) (f : Feeder)
    → get_elem? w.threads i ≡ some t
    → w.shared.feeder ≡ f
    → 0 < running t
    → Goes tasks w
running-Goes tasks w i (busy n) f g e r =
    worker-Goes tasks w completes i (busy n) idle
      (record w.shared { completed = suc w.shared.completed; finished = n ∷ w.shared.finished }) g
      refl
running-Goes tasks w i stopped f g e r = absurd (ground arith)
running-Goes tasks w i idle (closed k) g e r =
    worker-Goes tasks w stops i idle stopped w.shared g (ground arith)
running-Goes tasks w i idle (feeding k) g e r = elim (Bool-cases (ltb k tasks)) [
  | inl l ↦
      worker-Goes tasks w takes i idle (busy k) (record w.shared { feeder = feeding (suc k) }) g
        (ground arith)
  | inr l ↦ feeder-Goes tasks w (record w.shared { feeder = closed k }) (ground arith)
]

-- `runSchedulerDemo` returns: in every state in which a worker is left, a move other than a
-- cancellation from outside is enabled, and no run has more than `3 * tasks + workers + 2` moves.
pub run_scheduler_demo-returns :
    (n tasks : ℕ) (ms : List PoolMove)
    → let w = run_scheduler_demo n tasks ms in
      (0 < total running w.threads → Goes tasks w)
      × (enabled (pool_move tasks) ms (run_scheduler_demo n tasks []) ≤ 3 * tasks + n + 2)
unfolding energy run_moves
run_scheduler_demo-returns n tasks ms =
    let w = run_scheduler_demo n tasks ms in
    (
      λ r.
          let (i, t, g, q) = total-find running w.threads r in
          running-Goes tasks w i t w.shared.feeder g refl q,
      let b =
            enabled-bound (pool_move tasks) (energy tasks) (pool_move-energy tasks) ms
              (run_scheduler_demo n tasks []) in
          let r = total-replicate_one worker_energy n idle refl in omega (arith, b, r),
    )
