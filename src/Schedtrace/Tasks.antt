-- ===== src/Schedtrace/Tasks.antt =====
-- Which tasks of the worker pool of adv008_schedtrace/main.go were sent, are worked on and are
-- completed, over every run.
use go_daily_learning.Prelude.{
  length, ◌==◌, ℕ, ◌+◌, ◌≤◌, ◌≡◌, refl, sym, ◌∙◌, true, false, some, List, [], ◌∷◌, get_elem?, set,
  arith, ltb, if◌then◌else◌,
}
use go_daily_learning.Steps.{run_moves-keeps}
use go_daily_learning.Parties.{party_move-cases}
use go_daily_learning.Threads.{
  World, total, total-set, total-here, total-zero, total-replicate, total-replicate_one,
}
use go_daily_learning.Schedtrace.Pool.{
  Feeder, feeding, closed, PoolWorker, idle, busy, stopped, Pool, WorkerMove, takes, completes,
  stops, SharedMove, feeder_closes, cancels, worker_act, shared_act, PoolMove, pool_move,
  run_scheduler_demo, is_closed,
}

abbrev pub sent : Feeder → ℕ
sent (feeding i) = i
sent (closed i) = i

abbrev pub at_work : PoolWorker → ℕ
at_work idle = 0
at_work (busy n) = 1
at_work stopped = 0

abbrev pub has_stopped : PoolWorker → ℕ
has_stopped idle = 0
has_stopped (busy n) = 0
has_stopped stopped = 1

abbrev pub running : PoolWorker → ℕ
running idle = 1
running (busy n) = 1
running stopped = 0

abbrev pub one : PoolWorker → ℕ
one t = 1

-- 1 for the task that a worker is at, and for each task that was sent.
abbrev pub works_on : ℕ → PoolWorker → ℕ
works_on i idle = 0
works_on i (busy n) = if n == i then 1 else 0
works_on i stopped = 0

abbrev pub was_sent : ℕ → ℕ → ℕ
was_sent i n = if ltb i n then 1 else 0

-- How often a task is in a list.
abbrev pub times : ℕ → List ℕ → ℕ
times i [] = 0
times i (n ∷ ns) = (if n == i then 1 else 0) + times i ns

module _ (tasks : ℕ) where
  record WorkerStep (p p' : Pool) (t t' : PoolWorker) : Type 0 where
    same : p'.canceled ≡ p.canceled
    counted : p'.completed + at_work t' + sent p.feeder ≡ p.completed + at_work t + sent p'.feeder
    each :
        (i : ℕ)
        → times i p'.finished + works_on i t' + was_sent i (sent p.feeder)
          ≡ times i p.finished + works_on i t + was_sent i (sent p'.feeder)
    size : length p'.finished + p.completed ≡ length p.finished + p'.completed
    bound : sent p.feeder ≤ tasks → sent p'.feeder ≤ tasks
    kept_closed : is_closed p'.feeder ≡ is_closed p.feeder
    all_sent : is_closed p.feeder ≡ true → sent p'.feeder ≡ sent p.feeder
    stop_closed : p.canceled ≡ false → is_closed p.feeder ≡ false → has_stopped t' ≡ has_stopped t

  worker_act-WorkerStep :
      (k : WorkerMove) (p p' : Pool) (t t' : PoolWorker)
      → worker_act tasks k p t ≡ some (p', t')
      → WorkerStep p p' t t'
  worker_act-WorkerStep takes p p' t t' e = record {
    same = ground arith;
    counted = ground arith;
    each = λ i. ground arith;
    size = ground arith;
    bound = λ h. ground arith;
    kept_closed = ground arith;
    all_sent = λ h. ground arith;
    stop_closed = λ c h. ground arith;
  }
  worker_act-WorkerStep completes p p' t t' e = record {
    same = ground arith;
    counted = ground arith;
    each = λ i. ground arith;
    size = ground arith;
    bound = λ h. ground arith;
    kept_closed = ground arith;
    all_sent = λ h. ground arith;
    stop_closed = λ c h. ground arith;
  }
  worker_act-WorkerStep stops p p' t t' e = record {
    same = ground arith;
    counted = ground arith;
    each = λ i. ground arith;
    size = ground arith;
    bound = λ h. ground arith;
    kept_closed = ground arith;
    all_sent = λ h. ground arith;
    stop_closed = λ c h. ground arith;
  }

  pub record Inv (n : ℕ) (w : World Pool PoolWorker) : Type 0 where
    pub workers : total one w.threads ≡ n
    pub counted : w.shared.completed + total at_work w.threads ≡ sent w.shared.feeder
    pub each :
        (i : ℕ)
        → times i w.shared.finished + total (works_on i) w.threads
          ≡ was_sent i (sent w.shared.feeder)
    pub size : length w.shared.finished ≡ w.shared.completed
    pub bound : sent w.shared.feeder ≤ tasks
    pub all_sent :
        w.shared.canceled ≡ false → is_closed w.shared.feeder ≡ true → sent w.shared.feeder ≡ tasks
    pub none_stopped :
        w.shared.canceled ≡ false
        → is_closed w.shared.feeder ≡ false
        → total has_stopped w.threads ≡ 0

  on_thread-Inv :
      (n : ℕ) (w : World Pool PoolWorker) (k : WorkerMove) (i : ℕ) (t t' : PoolWorker) (p : Pool)
      → get_elem? w.threads i ≡ some t
      → worker_act tasks k w.shared t ≡ some (p, t')
      → Inv n w
      → Inv n (record { shared = p; threads = set w.threads i t' })
  on_thread-Inv n w k i t t' p g a inv =
      let s = worker_act-WorkerStep k w.shared p t t' a in
      record {
        workers = omega (arith, inv.workers, total-set one w.threads i t t' g);
        counted = omega (
          arith,
          inv.counted,
          s.counted,
          total-set at_work w.threads i t t' g,
          total-here at_work w.threads i t g,
        );
        each = λ j. omega (
          arith,
          inv.each j,
          s.each j,
          total-set (works_on j) w.threads i t t' g,
          total-here (works_on j) w.threads i t g,
        );
        size = omega (arith, inv.size, s.size);
        bound = s.bound inv.bound;
        all_sent = λ c h.
            let q = inv.all_sent (sym s.same ∙ c) (sym s.kept_closed ∙ h) in
            omega (arith, q, s.all_sent (sym s.kept_closed ∙ h));
        none_stopped = λ c h.
            let z = inv.none_stopped (sym s.same ∙ c) (sym s.kept_closed ∙ h) in
            omega (
              arith,
              z,
              s.stop_closed (sym s.same ∙ c) (sym s.kept_closed ∙ h),
              total-set has_stopped w.threads i t t' g,
            );
      }

  on_shared-Inv :
      (n : ℕ) (w : World Pool PoolWorker) (k : SharedMove) (p : Pool)
      → shared_act tasks k w.shared w.threads ≡ some p
      → Inv n w
      → Inv n (record w { shared = p })
  on_shared-Inv n w feeder_closes p a inv =
      let c = inv.counted in
      let b = inv.bound in
      let s = inv.all_sent in
      let z = inv.none_stopped in
      record {
        workers = inv.workers;
        counted = ground arith;
        each = λ j. let d = inv.each j in ground arith;
        size = let d = inv.size in ground arith;
        bound = ground arith;
        all_sent = λ c h. ground arith;
        none_stopped = λ c h. ground arith;
      }
  on_shared-Inv n w cancels p a inv =
      let c = inv.counted in
      let b = inv.bound in
      let s = inv.all_sent in
      let z = inv.none_stopped in
      record {
        workers = inv.workers;
        counted = ground arith;
        each = λ j. let d = inv.each j in ground arith;
        size = let d = inv.size in ground arith;
        bound = ground arith;
        all_sent = λ c h. ground arith;
        none_stopped = λ c h. ground arith;
      }

  pub run_scheduler_demo-Inv : (n : ℕ) (ms : List PoolMove) → Inv n (run_scheduler_demo n tasks ms)
  run_scheduler_demo-Inv n ms =
      run_moves-keeps (pool_move tasks) (Inv n)
        (λ w w' m e inv.
          party_move-cases (worker_act tasks) (shared_act tasks) (Inv n) w w' m
            (λ k i t t' p g a. on_thread-Inv n w k i t t' p g a inv)
            (λ k p q a. on_shared-Inv n w k p a inv) e)
        ms _
        (record {
          workers = total-replicate_one one n idle refl;
          counted = let z = total-replicate at_work n idle refl in omega (arith, z);
          each = λ j. let z = total-replicate (works_on j) n idle refl in ground arith;
          size = refl;
          bound = omega arith;
          all_sent = λ c h. absurd (ground arith);
          none_stopped = λ c h. total-replicate has_stopped n idle refl;
        })

pub all_stopped :
    (ts : List PoolWorker)
    → total running ts ≡ 0
    → (total at_work ts ≡ 0) × (total has_stopped ts ≡ total one ts)
all_stopped [] z = (refl, refl)
all_stopped (t ∷ ts) z = let (p, q) = all_stopped ts (omega arith) in (ground arith, ground arith)

pub was_sent_mono : (i m n : ℕ) → m ≤ n → was_sent i m ≤ was_sent i n
was_sent_mono i m n h = ground arith

-- Where no worker is at work, none is at a task.
pub at_work-works_on :
    (i : ℕ) (ts : List PoolWorker) → total at_work ts ≡ 0 → total (works_on i) ts ≡ 0
at_work-works_on i ts z = total-zero at_work (works_on i) (λ t e. ground arith) ts z
