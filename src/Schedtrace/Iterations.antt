-- ===== src/Schedtrace/Iterations.antt =====
-- What `runCPUWorkers` of adv008_schedtrace/main.go returns.
use go_daily_learning.Prelude.{
  ℕ, zero, suc, ◌+◌, ◌*◌, ◌≡◌, inl, inr, refl, Bool, true, some, List, get_elem?, arith,
  zero_or_more, set, subst,
}
use go_daily_learning.Steps.{run_moves-keeps}
use go_daily_learning.Parties.{PartyMove, party_move-cases}
use go_daily_learning.Threads.{
  World, total, total-set, total-here, total-replicate, total-replicate_times, total-zero,
}
use go_daily_learning.Schedtrace.Workers.{
  CpuStats, CpuWorker, spinning, adding, leaving, gone, CpuCaller, awaiting, joining, returned,
  CpuRun, CpuMove, cancels, caller_acts, cpu_worker_act, running, cpu_shared_act, cpu_move,
  new_cpu_run, run_cpu_workers,
}

-- The rounds that a worker has made, and those it has not added yet.
abbrev pub rounds : CpuWorker → ℕ
rounds (spinning n) = n
rounds (adding n) = n
rounds (leaving n) = n
rounds (gone n) = n

abbrev pub unreported : CpuWorker → ℕ
unreported (spinning n) = n
unreported (adding n) = n
unreported (leaving n) = 0
unreported (gone n) = 0

abbrev pub at_most : CpuWorker → ℕ
at_most t = 3

abbrev pub Place : ℕ → CpuCaller → Bool → List CpuWorker → Type 0
Place n awaiting d ts = Unit {0}
Place n joining d ts = d ≡ true
Place n (returned s) d ts =
    (s.started ≡ n) × (s.iterations ≡ total rounds ts) × (total running ts ≡ 0)

pub record Inv (n : ℕ) (w : World CpuRun CpuWorker) : Type 0 where
  pub counted : w.shared.iterations + total unreported w.threads ≡ total rounds w.threads
  pub place : Place n w.shared.caller w.shared.done w.threads
  pub crew : total at_most w.threads ≡ n * 3

unreported_zero : (t : CpuWorker) → running t ≡ 0 → unreported t ≡ 0
unreported_zero t e = ground arith

worker-Inv :
    (n i : ℕ) (w : World CpuRun CpuWorker) (t t' : CpuWorker) (s : CpuRun)
    → get_elem? w.threads i ≡ some t
    → cpu_worker_act tt w.shared t ≡ some (s, t')
    → Inv n w
    → Inv n (record { shared = s; threads = set w.threads i t' })
worker-Inv n i w t t' s e a v =
    let p = total-set unreported w.threads i t t' e in
    let q = total-set rounds w.threads i t t' e in
    let r = total-set at_most w.threads i t t' e in
    let u = total-set running w.threads i t t' e in
    let h = total-here running w.threads i t e in ground arith

shared-Inv :
    (n : ℕ) (k : CpuMove) (w : World CpuRun CpuWorker) (s : CpuRun)
    → cpu_shared_act n k w.shared w.threads ≡ some s
    → Inv n w
    → Inv n (record w { shared = s })
shared-Inv n cancels w s a v = ground arith
shared-Inv n caller_acts w s a v = elim (zero_or_more (total running w.threads)) [
  | inl z ↦
      let u = total-zero running unreported unreported_zero w.threads z in
      let c = v.counted in ground arith
  | inr p ↦ ground arith
]

cpu_move-Inv :
    (n : ℕ) (w w' : World CpuRun CpuWorker) (m : PartyMove (Unit {0}) CpuMove)
    → cpu_move n w m ≡ some w'
    → Inv n w
    → Inv n w'
unfolding cpu_move
cpu_move-Inv n w w' m e v =
    party_move-cases cpu_worker_act (cpu_shared_act n) (Inv n) w w' m
      (λ k i t t' s g a. worker-Inv n i w t t' s g a v) (λ k s q a. shared-Inv n k w s a v) e

new_cpu_run-Inv : (n : ℕ) → Inv n (new_cpu_run n)
new_cpu_run-Inv zero = omega arith
new_cpu_run-Inv (suc n) =
    let a = total-replicate unreported n (spinning 0) refl in
    let b = total-replicate rounds n (spinning 0) refl in
    let c = total-replicate_times at_most n (spinning 0) in
    record { counted = omega arith; place = tt; crew = omega arith }

pub run-Inv : (n : ℕ) (ms : List (PartyMove (Unit {0}) CpuMove)) → Inv n (run_cpu_workers n ms)
unfolding run_cpu_workers
run-Inv n ms =
    run_moves-keeps (cpu_move n) (Inv n) (λ w w' m e. cpu_move-Inv n w w' m e) ms (new_cpu_run n)
      (new_cpu_run-Inv n)

-- Over every interleaving, once `runCPUWorkers` has returned, its statistics have the number of
-- workers and the sum of the rounds that they made, and no worker is left.
pub run_cpu_workers-stats :
    (n : ℕ) (ms : List (PartyMove (Unit {0}) CpuMove)) (s : CpuStats)
    → let w = run_cpu_workers n ms in
      w.shared.caller ≡ returned s
      → (s.started ≡ n) × (s.iterations ≡ total rounds w.threads) × (total running w.threads ≡ 0)
run_cpu_workers-stats n ms s e =
    let v = run-Inv n ms in
    subst (λ c. Place n c (run_cpu_workers n ms).shared.done (run_cpu_workers n ms).threads) e
      v.place
