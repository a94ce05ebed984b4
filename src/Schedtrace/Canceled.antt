-- ===== src/Schedtrace/Canceled.antt =====
-- That `runCPUWorkers` of adv008_schedtrace/main.go returns once its context is canceled.
use native.Mathlib.Nat.{le_trans}
use go_daily_learning.Prelude.{
  ℕ, ◌+◌, ◌*◌, ◌≤◌, ◌<◌, ◌≡◌, ◌⊎◌, inl, inr, refl, true, some, List, get_elem?, arith, zero_or_more,
  set,
}
use go_daily_learning.Steps.{enabled, enabled-bound_within}
use go_daily_learning.Parties.{
  PartyMove, party_move-cases, on_thread, on_shared, party_move-on_thread, party_move-on_shared,
}
use go_daily_learning.Threads.{World, total, total-set, total-find, total_mono}
use go_daily_learning.Schedtrace.Workers.{
  CpuStats, CpuWorker, spinning, adding, leaving, gone, CpuCaller, awaiting, joining, returned,
  CpuRun, CpuMove, cancels, caller_acts, cpu_worker_act, running, cpu_shared_act, cpu_move,
  run_cpu_workers,
}
use go_daily_learning.Schedtrace.Iterations.{at_most, run-Inv}

abbrev work_left : CpuWorker → ℕ
work_left (spinning n) = 3
work_left (adding n) = 2
work_left (leaving n) = 1
work_left (gone n) = 0

abbrev caller_left : CpuCaller → ℕ
caller_left awaiting = 2
caller_left joining = 1
caller_left (returned s) = 0

abbrev effort : World CpuRun CpuWorker → ℕ
effort w = total work_left w.threads + caller_left w.shared.caller

abbrev IsDone : ℕ → World CpuRun CpuWorker → Type 0
IsDone n w = (w.shared.done ≡ true) × (total at_most w.threads ≡ n * 3)

worker-effort :
    (n i : ℕ) (w : World CpuRun CpuWorker) (t t' : CpuWorker) (s : CpuRun)
    → get_elem? w.threads i ≡ some t
    → cpu_worker_act tt w.shared t ≡ some (s, t')
    → IsDone n w
    → IsDone n (record { shared = s; threads = set w.threads i t' })
      × (effort (record { shared = s; threads = set w.threads i t' }) < effort w)
worker-effort n i w t t' s e a d =
    let p = total-set work_left w.threads i t t' e in
    let r = total-set at_most w.threads i t t' e in ground arith

shared-effort :
    (n : ℕ) (k : CpuMove) (w : World CpuRun CpuWorker) (s : CpuRun)
    → cpu_shared_act n k w.shared w.threads ≡ some s
    → IsDone n w
    → IsDone n (record w { shared = s }) × (effort (record w { shared = s }) < effort w)
shared-effort n cancels w s a d = ground arith
shared-effort n caller_acts w s a d = ground arith

cpu_move-effort :
    (n : ℕ) (w w' : World CpuRun CpuWorker) (m : PartyMove (Unit {0}) CpuMove)
    → cpu_move n w m ≡ some w'
    → IsDone n w
    → IsDone n w' × (effort w' < effort w)
unfolding cpu_move
cpu_move-effort n w w' m e d =
    party_move-cases cpu_worker_act (cpu_shared_act n) (λ v. IsDone n v × (effort v < effort w)) w
      w' m (λ k i t t' s g a. worker-effort n i w t t' s g a d)
      (λ k s q a. shared-effort n k w s a d) e

effort-IsDone : (n : ℕ) (w : World CpuRun CpuWorker) → IsDone n w → effort w ≤ n * 3 + 2
effort-IsDone n w d =
    let m = total_mono work_left at_most (λ t. ground arith) w.threads in ground arith

abbrev CanMove : ℕ → World CpuRun CpuWorker → Type 0
CanMove n w =
    (m : PartyMove (Unit {0}) CpuMove) × (w' : World CpuRun CpuWorker) × (cpu_move n w m ≡ some w')

-- While a worker is left it can go on, once the context is done or before.
worker-CanMove : (n : ℕ) (w : World CpuRun CpuWorker) → 0 < total running w.threads → CanMove n w
unfolding cpu_move
worker-CanMove n w p = let (i, t, g, q) = total-find running w.threads p in acts i t g q
  where
    acts : (i : ℕ) (t : CpuWorker) → get_elem? w.threads i ≡ some t → 0 < running t → CanMove n w
    acts i (spinning k) g q = (
      on_thread tt i,
      _,
      party_move-on_thread cpu_worker_act (cpu_shared_act n) w tt i (spinning k) _ _ g refl,
    )
    acts i (adding k) g q = (
      on_thread tt i,
      _,
      party_move-on_thread cpu_worker_act (cpu_shared_act n) w tt i (adding k) _ _ g refl,
    )
    acts i (leaving k) g q = (
      on_thread tt i,
      _,
      party_move-on_thread cpu_worker_act (cpu_shared_act n) w tt i (leaving k) _ _ g refl,
    )
    acts i (gone k) g q = absurd (omega arith)

abbrev IsBack : CpuCaller → Type 0
IsBack c = (s : CpuStats) × (c ≡ returned s)

done-CanMove :
    (n : ℕ) (w : World CpuRun CpuWorker) (c : CpuCaller)
    → w.shared.caller ≡ c
    → w.shared.done ≡ true
    → IsBack c ⊎ CanMove n w
unfolding cpu_move
done-CanMove n w awaiting e d = inr (
  on_shared caller_acts,
  _,
  party_move-on_shared cpu_worker_act (cpu_shared_act n) w caller_acts
      (record (w.shared) { caller = joining }) (ground arith),
)
done-CanMove n w joining e d = elim (zero_or_more (total running w.threads)) [
  | inl z ↦ inr (
    on_shared caller_acts,
    _,
    party_move-on_shared cpu_worker_act (cpu_shared_act n) w caller_acts
        (record (w.shared) {
          caller = returned (record { started = n; iterations = w.shared.iterations });
        })
        (ground arith),
  )
  | inr p ↦ inr (worker-CanMove n w p)
]
done-CanMove n w (returned s) e d = inl (s, refl)

-- Once the context is done `runCPUWorkers` returns: from then on at most 3 * workers + 2 moves are
-- enabled, and until the caller is back some move is.
pub run_cpu_workers-returns :
    (n : ℕ) (before after : List (PartyMove (Unit {0}) CpuMove))
    → let w = run_cpu_workers n before in
      w.shared.done ≡ true
      → (enabled (cpu_move n) after w ≤ n * 3 + 2) × (IsBack w.shared.caller ⊎ CanMove n w)
run_cpu_workers-returns n before after d =
    let w : World CpuRun CpuWorker = run_cpu_workers n before in
    let v = run-Inv n before in
    (
      le_trans
          (enabled-bound_within (cpu_move n) (IsDone n) effort
            (λ u u' m e p. (cpu_move-effort n u u' m e p).0)
            (λ u u' m e p. (cpu_move-effort n u u' m e p).1) after w (d, v.crew))
          (effort-IsDone n w (d, v.crew)),
      done-CanMove n w w.shared.caller refl d,
    )
