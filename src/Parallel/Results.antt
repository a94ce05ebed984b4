-- ===== src/Parallel/Results.antt =====
-- The results of `runParallel` in adv001_gmp_model/main.go, over every schedule.
use go_daily_learning.Prelude.{
  ℕ, zero, suc, ◌+◌, ◌<◌, ◌≡◌, ◌≢◌, refl, ap, sym, ◌∙◌, some, List, [], ◌∷◌, arith, subst,
  some-injective, get_elem?, set, length, length-set, ◌⊎◌, inl, inr,
}
use mathlib.Core.Logic.{⊎_elim}
use go_daily_learning.Threads.{World, total, total-here, replicate, run-keeps}
use go_daily_learning.Parallel.{cpu_bound, Task, computing, finished, act, tasks_from, run_parallel}

abbrev pub unfinished : Task → ℕ
unfinished (computing id) = 1
unfinished (finished id) = 0

module _ {A : Type 0} where
  get_elem?-set : (xs : List A) (i : ℕ) (v : A) → i < length xs → get_elem? (set xs i v) i ≡ some v
  get_elem?-set [] i v h = absurd (omega arith)
  get_elem?-set (x ∷ xs) zero v h = refl
  get_elem?-set (x ∷ xs) (suc i) v h = get_elem?-set xs i v (omega arith)

  get_elem?-set_other :
      (xs : List A) (i j : ℕ) (v : A) → i ≢ j → get_elem? (set xs i v) j ≡ get_elem? xs j
  get_elem?-set_other [] i j v h = refl
  get_elem?-set_other (x ∷ xs) zero zero v h = absurd (h refl)
  get_elem?-set_other (x ∷ xs) zero (suc j) v h = refl
  get_elem?-set_other (x ∷ xs) (suc i) zero v h = refl
  get_elem?-set_other (x ∷ xs) (suc i) (suc j) v h =
      get_elem?-set_other xs i j v (λ e. h (ap suc e))

module _ (iterations : ℕ) where
  -- A goroutine stands at the place of its id, and has written its result once it has finished.
  Stands : List ℕ → ℕ → Task → Type 0
  Stands results i (computing id) = (id ≡ i) × (i < length results)
  Stands results i (finished id) = get_elem? results i ≡ some (cpu_bound i iterations)

  Inv : World (List ℕ) Task → Type 0
  Inv w = (i : ℕ) (t : Task) → get_elem? w.threads i ≡ some t → Stands w.shared i t

  same_or_not : (i j : ℕ) → (i ≡ j) ⊎ (i ≢ j)
  same_or_not zero zero = inl refl
  same_or_not zero (suc j) = inr (λ e. absurd (omega arith))
  same_or_not (suc i) zero = inr (λ e. absurd (omega arith))
  same_or_not (suc i) (suc j) =
      ⊎_elim (λ e. inl (ap suc e)) (λ n. inr (λ e. n (omega arith))) (same_or_not i j)

  Stands-set :
      (results : List ℕ) (i j v : ℕ) (t : Task)
      → i ≢ j
      → Stands results j t
      → Stands (set results i v) j t
  unfolding Stands
  Stands-set results i j v (computing id) n (e, l) = (e, omega (arith, l, length-set results i v))
  Stands-set results i j v (finished id) n e = get_elem?-set_other results i j v n ∙ e

  get_elem?-lt :
      {A : Type 0} (xs : List A) (i : ℕ) (a : A) → get_elem? xs i ≡ some a → i < length xs
  get_elem?-lt [] i a h = absurd (ground arith)
  get_elem?-lt (x ∷ xs) zero a h = omega arith
  get_elem?-lt (x ∷ xs) (suc i) a h = omega (arith, get_elem?-lt xs i a h)

  written :
      (results : List ℕ) (threads : List Task) (id j : ℕ) (u : Task)
      → id < length results
      → id < length threads
      → ((k : ℕ) (t : Task) → get_elem? threads k ≡ some t → Stands results k t)
      → get_elem? (set threads id (finished id)) j ≡ some u
      → Stands (set results id (cpu_bound id iterations)) j u
  unfolding Stands
  written results threads id j u l m inv h = elim (same_or_not id j) [
    | inl p ↦
        let e = get_elem?-set threads id (finished id) m in
        let r = get_elem?-set results id (cpu_bound id iterations) l in
        let q : some (finished id) ≡ some u =
          sym e ∙ ap (get_elem? (set threads id (finished id))) p ∙ h in
        let here : get_elem? (set results id (cpu_bound id iterations)) j
            ≡ some (cpu_bound j iterations) =
          cc (p, r) in
        subst (Stands (set results id (cpu_bound id iterations)) j)
          (some-injective (finished id) u q) here
    | inr n ↦
        Stands-set results id j (cpu_bound id iterations) u n
          (inv j u (sym (get_elem?-set_other threads id j (finished id) n) ∙ h))
  ]

  act-Inv :
      (w : World (List ℕ) Task) (i : ℕ) (t t' : Task) (s : List ℕ)
      → get_elem? w.threads i ≡ some t
      → act iterations w.shared t ≡ some (s, t')
      → Inv w
      → Inv (record { shared = s; threads = set w.threads i t' })
  unfolding Inv Stands
  act-Inv w i (finished id) t' s g a inv = absurd (ground arith)
  act-Inv w i (computing id) t' s g a inv =
      let (p, l) = inv i (computing id) g in
      let m = get_elem?-lt w.threads i (computing id) g in
      subst (λ q. Inv (record { shared = q.0; threads = set w.threads i q.1 }))
        (some-injective _ _ a)
        (λ j u h.
          written w.shared w.threads id j u (omega (arith, p, l)) (omega (arith, p, m)) inv
            (ap (λ k. get_elem? (set w.threads k (finished id)) j) p ∙ h))

  starts :
      (n from i : ℕ) (t : Task)
      → get_elem? (tasks_from from n) i ≡ some t
      → (t ≡ computing (from + i)) × (i < n)
  starts zero from i t h = absurd (ground arith)
  starts (suc n) from zero t h =
      (sym (some-injective _ _ h) ∙ ap computing (omega arith), omega arith)
  starts (suc n) from (suc i) t h =
      let (e, l) = starts n (suc from) i t h in (e ∙ ap computing (omega arith), omega (arith, l))

  length-replicate : (n : ℕ) → length {A = ℕ} (replicate n 0) ≡ n
  length-replicate zero = refl
  length-replicate (suc n) = ap suc (length-replicate n)

  length-tasks_from : (n from : ℕ) → length (tasks_from from n) ≡ n
  length-tasks_from zero from = refl
  length-tasks_from (suc n) from = ap suc (length-tasks_from n (suc from))

  get_elem?-some :
      {A : Type 0} (xs : List A) (i : ℕ) → i < length xs → (a : A) × (get_elem? xs i ≡ some a)
  get_elem?-some [] i h = absurd (omega arith)
  get_elem?-some (x ∷ xs) zero h = (x, refl)
  get_elem?-some (x ∷ xs) (suc i) h = get_elem?-some xs i (omega arith)

  -- What every action keeps.
  record Keeps (n : ℕ) (w : World (List ℕ) Task) : Type 0 where
    places : Inv w
    workers : length w.threads ≡ n

  run_parallel-Keeps : (n : ℕ) (schedule : List ℕ) → Keeps n (run_parallel n iterations schedule)
  unfolding Inv Stands
  run_parallel-Keeps n schedule =
      run-keeps (act iterations) (Keeps n)
        (λ w i t t' s g a k. record {
          places = act-Inv w i t t' s g a k.places;
          workers = length-set w.threads i t' ∙ k.workers;
        })
        schedule (record { shared = replicate n 0; threads = tasks_from 0 n })
        (record {
          places = λ i t h.
              let (e, l) = starts n 0 i t h in
              subst (Stands (replicate n 0) i) (sym e)
                (omega arith, omega (arith, l, length-replicate n));
          workers = length-tasks_from n 0;
        })

  finished_result :
      (results : List ℕ) (i : ℕ) (t : Task)
      → unfinished t ≡ 0
      → Stands results i t
      → get_elem? results i ≡ some (cpu_bound i iterations)
  unfolding Stands
  finished_result results i (computing id) z h = absurd (omega arith)
  finished_result results i (finished id) z h = h

-- Over every schedule, once all goroutines have finished, so that `wg.Wait` returns, the result at
-- the place of each worker is what `cpuBound` gives for it.
pub run_parallel-results :
    (workers iterations : ℕ) (schedule : List ℕ)
    → let w = run_parallel workers iterations schedule in
      total unfinished w.threads ≡ 0
      → (i : ℕ) → i < workers
      → get_elem? w.shared i ≡ some (cpu_bound i iterations)
unfolding Inv
run_parallel-results workers iterations schedule z i l =
    let w = run_parallel workers iterations schedule in
    let k = run_parallel-Keeps iterations workers schedule in
    let (t, g) = get_elem?-some iterations w.threads i (omega (arith, l, k.workers)) in
    finished_result iterations w.shared i t
      (omega (arith, z, total-here unfinished w.threads i t g)) (k.places i t g)
