-- ===== src/Rates/Limit.antt =====
-- The limit of adv022_rate_limiting/main.go, and that its goroutines never get stuck, over every
-- schedule.
use go_daily_learning.Prelude.{
  ℕ, ◌≤◌, ◌<◌, ◌≡◌, refl, ◌≢◌, inl, inr, none, some, List, arith, ltb, if◌then◌else◌, get_elem?,
  set, Option-cases, zero_or_more,
}
use go_daily_learning.Threads.{
  World, total, replicate, total-set, total-here, total-find, total_mono, total-replicate,
  run-keeps,
}
use go_daily_learning.Rates.{
  Attempt, got, blocked, slept, Semaphore, Shared, Worker, waiting, asleep, admitted, counted,
  loaded, working, leaving, finished, act, run_with_semaphore,
}

abbrev pub holds : Worker → ℕ
holds waiting = 0
holds (asleep t) = 0
holds admitted = 1
holds (counted c) = 1
holds (loaded c o) = 1
holds working = 1
holds leaving = 1
holds finished = 0

-- Between raising and lowering `active`.
abbrev pub inside : Worker → ℕ
inside waiting = 0
inside (asleep t) = 0
inside admitted = 0
inside (counted c) = 1
inside (loaded c o) = 1
inside working = 1
inside leaving = 0
inside finished = 0

abbrev excess : ℕ → ℕ → ℕ
excess limit c = if ltb limit c then 1 else 0

-- 1 when the goroutine carries a count above the limit.
abbrev over : ℕ → Worker → ℕ
over l waiting = 0
over l (asleep t) = 0
over l admitted = 0
over l (counted c) = excess l c
over l (loaded c o) = excess l c
over l working = 0
over l leaving = 0
over l finished = 0

abbrev pub unfinished : Worker → ℕ
unfinished waiting = 1
unfinished (asleep t) = 1
unfinished admitted = 1
unfinished (counted c) = 1
unfinished (loaded c o) = 1
unfinished working = 1
unfinished leaving = 1
unfinished finished = 0

inside≤holds : (t : Worker) → inside t ≤ holds t
inside≤holds t = ground arith

data AttemptCase {S : Type 0} (a : Attempt S) : Type 0 where
  was_got : (s : S) → a ≡ got s → AttemptCase a
  was_blocked : a ≡ blocked → AttemptCase a
  was_slept : (t : ℕ) (s : S) → a ≡ slept t s → AttemptCase a

Attempt-cases : {S : Type 0} (a : Attempt S) → AttemptCase a
Attempt-cases (got s) = was_got s refl
Attempt-cases blocked = was_blocked refl
Attempt-cases (slept t s) = was_slept t s refl

module _ {S : Type 0} (sems : Semaphore S) where
  record Inv (l : ℕ) (w : World (Shared S) Worker) : Type 0 where
    valid : sems.IsValid w.shared.sem
    capacity : sems.cap w.shared.sem ≡ l
    holders : total holds w.threads ≡ sems.held w.shared.sem
    bound : sems.held w.shared.sem ≤ l
    actives : total inside w.threads ≡ w.shared.active
    counts : total (over l) w.threads ≡ 0
    peak : w.shared.max ≤ l

  act-Inv :
      (l : ℕ) (w : World (Shared S) Worker) (i : ℕ) (t t' : Worker) (s : Shared S)
      → get_elem? w.threads i ≡ some t
      → act sems w.shared t ≡ some (s, t')
      → Inv l w
      → Inv l (record { shared = s; threads = set w.threads i t' })
  act-Inv l w i waiting t' s e a inv =
      let h = total-set holds w.threads i waiting t' e in
      let n = total-set inside w.threads i waiting t' e in
      let o = total-set (over l) w.threads i waiting t' e in
      let k = total-here (over l) w.threads i waiting e in
      let p = total-here holds w.threads i waiting e in
      let q = total-here inside w.threads i waiting e in
      let m = total_mono inside holds inside≤holds (set w.threads i t') in
      elim (Attempt-cases (sems.acquire w.shared.sem)) [
        | was_got b z ↦ let r = sems.acquire-held w.shared.sem b inv.valid z in ground arith
        | was_blocked z ↦ ground arith
        | was_slept u b z ↦ let r = sems.acquire-slept w.shared.sem b u inv.valid z in ground arith
      ]
  act-Inv l w i (asleep u) t' s e a inv =
      let h = total-set holds w.threads i (asleep u) t' e in
      let n = total-set inside w.threads i (asleep u) t' e in
      let o = total-set (over l) w.threads i (asleep u) t' e in
      let k = total-here (over l) w.threads i (asleep u) e in
      let p = total-here holds w.threads i (asleep u) e in
      let q = total-here inside w.threads i (asleep u) e in
      let m = total_mono inside holds inside≤holds (set w.threads i t') in ground arith
  act-Inv l w i admitted t' s e a inv =
      let h = total-set holds w.threads i admitted t' e in
      let n = total-set inside w.threads i admitted t' e in
      let o = total-set (over l) w.threads i admitted t' e in
      let k = total-here (over l) w.threads i admitted e in
      let p = total-here holds w.threads i admitted e in
      let q = total-here inside w.threads i admitted e in
      let m = total_mono inside holds inside≤holds (set w.threads i t') in ground arith
  act-Inv l w i (counted c) t' s e a inv =
      let h = total-set holds w.threads i (counted c) t' e in
      let n = total-set inside w.threads i (counted c) t' e in
      let o = total-set (over l) w.threads i (counted c) t' e in
      let k = total-here (over l) w.threads i (counted c) e in
      let p = total-here holds w.threads i (counted c) e in
      let q = total-here inside w.threads i (counted c) e in
      let m = total_mono inside holds inside≤holds (set w.threads i t') in ground arith
  act-Inv l w i (loaded c d) t' s e a inv =
      let h = total-set holds w.threads i (loaded c d) t' e in
      let n = total-set inside w.threads i (loaded c d) t' e in
      let o = total-set (over l) w.threads i (loaded c d) t' e in
      let k = total-here (over l) w.threads i (loaded c d) e in
      let p = total-here holds w.threads i (loaded c d) e in
      let q = total-here inside w.threads i (loaded c d) e in
      let m = total_mono inside holds inside≤holds (set w.threads i t') in ground arith
  act-Inv l w i working t' s e a inv =
      let h = total-set holds w.threads i working t' e in
      let n = total-set inside w.threads i working t' e in
      let o = total-set (over l) w.threads i working t' e in
      let k = total-here (over l) w.threads i working e in
      let p = total-here holds w.threads i working e in
      let q = total-here inside w.threads i working e in
      let m = total_mono inside holds inside≤holds (set w.threads i t') in ground arith
  act-Inv l w i leaving t' s e a inv =
      let h = total-set holds w.threads i leaving t' e in
      let n = total-set inside w.threads i leaving t' e in
      let o = total-set (over l) w.threads i leaving t' e in
      let k = total-here (over l) w.threads i leaving e in
      let p = total-here holds w.threads i leaving e in
      let q = total-here inside w.threads i leaving e in
      let m = total_mono inside holds inside≤holds (set w.threads i t') in
      elim (Option-cases (sems.release w.shared.sem)) [
        | inl z ↦ ground arith
        | inr (b, z) ↦
            let r = sems.release-held w.shared.sem b inv.valid (omega arith) z in ground arith
      ]
  act-Inv l w i finished t' s e a inv =
      let h = total-set holds w.threads i finished t' e in
      let n = total-set inside w.threads i finished t' e in
      let o = total-set (over l) w.threads i finished t' e in
      let k = total-here (over l) w.threads i finished e in
      let p = total-here holds w.threads i finished e in
      let q = total-here inside w.threads i finished e in
      let m = total_mono inside holds inside≤holds (set w.threads i t') in ground arith

  begin-Inv :
      (l jobs : ℕ)
      → Inv l (record {
        shared = record { sem = sems.make l; active = 0; max = 0 };
        threads = replicate jobs waiting;
      })
  begin-Inv l jobs =
      let (v, h, c) = sems.make-IsValid l in
      let a = total-replicate holds jobs waiting refl in
      let b = total-replicate inside jobs waiting refl in
      let d = total-replicate (over l) jobs waiting refl in
      record {
        valid = v;
        capacity = c;
        holders = omega arith;
        bound = omega arith;
        actives = b;
        counts = d;
        peak = omega arith;
      }

  run-Inv : (l jobs : ℕ) (schedule : List ℕ) → Inv l (run_with_semaphore sems l jobs schedule)
  unfolding run_with_semaphore
  run-Inv l jobs schedule = run-keeps (act sems) (Inv l) (act-Inv l) schedule _ (begin-Inv l jobs)

  -- With any semaphore that keeps its promises, over every schedule: the greatest number of
  -- goroutines that was measured at work is at most the limit, and so is the number that hold the
  -- semaphore now.
  pub peak_within_limit :
      (limit jobs : ℕ) (schedule : List ℕ)
      → ((run_with_semaphore sems limit jobs schedule).shared.max ≤ limit)
        × (total holds (run_with_semaphore sems limit jobs schedule).threads ≤ limit)
  peak_within_limit limit jobs schedule =
      let i = run-Inv limit jobs schedule in (i.peak, omega (arith, i.holders, i.bound))

  holder_moves :
      (l : ℕ) (w : World (Shared S) Worker) (i : ℕ) (t : Worker)
      → Inv l w
      → get_elem? w.threads i ≡ some t
      → 0 < holds t
      → act sems w.shared t ≢ none
  holder_moves l w i t inv e p =
      let h = total-here holds w.threads i t e in
      let r = sems.release-free w.shared.sem inv.valid in ground arith

  waiting_moves :
      (l : ℕ) (w : World (Shared S) Worker)
      → 0 < l
      → Inv l w
      → total holds w.threads ≡ 0
      → act sems w.shared waiting ≢ none
  waiting_moves l w p inv z = let r = sems.acquire-free w.shared.sem inv.valid in ground arith

  -- Where nobody holds the semaphore every sleeper was woken.
  asleep_moves :
      (l : ℕ) (w : World (Shared S) Worker) (u : ℕ)
      → 0 < l
      → Inv l w
      → total holds w.threads ≡ 0
      → act sems w.shared (asleep u) ≢ none
  asleep_moves l w u p inv z =
      let h : sems.held w.shared.sem < sems.cap w.shared.sem =
        omega (arith, inv.holders, inv.capacity) in
      let r = sems.woken-free w.shared.sem u inv.valid h in ground arith

  unfinished_moves :
      (l : ℕ) (w : World (Shared S) Worker) (i : ℕ) (t : Worker)
      → 0 < l
      → Inv l w
      → total holds w.threads ≡ 0
      → get_elem? w.threads i ≡ some t
      → 0 < unfinished t
      → act sems w.shared t ≢ none
  unfinished_moves l w i waiting p inv z e u = waiting_moves l w p inv z
  unfinished_moves l w i (asleep u') p inv z e u = asleep_moves l w u' p inv z
  unfinished_moves l w i finished p inv z e u = absurd (omega arith)
  unfinished_moves l w i admitted p inv z e u = holder_moves l w i admitted inv e (omega arith)
  unfinished_moves l w i (counted c) p inv z e u =
      holder_moves l w i (counted c) inv e (omega arith)
  unfinished_moves l w i (loaded c d) p inv z e u =
      holder_moves l w i (loaded c d) inv e (omega arith)
  unfinished_moves l w i working p inv z e u = holder_moves l w i working inv e (omega arith)
  unfinished_moves l w i leaving p inv z e u = holder_moves l w i leaving inv e (omega arith)

  -- Some goroutine of the list can act.
  abbrev pub CanMove : World (Shared S) Worker → Type 0
  CanMove w =
      (i : ℕ) × (t : Worker) × (get_elem? w.threads i ≡ some t) × (act sems w.shared t ≢ none)

  Inv-CanMove :
      (l : ℕ) (w : World (Shared S) Worker)
      → 0 < l
      → Inv l w
      → 0 < total unfinished w.threads
      → CanMove w
  Inv-CanMove l w p inv u = elim (zero_or_more (total holds w.threads)) [
    | inl z ↦
        let (i, t, e, q) = total-find unfinished w.threads u in
        (i, t, e, unfinished_moves l w i t p inv z e q)
    | inr z ↦
        let (i, t, e, q) = total-find holds w.threads z in (i, t, e, holder_moves l w i t inv e q)
  ]

  -- With any semaphore that keeps its promises and a positive limit, over every schedule: while
  -- some goroutine has not ended, some goroutine can act; a goroutine asleep in `cond.Wait` can
  -- once a broadcast has woken it. So the program never deadlocks.
  pub never_stuck :
      (limit jobs : ℕ) (schedule : List ℕ)
      → 0 < limit
      → 0 < total unfinished (run_with_semaphore sems limit jobs schedule).threads
      → CanMove (run_with_semaphore sems limit jobs schedule)
  never_stuck limit jobs schedule p u =
      Inv-CanMove limit (run_with_semaphore sems limit jobs schedule) p
        (run-Inv limit jobs schedule) u
