-- ===== src/Memory/Ends.antt =====
-- That `concurrentOnce` of adv009_memory_model/main.go returns.
use go_daily_learning.Prelude.{
  ℕ, zero, suc, ◌+◌, ◌-◌, ◌*◌, ◌≤◌, ◌<◌, ◌≡◌, ◌⊎◌, inl, inr, refl, Bool, true, false, some, List,
  get_elem?, set, arith, zero_or_more,
}
use go_daily_learning.Steps.{run_moves, enabled, enabled-bound}
use go_daily_learning.Parties.{
  party_move-cases, on_thread, on_shared, party_move-on_thread, party_move-on_shared,
}
use go_daily_learning.Threads.{World, total, total-set, total-find, total-replicate_times}
use go_daily_learning.Memory.{double}
use go_daily_learning.Memory.Once.{
  OnceState, fresh, busy, over, Worker, calling, storing, finishing, sending, gone, Caller,
  receiving, returned, Shared, once_act, once_caller_act, OnceMove, once_move, new_once,
  concurrent_once,
}
use go_daily_learning.Memory.Exactly.{Inv, inside, unsent, concurrent_once-Inv}

abbrev work_left : Worker → ℕ
work_left calling = 4
work_left storing = 3
work_left finishing = 2
work_left sending = 1
work_left gone = 0

abbrev caller_left : Caller → ℕ
caller_left (receiving k) = k + 1
caller_left (returned x) = 0

abbrev effort : World Shared Worker → ℕ
effort w = total work_left w.threads + caller_left w.shared.caller

abbrev CanMove : ℕ → ℕ → World Shared Worker → Type 0
CanMove workers n w =
    (m : OnceMove) × (w' : World Shared Worker) × (once_move workers n w m ≡ some w')

module _ (workers n : ℕ) where
  once_move-effort :
      (w w' : World Shared Worker) (m : OnceMove)
      → once_move workers n w m ≡ some w'
      → effort w' < effort w
  unfolding once_move
  once_move-effort w w' m e =
      party_move-cases (once_act workers n) once_caller_act (λ u. effort u < effort w) w w' m
        (λ k i t t' s g a. let b = total-set work_left w.threads i t t' g in ground arith)
        (λ k s q a. ground arith) e

  thread-CanMove :
      (w : World Shared Worker) (i : ℕ) (t : Worker)
      → get_elem? w.threads i ≡ some t
      → (s : Shared) (t' : Worker) → once_act workers n tt w.shared t ≡ some (s, t')
      → CanMove workers n w
  unfolding once_move
  thread-CanMove w i t g s t' a = (
    on_thread tt i,
    record { shared = s; threads = set w.threads i t' },
    party_move-on_thread (once_act workers n) once_caller_act w tt i t t' s g a,
  )

  -- The goroutine inside the function of `once.Do` can go on.
  inside-CanMove :
      (w : World Shared Worker) (i : ℕ) (t : Worker)
      → get_elem? w.threads i ≡ some t
      → 0 < inside t
      → CanMove workers n w
  inside-CanMove w i calling g p = absurd (omega arith)
  inside-CanMove w i storing g p = thread-CanMove w i storing g _ _ refl
  inside-CanMove w i finishing g p = thread-CanMove w i finishing g _ _ refl
  inside-CanMove w i sending g p = absurd (omega arith)
  inside-CanMove w i gone g p = absurd (omega arith)

  abbrev is_busy : OnceState → Bool
  is_busy fresh = false
  is_busy busy = true
  is_busy over = false

  calling-CanMove :
      (w : World Shared Worker) (i : ℕ) (o : OnceState)
      → get_elem? w.threads i ≡ some calling
      → w.shared.once ≡ o
      → is_busy o ≡ false
      → CanMove workers n w
  calling-CanMove w i fresh g e p =
      thread-CanMove w i calling g (record (w.shared) { once = busy }) storing (ground arith)
  calling-CanMove w i busy g e p = absurd (ground arith)
  calling-CanMove w i over g e p = thread-CanMove w i calling g w.shared sending (ground arith)

  -- Any goroutine that is left can go on while nobody is inside and the buffer is empty.
  unsent-CanMove :
      (w : World Shared Worker) (i : ℕ) (t : Worker)
      → get_elem? w.threads i ≡ some t
      → 0 < unsent t
      → w.shared.buffered ≡ 0
      → 0 < workers
      → is_busy w.shared.once ≡ false
      → CanMove workers n w
  unsent-CanMove w i calling g p b h o = calling-CanMove w i w.shared.once g refl o
  unsent-CanMove w i storing g p b h o = inside-CanMove w i storing g (omega arith)
  unsent-CanMove w i finishing g p b h o = inside-CanMove w i finishing g (omega arith)
  unsent-CanMove w i sending g p b h o =
      thread-CanMove w i sending g (record (w.shared) { buffered = w.shared.buffered + 1 }) gone
        (ground arith)
  unsent-CanMove w i gone g p b h o = absurd (omega arith)

  caller-CanMove :
      (w : World Shared Worker) (s : Shared)
      → once_caller_act tt w.shared w.threads ≡ some s
      → CanMove workers n w
  unfolding once_move
  caller-CanMove w s a = (
    on_shared tt,
    record w { shared = s },
    party_move-on_shared (once_act workers n) once_caller_act w tt s a,
  )

  not_busy :
      (w : World Shared Worker)
      → Inv workers n w
      → total inside w.threads ≡ 0
      → is_busy w.shared.once ≡ false
  not_busy w v z = ground arith

  waiting-CanMove :
      (w : World Shared Worker)
      → Inv workers n w
      → 0 < workers
      → w.shared.buffered ≡ 0
      → 0 < total unsent w.threads
      → CanMove workers n w
  waiting-CanMove w v h b p = elim (zero_or_more (total inside w.threads)) [
    | inl z ↦
        let (i, t, g, q) = total-find unsent w.threads p in
        unsent-CanMove w i t g q b h (not_busy w v z)
    | inr q ↦ let (i, t, g, r) = total-find inside w.threads q in inside-CanMove w i t g r
  ]

  run-CanMove :
      (w : World Shared Worker) (c : Caller)
      → w.shared.caller ≡ c
      → Inv workers n w
      → 0 < workers
      → (c ≡ returned (double n)) ⊎ CanMove workers n w
  run-CanMove w (receiving zero) e v h =
      inr (caller-CanMove w (record (w.shared) { caller = returned w.shared.v }) (ground arith))
  run-CanMove w (receiving (suc k)) e v h = elim (zero_or_more w.shared.buffered) [
    | inl z ↦ inr (waiting-CanMove w v h z (let c = v.counted in ground arith))
    | inr p ↦ inr (
        caller-CanMove w
          (record (w.shared) { buffered = w.shared.buffered - 1; caller = receiving k })
          (ground arith))
  ]
  run-CanMove w (returned x) e v h = inl (let r = v.right in ground arith)

  -- Over every interleaving of at least one goroutine, at most 5 * workers + 1 moves are enabled,
  -- and until `concurrentOnce` has returned the value that the first call wrote, some move is.
  pub concurrent_once-returns :
      (ms : List OnceMove)
      → 0 < workers
      → let w = concurrent_once workers n ms in
        (enabled (once_move workers n) ms (new_once workers) ≤ 5 * workers + 1)
        × ((w.shared.caller ≡ returned (double n)) ⊎ CanMove workers n w)
  unfolding concurrent_once
  concurrent_once-returns ms h =
      let w : World Shared Worker = run_moves (once_move workers n) ms (new_once workers) in
      let b =
        enabled-bound (once_move workers n) effort (λ u u' m e. once_move-effort u u' m e) ms
          (new_once workers) in
      let r = total-replicate_times work_left workers calling in
      (
        omega (arith, b, r),
        run-CanMove w w.shared.caller refl (concurrent_once-Inv workers n h ms) h,
      )
