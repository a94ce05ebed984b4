-- ===== src/Memory/Exactly.antt =====
-- What `concurrentOnce` of adv009_memory_model/main.go returns.
use go_daily_learning.Prelude.{
  ℕ, ◌+◌, ◌≤◌, ◌<◌, ◌≡◌, refl, ◌==◌, ◌||◌, true, some, List, get_elem?, set, arith,
}
use go_daily_learning.Steps.{run_moves-keeps}
use go_daily_learning.Parties.{party_move-cases}
use go_daily_learning.Threads.{
  World, total, total-set, total-here, total-replicate, total-replicate_one, total_mono,
}
use go_daily_learning.Memory.{double}
use go_daily_learning.Memory.Once.{
  OnceState, fresh, busy, over, Worker, calling, storing, finishing, sending, gone, Caller,
  receiving, returned, Shared, once_act, once_caller_act, OnceMove, once_move, new_once,
  concurrent_once,
}

abbrev pub inside : Worker → ℕ
inside storing = 1
inside finishing = 1
inside _ = 0

abbrev pub wrote : Worker → ℕ
wrote finishing = 1
wrote _ = 0

abbrev pub past : Worker → ℕ
past sending = 1
past gone = 1
past _ = 0

abbrev pub sent : Worker → ℕ
sent gone = 1
sent _ = 0

abbrev pub unsent : Worker → ℕ
unsent gone = 0
unsent _ = 1

abbrev pub awaited : Caller → ℕ
awaited (receiving k) = k
awaited (returned x) = 0

-- How the `sync.Once` stands to the calls of `Do` that are in its function, have made the store,
-- and are over.
abbrev pub Agrees : ℕ → OnceState → ℕ → ℕ → ℕ → ℕ → Type 0
Agrees n fresh in_it made ended v = (in_it ≡ 0) × (ended ≡ 0)
Agrees n busy in_it made ended v = (in_it ≡ 1) × (ended ≡ 0) × ((made == 0 || v == double n) ≡ true)
Agrees n over in_it made ended v = (in_it ≡ 0) × (v ≡ double n)

abbrev pub Right : ℕ → Caller → Type 0
Right n (receiving k) = Unit {0}
Right n (returned x) = x ≡ double n

pub record Inv (workers n : ℕ) (w : World Shared Worker) : Type 0 where
  pub once :
      Agrees n w.shared.once
        (total inside w.threads)
        (total wrote w.threads)
        (total past w.threads)
        w.shared.v
  pub counted : awaited w.shared.caller ≡ w.shared.buffered + total unsent w.threads
  pub crew : total unsent w.threads + total sent w.threads ≡ workers
  pub right : Right n w.shared.caller

wrote≤inside : (t : Worker) → wrote t ≤ inside t
wrote≤inside t = ground arith

sent≤past : (t : Worker) → sent t ≤ past t
sent≤past t = ground arith

module _ (workers n : ℕ) (some_workers : 0 < workers) where
  worker-Inv :
      (i : ℕ) (w : World Shared Worker) (t t' : Worker) (s : Shared)
      → get_elem? w.threads i ≡ some t
      → once_act workers n tt w.shared t ≡ some (s, t')
      → Inv workers n w
      → Inv workers n (record { shared = s; threads = set w.threads i t' })
  worker-Inv i w t t' s e a v =
      let b = total-set inside w.threads i t t' e in
      let c = total-set wrote w.threads i t t' e in
      let d = total-set past w.threads i t t' e in
      let f = total-set sent w.threads i t t' e in
      let g = total-set unsent w.threads i t t' e in
      let h = total-here inside w.threads i t e in
      let k = total-here wrote w.threads i t e in
      let m = total_mono wrote inside wrote≤inside w.threads in ground arith

  caller-Inv :
      (w : World Shared Worker) (s : Shared)
      → once_caller_act tt w.shared w.threads ≡ some s
      → Inv workers n w
      → Inv workers n (record w { shared = s })
  caller-Inv w s a v = let m = total_mono sent past sent≤past w.threads in ground arith

  once_move-Inv :
      (w w' : World Shared Worker) (m : OnceMove)
      → once_move workers n w m ≡ some w'
      → Inv workers n w
      → Inv workers n w'
  unfolding once_move
  once_move-Inv w w' m e v =
      party_move-cases (once_act workers n) once_caller_act (Inv workers n) w w' m
        (λ k i t t' s g a. worker-Inv i w t t' s g a v) (λ k s q a. caller-Inv w s a v) e

  new_once-Inv : Inv workers n (new_once workers)
  new_once-Inv =
      let a = total-replicate inside workers calling refl in
      let c = total-replicate past workers calling refl in
      let d = total-replicate sent workers calling refl in
      let e = total-replicate_one unsent workers calling refl in
      record { once = omega arith; counted = omega arith; crew = omega arith; right = tt }

  pub concurrent_once-Inv : (ms : List OnceMove) → Inv workers n (concurrent_once workers n ms)
  unfolding concurrent_once
  concurrent_once-Inv ms =
      run_moves-keeps (once_move workers n) (Inv workers n) (λ w w' m e. once_move-Inv w w' m e) ms
        (new_once workers) new_once-Inv
