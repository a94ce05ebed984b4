-- ===== src/Rates/Semaphores.antt =====
-- The two semaphores of adv022_rate_limiting/main.go keep what the goroutines need of a semaphore,
-- and so the goroutines never get stuck.
use go_daily_learning.Prelude.{
  ℕ, suc, ◌≤◌, ◌<◌, ◌≡◌, refl, ◌≢◌, true, false, Option, none, some, List, [], ◌∷◌, arith, length,
  length-append,
}
use go_daily_learning.Prelude.Int.{pos, pos_part}
use go_daily_learning.Rates.{
  got, blocked, slept, chan_woken, weighted_woken, Semaphore, ChanSemaphore, new_chan_semaphore,
  chan_acquire, chan_release, WeightedSemaphore, new_weighted_semaphore, weighted_acquire,
  weighted_release, run_with_semaphore,
}
use go_daily_learning.Threads.{total}
use go_daily_learning.Rates.Limit.{unfinished, CanMove, never_stuck}

abbrev pub ChanIsValid : ChanSemaphore → Type 0
ChanIsValid s = s.closed ≡ false

pub chan_acquire-held :
    (s s' : ChanSemaphore)
    → ChanIsValid s
    → chan_acquire s ≡ got s'
    → ChanIsValid s'
      × (length s'.buf ≡ suc (length s.buf))
      × (length s'.buf ≤ s.cap)
      × (s'.cap ≡ s.cap)
chan_acquire-held s s' v e = ground (arith, length-append s.buf (tt ∷ []))

pub chan_acquire-free :
    (s : ChanSemaphore) → ChanIsValid s → length s.buf < s.cap → chan_acquire s ≢ blocked
chan_acquire-free s v p = ground arith

pub chan_release-held :
    (s s' : ChanSemaphore)
    → ChanIsValid s
    → 0 < length s.buf
    → chan_release s ≡ some s'
    → ChanIsValid s' × (suc (length s'.buf) ≡ length s.buf) × (s'.cap ≡ s.cap)
chan_release-held s s' v p e = ground arith

pub chan_release-free :
    (s : ChanSemaphore) → ChanIsValid s → 0 < length s.buf → chan_release s ≢ none
chan_release-free s v p = ground arith

pub chan_acquire-slept :
    (s s' : ChanSemaphore) (t : ℕ)
    → ChanIsValid s
    → chan_acquire s ≡ slept t s'
    → ChanIsValid s' × (length s'.buf ≡ length s.buf) × (s'.cap ≡ s.cap)
chan_acquire-slept s s' t v e = ground arith

abbrev pub chan_semaphore : Semaphore ChanSemaphore
chan_semaphore = record {
  make = new_chan_semaphore;
  acquire = chan_acquire;
  woken = chan_woken;
  release = chan_release;
  IsValid = ChanIsValid;
  held = λ s. length s.buf;
  cap = λ s. s.cap;
  make-IsValid = λ n. (refl, refl, refl);
  acquire-held = chan_acquire-held;
  acquire-slept = chan_acquire-slept;
  acquire-free = chan_acquire-free;
  woken-free = λ s t v p. refl;
  release-held = chan_release-held;
  release-free = chan_release-free;
}

-- Never below zero and never above the limit; a goroutine sleeps only where the limit is reached.
pub record WeightedIsValid (w : WeightedSemaphore) : Type 0 where
  pub nonneg : w.cur ≡ pos (pos_part w.cur)
  pub within : pos_part w.cur ≤ w.max
  pub full_asleep : w.cond.first_asleep < w.cond.next_ticket → pos_part w.cur ≡ w.max

pub acquire_one-held :
    (w w' : WeightedSemaphore)
    → WeightedIsValid w
    → weighted_acquire 1 w ≡ got w'
    → WeightedIsValid w'
      × (pos_part w'.cur ≡ suc (pos_part w.cur))
      × (pos_part w'.cur ≤ w.max)
      × (w'.max ≡ w.max)
acquire_one-held w w' v e = let f = v.full_asleep in ground arith

pub acquire_one-slept :
    (w w' : WeightedSemaphore) (t : ℕ)
    → WeightedIsValid w
    → weighted_acquire 1 w ≡ slept t w'
    → WeightedIsValid w' × (pos_part w'.cur ≡ pos_part w.cur) × (w'.max ≡ w.max)
acquire_one-slept w w' t v e = let f = v.full_asleep in ground arith

pub acquire_one-free :
    (w : WeightedSemaphore)
    → WeightedIsValid w
    → pos_part w.cur < w.max
    → weighted_acquire 1 w ≢ blocked
acquire_one-free w v p = ground arith

pub weighted_woken-free :
    (w : WeightedSemaphore) (t : ℕ)
    → WeightedIsValid w
    → pos_part w.cur < w.max
    → weighted_woken w t ≡ true
weighted_woken-free w t v p = let f = v.full_asleep in ground arith

abbrev pub release_one : WeightedSemaphore → Option WeightedSemaphore
release_one w = some (weighted_release 1 w)

pub release_one-held :
    (w w' : WeightedSemaphore)
    → WeightedIsValid w
    → 0 < pos_part w.cur
    → release_one w ≡ some w'
    → WeightedIsValid w' × (suc (pos_part w'.cur) ≡ pos_part w.cur) × (w'.max ≡ w.max)
release_one-held w w' v p e = ground arith

pub release_one-free :
    (w : WeightedSemaphore) → WeightedIsValid w → 0 < pos_part w.cur → release_one w ≢ none
release_one-free w v p = ground arith

-- The weighted semaphore with the weight 1 of `runWithWeightedSemaphore`.
abbrev pub weighted_semaphore : Semaphore WeightedSemaphore
weighted_semaphore = record {
  make = new_weighted_semaphore;
  acquire = weighted_acquire 1;
  woken = weighted_woken;
  release = release_one;
  IsValid = WeightedIsValid;
  held = λ w. pos_part w.cur;
  cap = λ w. w.max;
  make-IsValid = λ n. (
    record { nonneg = refl; within = omega arith; full_asleep = λ h. absurd (omega arith) },
    refl,
    refl,
  );
  acquire-held = acquire_one-held;
  acquire-slept = acquire_one-slept;
  acquire-free = acquire_one-free;
  woken-free = weighted_woken-free;
  release-held = release_one-held;
  release-free = release_one-free;
}

-- Over every schedule, with a positive limit: while some goroutine of `runWithChanSemaphore` has
-- not ended, some goroutine can act, and the same holds of `runWithWeightedSemaphore`, where a
-- goroutine asleep in `cond.Wait` can act only once a `Broadcast` has woken it. So neither ever
-- deadlocks.
pub semaphores_never_stuck :
    (limit jobs : ℕ) (schedule : List ℕ)
    → 0 < limit
    → (0 < total unfinished (run_with_semaphore chan_semaphore limit jobs schedule).threads
        → CanMove chan_semaphore (run_with_semaphore chan_semaphore limit jobs schedule))
      × (0 < total unfinished (run_with_semaphore weighted_semaphore limit jobs schedule).threads
          → CanMove weighted_semaphore (run_with_semaphore weighted_semaphore limit jobs schedule))
semaphores_never_stuck limit jobs schedule p = (
  never_stuck chan_semaphore limit jobs schedule p,
  never_stuck weighted_semaphore limit jobs schedule p,
)
