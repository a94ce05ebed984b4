-- ===== src/Rates.antt =====
-- adv022_rate_limiting/main.go, lines 13 to 67, 131 to 139 and 178 to 219: two semaphores, and the
-- goroutines that measure how many of them a semaphore lets run at once. Weights and limits are
-- natural numbers; no sum reaches 2 ^ 63. A mutex section and an atomic operation are one action;
-- `cond.Wait` ends one mutex section and puts the goroutine to sleep.
pub mod Semaphores
pub mod Limit
pub mod Bucket
mod Examples
use go_daily_learning.Prelude.{
  ℕ, zero, suc, ◌+◌, ◌-◌, ◌≤◌, ◌<◌, ◌≡◌, ◌≢◌, Bool, true, false, Option, none, some, List, ltb, leb,
  ◌==◌, ◌&&◌, not, if◌then◌else◌,
}
use go_daily_learning.Prelude.Int.{ℤ, pos, negsuc}
use go_daily_learning.Channel.{
  Channel, make_chan, Sent, sent, full, send_panics, send, Received, received, empty, closed_empty,
  receive,
}
use go_daily_learning.Threads.{World, replicate, run}

-- A call of `acquire` gets what it asked for, cannot go on yet, or falls asleep with a ticket.
pub data Attempt (S : Type 0) : Type 0 where
  got : S → Attempt S
  blocked : Attempt S
  slept : ℕ → S → Attempt S

-- What the measuring goroutines use of a semaphore, and what it has to promise them. `woken` says
-- whether the sleeper with a ticket was woken. `none` blocks.
pub record Semaphore (S : Type 0) : Type 1 where
  pub make : ℕ → S
  pub acquire : S → Attempt S
  pub woken : S → ℕ → Bool
  pub release : S → Option S
  pub IsValid : S → Type 0
  pub held : S → ℕ
  pub cap : S → ℕ
  pub make-IsValid : (n : ℕ) → IsValid (make n) × (held (make n) ≡ 0) × (cap (make n) ≡ n)
  pub acquire-held :
      (s s' : S)
      → IsValid s
      → acquire s ≡ got s'
      → IsValid s' × (held s' ≡ suc (held s)) × (held s' ≤ cap s) × (cap s' ≡ cap s)
  pub acquire-slept :
      (s s' : S) (t : ℕ)
      → IsValid s
      → acquire s ≡ slept t s'
      → IsValid s' × (held s' ≡ held s) × (cap s' ≡ cap s)
  pub acquire-free : (s : S) → IsValid s → held s < cap s → acquire s ≢ blocked
  pub woken-free : (s : S) (t : ℕ) → IsValid s → held s < cap s → woken s t ≡ true
  pub release-held :
      (s s' : S)
      → IsValid s
      → 0 < held s
      → release s ≡ some s'
      → IsValid s' × (suc (held s') ≡ held s) × (cap s' ≡ cap s)
  pub release-free : (s : S) → IsValid s → 0 < held s → release s ≢ none

-- A channel with a buffer; `acquire` sends, `release` receives.
abbrev pub ChanSemaphore : Type 0
ChanSemaphore = Channel Unit

abbrev pub new_chan_semaphore : ℕ → ChanSemaphore
new_chan_semaphore n = make_chan n

abbrev pub chan_acquire : ChanSemaphore → Attempt ChanSemaphore
chan_acquire s = elim (send s tt) [ sent s' ↦ got s' | full ↦ blocked | send_panics ↦ blocked ]

-- A goroutine that waits at a channel does not sleep in `cond.Wait`.
abbrev pub chan_woken : ChanSemaphore → ℕ → Bool
chan_woken s t = true

abbrev pub chan_release : ChanSemaphore → Option ChanSemaphore
chan_release s = elim (receive s) [ received v s' ↦ some s' | empty ↦ none | closed_empty ↦ none ]

-- `cond`: tickets are given out in order, `next_ticket` is the next one, and the tickets from
-- `first_asleep` on are those of the goroutines that sleep in `cond.Wait`.
pub record Cond : Type 0 where
  pub next_ticket : ℕ
  pub first_asleep : ℕ

abbrev pub new_cond : Cond
new_cond = record { next_ticket = 0; first_asleep = 0 }

abbrev pub cond_wait : Cond → Cond
cond_wait c = record c { next_ticket = suc c.next_ticket }

abbrev pub broadcast : Cond → Cond
broadcast c = record c { first_asleep = c.next_ticket }

abbrev pub is_asleep : Cond → ℕ → Bool
is_asleep c t = leb c.first_asleep t && ltb t c.next_ticket

pub record WeightedSemaphore : Type 0 where
  pub cond : Cond
  pub cur : ℤ
  pub max : ℕ

abbrev pub new_weighted_semaphore : ℕ → WeightedSemaphore
new_weighted_semaphore max = record { cond = new_cond; cur = pos 0; max = max }

abbrev pub plus : ℤ → ℕ → ℤ
plus (pos a) n = pos (a + n)
plus (negsuc a) n = if ltb a n then pos (n - suc a) else negsuc (a - n)

abbrev pub minus : ℤ → ℕ → ℤ
minus (pos a) n = if ltb a n then negsuc (n - suc a) else pos (a - n)
minus (negsuc a) n = negsuc (a + n)

abbrev pub exceeds : ℤ → ℕ → Bool
exceeds (pos a) max = ltb max a
exceeds (negsuc a) max = false

-- From `Lock` to the return or to the sleep in `cond.Wait`; who wakes up tests the condition again.
abbrev pub weighted_acquire : ℕ → WeightedSemaphore → Attempt WeightedSemaphore
weighted_acquire n w =
    if exceeds (plus w.cur n) w.max
    then slept w.cond.next_ticket (record w { cond = cond_wait w.cond })
    else got (record w { cur = plus w.cur n })

abbrev pub weighted_woken : WeightedSemaphore → ℕ → Bool
weighted_woken w t = not (is_asleep w.cond t)

abbrev pub weighted_release : ℕ → WeightedSemaphore → WeightedSemaphore
weighted_release n w = record w { cur = minus w.cur n; cond = broadcast w.cond }

-- The shared variables of `runWithChanSemaphore` and `runWithWeightedSemaphore`.
pub record Shared (S : Type 0) : Type 0 where
  pub sem : S
  pub active : ℕ
  pub max : ℕ

-- Where a goroutine stands: before `acquire` or before another test in it; asleep in it; before
-- `active` is raised; in `updateMax cur`, before its load and before its compare-and-swap; in
-- `time.Sleep`; before `release`; at its end.
pub data Worker : Type 0 where
  waiting : Worker
  asleep : ℕ → Worker
  admitted : Worker
  counted : ℕ → Worker
  loaded : ℕ → ℕ → Worker
  working : Worker
  leaving : Worker
  finished : Worker

-- `updateMax`: the load and the first test, and then the compare-and-swap, which on a change of
-- `max` goes back to the load.
abbrev pub load_max : ℕ → ℕ → Worker
load_max max cur = if leb cur max then working else loaded cur max

abbrev pub swap_max : ℕ → ℕ → ℕ → ℕ × Worker
swap_max max cur old = if max == old then (cur, working) else (max, counted cur)

module _ {S : Type 0} (sems : Semaphore S) where
  -- The next action of a goroutine. One at work is counted in `active`, which is positive there.
  abbrev pub act : Shared S → Worker → Option (Shared S × Worker)
  act s waiting = elim (sems.acquire s.sem) [
    | got m ↦ some (record s { sem = m }, admitted)
    | blocked ↦ none
    | slept t m ↦ some (record s { sem = m }, asleep t)
  ]
  act s (asleep t) = if sems.woken s.sem t then some (s, waiting) else none
  act s admitted = some (record s { active = s.active + 1 }, counted (s.active + 1))
  act s (counted cur) = some (s, load_max s.max cur)
  act s (loaded cur old) = let (m, w) = swap_max s.max cur old in some (record s { max = m }, w)
  act s working = some (record s { active = s.active - 1 }, leaving)
  act s leaving = elim (sems.release s.sem) [
    | none ↦ none
    | some m ↦ some (record s { sem = m }, finished)
  ]
  act s finished = none

  -- `jobs` goroutines under a semaphore of the given limit, run by a schedule.
  unfoldable pub run_with_semaphore : ℕ → ℕ → List ℕ → World (Shared S) Worker
  run_with_semaphore limit jobs schedule = run act schedule (record {
    shared = record { sem = sems.make limit; active = 0; max = 0 };
    threads = replicate jobs waiting;
  })
