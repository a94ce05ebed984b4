-- ===== src/Group.antt =====
-- adv021_errgroup/main.go, lines 15 to 85: a group of goroutines that keeps the first error,
-- cancels its context and bounds how many run at once. `E` is the type of non-nil errors. A nil
-- `sem` is a missing limit. `errOnce` is its flag; the cause of the derived context is set by its
-- first cancel.
pub mod Safety
mod Examples
use go_daily_learning.Prelude.{
  ℕ, zero, suc, ◌+◌, ◌-◌, ◌≤◌, ◌<◌, ◌≡◌, Bool, true, false, Option, none, some, List, [], ◌∷◌, ltb,
  ◌==◌, if◌then◌else◌,
}
use go_daily_learning.Prelude.Int.{ℤ, pos, negsuc}

-- Why a context is done: an error, or `context.Canceled` for a nil cause.
pub data Cause (E : Type 0) : Type 0 where
  failed : E → Cause E
  canceled : Cause E

pub record Sem : Type 0 where
  pub cap : ℕ
  pub tokens : ℕ

pub record Group (E : Type 0) : Type 0 where
  pub cause : Option (Cause E)
  pub wg : ℕ
  pub once_done : Bool
  pub err : Option E
  pub sem : Option Sem

-- `<-g.sem`, where there is a semaphore.
give_back : Option Sem → Option Sem
give_back none = none
give_back (some s) = some (record s { tokens = s.tokens - 1 })

module _ {E : Type 0} where
  -- `WithCancelCause` on the parent: the derived context takes over the cause of a parent that is
  -- done already.
  pub new_group : Option (Cause E) → Group E
  new_group parent = record { cause = parent; wg = 0; once_done = false; err = none; sem = none }

  set_sem : Group E → Option Sem → ℕ → Option (Group E)
  set_sem g (some old) n = none
  set_sem g none n = some (record g { sem = some (record { cap = n; tokens = 0 }) })

  -- `none` is a panic: a negative limit, or a second one.
  pub set_limit : Group E → ℤ → Option (Group E)
  unfolding set_sem
  set_limit g (negsuc n) = none
  set_limit g (pos zero) = some (record g { sem = none })
  set_limit g (pos (suc n)) = set_sem g g.sem (suc n)

  -- The cause of a context is set once.
  set_cause : Option (Cause E) → Cause E → Option (Cause E)
  set_cause none c = some c
  set_cause (some old) c = some old

  pub cancel : Group E → Cause E → Group E
  unfolding set_cause
  cancel g c = record g { cause = set_cause g.cause c }

  -- The first part of `Go`: the send `g.sem <- struct{}{}`, which `none` says would block; a group
  -- without a semaphore goes on.
  pub acquire : Group E → Option (Group E)
  acquire g = elim g.sem [
    | none ↦ some g
    | some s ↦
        if ltb s.tokens s.cap
        then some (record g { sem = some (record s { tokens = s.tokens + 1 }) })
        else none
  ]

  -- `g.wg.Add(1)`.
  pub start : Group E → Group E
  start g = record g { wg = g.wg + 1 }

  -- The error of the task, through `errOnce.Do`.
  pub keep_error : Group E → Option E → Group E
  unfolding cancel
  keep_error g none = g
  keep_error g (some e) =
      if g.once_done then g else cancel (record g { once_done = true; err = some e }) (failed e)

  -- The deferred `<-g.sem`, and then the deferred `g.wg.Done()`. A goroutine that is there holds a
  -- token and is counted in `wg`, so neither number is 0 and the receive does not block.
  pub release : Group E → Group E
  unfolding give_back
  release g = record g { sem = give_back g.sem }

  pub done : Group E → Group E
  done g = record g { wg = g.wg - 1 }

  abbrev pub cause_of : Option E → Cause E
  cause_of none = canceled
  cause_of (some e) = failed e

  -- `none` while `wg.Wait` blocks.
  pub wait : Group E → Option (Group E × Option E)
  unfolding cancel
  wait g = if g.wg == 0 then some (cancel g (cause_of g.err), g.err) else none
