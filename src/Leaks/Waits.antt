-- ===== src/Leaks/Waits.antt =====
-- Which goroutines of adv024_goroutine_leak/main.go stay and which end.
use go_daily_learning.Prelude.{
  ℕ, ◌+◌, ◌≤◌, ◌<◌, ◌≡◌, refl, Bool, true, false, not, Option, none, some, List, ◌≢◌, arith,
  if◌then◌else◌, ◌&&◌,
}
use go_daily_learning.Steps.{run_moves-keeps, run_moves-keeps_where, every, enabled, enabled-bound}
use go_daily_learning.Leaks.Release.{
  Cause, waiting, ended, Leak, LeakMove, begins, finishes, releases_it, new_leak, leak_move,
  run_leak, no_release, is_ended, is_send, Caller, calling, joining, returned, Helper, running,
  deferring, gone, Fixed, FixedMove, signals, sees, defers, joins, new_fixed, fixed_move, run_fixed,
}

record Blocked (s : Leak) : Type 0 where
  open_still : s.closed ≡ false
  not_ended : is_ended s.waiter ≡ false

leak_move-Blocked :
    (c : Cause) (s s' : Leak) (m : LeakMove)
    → no_release m ≡ true
    → leak_move c s m ≡ some s'
    → Blocked s
    → Blocked s'
unfolding leak_move
leak_move-Blocked c s s' begins n e b =
    let o = b.open_still in
    let d = b.not_ended in record { open_still = ground arith; not_ended = ground arith }
leak_move-Blocked c s s' finishes n e b =
    let o = b.open_still in
    let d = b.not_ended in record { open_still = ground arith; not_ended = ground arith }
leak_move-Blocked c s s' releases_it n e b = absurd (ground arith)

-- None of the four goroutines ends in a run in which nobody calls `release`.
pub run_leak-stays :
    (c : Cause) (ms : List LeakMove)
    → every no_release ms ≡ true
    → is_ended (run_leak c ms).waiter ≡ false
run_leak-stays c ms h =
    let b : Blocked (run_leak c ms) =
      run_moves-keeps_where (leak_move c) no_release Blocked
        (λ s s' m n e. leak_move-Blocked c s s' m n e) ms new_leak h
        (record { open_still = refl; not_ended = refl }) in
    b.not_ended

record Released (c : Cause) (s : Leak) : Type 0 where
  once_only : s.releases ≡ (if s.released then 1 else 0)
  closed_by : s.closed ≡ (not (is_send c) && s.released)
  ended_by : is_ended s.waiter ≡ true → s.released ≡ true
  met : is_send c ≡ true → s.released ≡ true → is_ended s.waiter ≡ true

leak_move-Released :
    (c : Cause) (s s' : Leak) (m : LeakMove)
    → leak_move c s m ≡ some s'
    → Released c s
    → Released c s'
unfolding leak_move
leak_move-Released c s s' begins e r =
    let o = r.once_only in
    let b = r.closed_by in
    let a = r.ended_by in
    let k = r.met in
    record {
      once_only = ground arith;
      closed_by = ground arith;
      ended_by = λ h. ground arith;
      met = λ q h. ground arith;
    }
leak_move-Released c s s' finishes e r =
    let o = r.once_only in
    let b = r.closed_by in
    let a = r.ended_by in
    let k = r.met in
    record {
      once_only = ground arith;
      closed_by = ground arith;
      ended_by = λ h. ground arith;
      met = λ q h. ground arith;
    }
leak_move-Released c s s' releases_it e r =
    let o = r.once_only in
    let b = r.closed_by in
    let a = r.ended_by in
    let k = r.met in
    record {
      once_only = ground arith;
      closed_by = ground arith;
      ended_by = λ h. ground arith;
      met = λ q h. ground arith;
    }

-- In every run `release` takes effect at most once, however often it is called, no goroutine ends
-- without it, and a goroutine that has begun has ended or can end once it has taken effect.
pub run_leak-released :
    (c : Cause) (ms : List LeakMove)
    → let s = run_leak c ms in
      (s.releases ≤ 1)
      × (is_ended s.waiter ≡ true → s.released ≡ true)
      × (s.released ≡ true
          → s.waiter ≡ waiting
          → leak_move c s finishes ≡ some (record s { waiter = ended }))
unfolding leak_move
run_leak-released c ms =
    let s = run_leak c ms in
    let r : Released c s =
      run_moves-keeps (leak_move c) (Released c) (λ s s' m e. leak_move-Released c s s' m e) ms
        new_leak
        (record {
          once_only = refl;
          closed_by = ground arith;
          ended_by = λ h. absurd (ground arith);
          met = λ q h. absurd (ground arith);
        }) in
    (
      let o = r.once_only in ground arith,
      r.ended_by,
      λ h w. let b = r.closed_by in let k = r.met in ground arith,
    )

abbrev is_gone : Helper → Bool
is_gone running = false
is_gone deferring = false
is_gone gone = true

record Joined (c : Cause) (s : Fixed) : Type 0 where
  done_by : s.done ≡ is_gone s.helper
  back : s.caller ≡ returned → s.done ≡ true
  first : s.caller ≡ calling → s.helper ≡ running
  not_yet : s.caller ≡ calling → s.closed ≡ false
  signaled : s.caller ≡ joining → s.helper ≡ running → (s.closed ≡ true) × (is_send c ≡ false)

fixed_move-Joined :
    (c : Cause) (s s' : Fixed) (m : FixedMove)
    → fixed_move c s m ≡ some s'
    → Joined c s
    → Joined c s'
unfolding fixed_move
fixed_move-Joined c s s' signals e r =
    let d = r.done_by in
    let b = r.back in
    let f = r.first in
    let g = r.signaled in
    let y = r.not_yet in
    record {
      done_by = ground arith;
      back = λ h. ground arith;
      first = λ h. ground arith;
      not_yet = λ h. ground arith;
      signaled = λ h w. (ground arith, ground arith);
    }
fixed_move-Joined c s s' sees e r =
    let d = r.done_by in
    let b = r.back in
    let f = r.first in
    let g = r.signaled in
    let y = r.not_yet in
    record {
      done_by = ground arith;
      back = λ h. ground arith;
      first = λ h. ground arith;
      not_yet = λ h. ground arith;
      signaled = λ h w. (ground arith, ground arith);
    }
fixed_move-Joined c s s' defers e r =
    let d = r.done_by in
    let b = r.back in
    let f = r.first in
    let g = r.signaled in
    let y = r.not_yet in
    record {
      done_by = ground arith;
      back = λ h. ground arith;
      first = λ h. ground arith;
      not_yet = λ h. ground arith;
      signaled = λ h w. (ground arith, ground arith);
    }
fixed_move-Joined c s s' joins e r =
    let d = r.done_by in
    let b = r.back in
    let f = r.first in
    let g = r.signaled in
    let y = r.not_yet in
    record {
      done_by = ground arith;
      back = λ h. ground arith;
      first = λ h. ground arith;
      not_yet = λ h. ground arith;
      signaled = λ h w. (ground arith, ground arith);
    }

abbrev caller_energy : Caller → ℕ
caller_energy calling = 2
caller_energy joining = 1
caller_energy returned = 0

abbrev helper_energy : Helper → ℕ
helper_energy running = 2
helper_energy deferring = 1
helper_energy gone = 0

energy : Fixed → ℕ
energy s = caller_energy s.caller + helper_energy s.helper

fixed_move-energy :
    (c : Cause) (s s' : Fixed) (m : FixedMove) → fixed_move c s m ≡ some s' → energy s' < energy s
unfolding fixed_move energy
fixed_move-energy c s s' signals e = ground arith
fixed_move-energy c s s' sees e = ground arith
fixed_move-energy c s s' defers e = ground arith
fixed_move-energy c s s' joins e = ground arith

-- The move that is due.
abbrev pub next : Cause → Caller → Helper → FixedMove
next c calling h = signals
next c joining running = sees
next c joining deferring = defers
next c joining gone = joins
next c returned h = joins

abbrev pub is_enabled : Option Fixed → Bool
is_enabled none = false
is_enabled (some s) = true

next_enabled :
    (c : Cause) (s : Fixed)
    → Joined c s
    → s.caller ≢ returned
    → is_enabled (fixed_move c s (next c s.caller s.helper)) ≡ true
unfolding fixed_move
next_enabled c s r n = by_state s.caller s.helper refl refl
  where
    by_state :
        (k : Caller) (h : Helper)
        → s.caller ≡ k
        → s.helper ≡ h
        → is_enabled (fixed_move c s (next c k h)) ≡ true
    by_state calling h e1 e2 = let f = r.first e1 in ground arith
    by_state joining running e1 e2 = let (o, q) = r.signaled e1 e2 in ground arith
    by_state joining deferring e1 e2 = ground arith
    by_state joining gone e1 e2 = let d = r.done_by in ground arith
    by_state returned h e1 e2 = absurd (n e1)

-- Each of the four fixed functions returns after at most four moves: until it has returned a move
-- is enabled, no run has more than four of them, and when it has returned its goroutine has run its
-- deferred call.
pub run_fixed-returns :
    (c : Cause) (ms : List FixedMove)
    → let s = run_fixed c ms in
      (enabled (fixed_move c) ms new_fixed ≤ 4)
      × (s.caller ≢ returned → is_enabled (fixed_move c s (next c s.caller s.helper)) ≡ true)
      × (s.caller ≡ returned → s.helper ≡ gone)
unfolding energy
run_fixed-returns c ms =
    let s = run_fixed c ms in
    let r : Joined c s =
      run_moves-keeps (fixed_move c) (Joined c) (λ s s' m e. fixed_move-Joined c s s' m e) ms
        new_fixed
        (record {
          done_by = refl;
          back = λ h. absurd (ground arith);
          first = λ h. refl;
          not_yet = λ h. refl;
          signaled = λ h w. absurd (ground arith);
        }) in
    let b = enabled-bound (fixed_move c) energy (fixed_move-energy c) ms new_fixed in
    (omega (arith, b), next_enabled c s r, λ h. let d = r.done_by in let k = r.back in ground arith)
