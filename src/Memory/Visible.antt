-- ===== src/Memory/Visible.antt =====
-- What `publishWithMutex` of adv009_memory_model/main.go returns, and that it returns.
use native.Mathlib.Nat.{le_trans}
use go_daily_learning.Prelude.{
  bit, ℕ, ◌+◌, ◌≤◌, ◌<◌, ◌≡◌, refl, Bool, true, false, ◌||◌, some, List, arith, if◌then◌else◌,
}
use go_daily_learning.Steps.{run_moves-keeps, enabled, enabled-bound_within, goes}
use go_daily_learning.Memory.{double}
use go_daily_learning.Memory.Mutex.{
  Writer, locking, storing, flagging, unlocking, gone, Poller, entering, loading, asking, leaving,
  testing, returned, Guarded, MutexMove, writes, polls, mutex_move, new_guarded, publish_with_mutex,
}

abbrev writer_holds : Writer → ℕ
writer_holds locking = 0
writer_holds storing = 1
writer_holds flagging = 1
writer_holds unlocking = 1
writer_holds gone = 0

abbrev poller_holds : Poller → ℕ
poller_holds entering = 0
poller_holds loading = 1
poller_holds (asking x) = 1
poller_holds (leaving x ok) = 1
poller_holds (testing x ok) = 0
poller_holds (returned x) = 0

abbrev Written : ℕ → Writer → ℕ → Bool → Type 0
Written n locking v r = r ≡ false
Written n storing v r = r ≡ false
Written n flagging v r = (v ≡ double n) × (r ≡ false)
Written n unlocking v r = (v ≡ double n) × (r ≡ true)
Written n gone v r = (v ≡ double n) × (r ≡ true)

abbrev Polled : ℕ → Poller → ℕ → Type 0
Polled n entering v = Unit {0}
Polled n loading v = Unit {0}
Polled n (asking x) v = x ≡ v
Polled n (leaving x true) v = x ≡ double n
Polled n (leaving x false) v = Unit {0}
Polled n (testing x true) v = x ≡ double n
Polled n (testing x false) v = Unit {0}
Polled n (returned x) v = x ≡ double n

record Inv (n : ℕ) (s : Guarded) : Type 0 where
  owner : writer_holds s.writer + poller_holds s.poller ≡ bit s.locked
  written : Written n s.writer s.v s.ready
  polled : Polled n s.poller s.v

mutex_move-Inv :
    (n : ℕ) (s s' : Guarded) (m : MutexMove) → mutex_move n s m ≡ some s' → Inv n s → Inv n s'
unfolding mutex_move
mutex_move-Inv n s s' writes e i = ground arith
mutex_move-Inv n s s' polls e i = ground arith

publish-Inv : (n : ℕ) (ms : List MutexMove) → Inv n (publish_with_mutex n ms)
unfolding publish_with_mutex new_guarded
publish-Inv n ms =
    run_moves-keeps (mutex_move n) (Inv n) (λ s s' m e. mutex_move-Inv n s s' m e) ms new_guarded
      (record { owner = refl; written = refl; polled = tt })

-- What the reader still does once `ready` is set for good.
abbrev rounds_left : Poller → ℕ
rounds_left entering = 5
rounds_left loading = 4
rounds_left (asking x) = 3
rounds_left (leaving x ok) = if ok then 2 else 7
rounds_left (testing x ok) = if ok then 1 else 6
rounds_left (returned x) = 0

abbrev Published : Guarded → Type 0
Published s = (s.writer ≡ gone) × (s.ready ≡ true)

mutex_move-Published :
    (n : ℕ) (s s' : Guarded) (m : MutexMove)
    → mutex_move n s m ≡ some s'
    → Published s
    → Published s' × (rounds_left s'.poller < rounds_left s.poller)
unfolding mutex_move
mutex_move-Published n s s' writes e p = ground arith
mutex_move-Published n s s' polls e p = ground arith

rounds_left_bound : (p : Poller) → rounds_left p ≤ 7
rounds_left_bound p = ground arith

mutex_move-stops :
    (n : ℕ) (s : Guarded)
    → Inv n s
    → (goes (mutex_move n s writes) || goes (mutex_move n s polls)) ≡ false
    → s.poller ≡ returned (double n)
unfolding mutex_move
mutex_move-stops n s i e = ground arith

gone-ready : (n : ℕ) (s : Guarded) → Inv n s → s.writer ≡ gone → s.ready ≡ true
gone-ready n s i e = ground arith

-- Over every interleaving the writer or the reader can go on until `publishWithMutex` has returned
-- the value that was written, and once the writer is gone at most 7 moves are left.
pub publish_with_mutex-returns :
    (n : ℕ) (before after : List MutexMove)
    → let s = publish_with_mutex n before in
      ((goes (mutex_move n s writes) || goes (mutex_move n s polls)) ≡ false
        → s.poller ≡ returned (double n))
      × (s.writer ≡ gone → enabled (mutex_move n) after s ≤ 7)
publish_with_mutex-returns n before after =
    let s : Guarded = publish_with_mutex n before in
    let i = publish-Inv n before in
    (
      mutex_move-stops n s i,
      (λ g.
          le_trans
            (enabled-bound_within (mutex_move n) Published (λ t. rounds_left t.poller)
              (λ u u' m e p. (mutex_move-Published n u u' m e p).0)
              (λ u u' m e p. (mutex_move-Published n u u' m e p).1) after s (g, gone-ready n s i g))
            (rounds_left_bound s.poller)),
    )
