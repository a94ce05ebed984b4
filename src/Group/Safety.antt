-- ===== src/Group/Safety.antt =====
-- First error, cancellation and the limit, over every interleaving of adv021_errgroup/main.go.
use go_daily_learning.Prelude.{
  ℕ, zero, suc, ◌+◌, ◌-◌, ◌≤◌, ◌<◌, ◌≡◌, ◌≢◌, Bool, true, false, Option, none, some, List, [], ◌∷◌,
  arith, ◌==◌, if◌then◌else◌,
}
use go_daily_learning.Prelude.Int.{ℤ, pos, negsuc}
use go_daily_learning.Group.{
  Cause, failed, Sem, Group, new_group, set_limit, cancel, cause_of, acquire, start, keep_error,
  release, done, wait,
}

-- How many calls of `Go` hold a token and have not started, and how many goroutines run their task,
-- have had their error kept, and have given their token back.
pub record Crew : Type 0 where
  pub admitted : ℕ
  pub running : ℕ
  pub kept : ℕ
  pub released : ℕ

abbrev pub nobody : Crew
nobody = record { admitted = 0; running = 0; kept = 0; released = 0 }

-- No goroutine of the group is left.
abbrev pub ended : Crew → Bool
ended c = (c.running + c.kept + c.released) == 0

-- With a limit the tokens count the calls and goroutines that hold one.
abbrev Fits : Crew → Option Sem → Option ℕ → Type 0
Fits c none none = Unit
Fits c (some s) (some n) =
    (s.cap ≡ n) × (s.tokens ≡ c.admitted + c.running + c.kept) × (s.tokens ≤ n)
Fits c none (some n) = ⊥
Fits c (some s) none = ⊥

-- The limit that a call of `SetLimit` leaves on a new group.
abbrev limit_of : ℤ → Option ℕ
limit_of (negsuc n) = none
limit_of (pos zero) = none
limit_of (pos (suc n)) = some (suc n)

-- A goroutine reported its result, the parent of the context was canceled, or `Wait` returned.
pub data Event (E : Type 0) : Type 0 where
  reported : Option E → Event E
  parent_canceled : Cause E → Event E
  waited : Event E

abbrev or_else : {A : Type 0} → Option A → Option A → Option A
or_else none e = e
or_else (some x) e = some x

abbrev is_some : {A : Type 0} → Option A → Bool
is_some none = false
is_some (some e) = true

module _ {E : Type 0} where
  -- The trace of a group: its events, the latest in front. Each line is a step that some call of
  -- `Go` or `Wait`, some goroutine or the owner of the parent context takes while the others stand
  -- anywhere. `Go` gives up only on a group with a semaphore whose context is done. What cancels
  -- the parent cancels the derived context by the same cause.
  pub data Trace (g : Group E) : Group E → Crew → List (Event E) → Type 0 where
    begin : Trace g g nobody []
    admits :
        {h h' : Group E} {c : Crew} {es : List (Event E)}
        → Trace g h c es
        → acquire h ≡ some h'
        → Trace g h' (record c { admitted = c.admitted + 1 }) es
    refuses :
        {h : Group E} {c : Crew} {es : List (Event E)} (s : Sem)
        → Trace g h c es
        → h.sem ≡ some s
        → h.cause ≢ none
        → Trace g h c es
    starts :
        {h : Group E} {c : Crew} {es : List (Event E)}
        → Trace g h c es
        → 0 < c.admitted
        → Trace g (start h) (record c { admitted = c.admitted - 1; running = c.running + 1 }) es
    reports :
        {h : Group E} {c : Crew} {es : List (Event E)} (r : Option E)
        → Trace g h c es
        → 0 < c.running
        → Trace g
            (keep_error h r)
            (record c { running = c.running - 1; kept = c.kept + 1 })
            (reported r ∷ es)
    releases :
        {h : Group E} {c : Crew} {es : List (Event E)}
        → Trace g h c es
        → 0 < c.kept
        → Trace g (release h) (record c { kept = c.kept - 1; released = c.released + 1 }) es
    leaves :
        {h : Group E} {c : Crew} {es : List (Event E)}
        → Trace g h c es
        → 0 < c.released
        → Trace g (done h) (record c { released = c.released - 1 }) es
    parent_cancels :
        {h : Group E} {c : Crew} {es : List (Event E)} (k : Cause E)
        → Trace g h c es
        → Trace g (cancel h k) c (parent_canceled k ∷ es)
    waits :
        {h h' : Group E} {c : Crew} {es : List (Event E)} {r : Option E}
        → Trace g h c es
        → wait h ≡ some (h', r)
        → Trace g h' c (waited ∷ es)

  -- The first error that was reported.

  abbrev pub first_error : List (Event E) → Option E
  first_error [] = none
  first_error (reported r ∷ es) = or_else (first_error es) r
  first_error (parent_canceled k ∷ es) = first_error es
  first_error (waited ∷ es) = first_error es

  abbrev pub cause_for : Option E → Option (Cause E)
  cause_for none = none
  cause_for (some e) = some (failed e)

  -- The cause of the derived context: that of a parent that was done before, or else that of the
  -- first event which was an error, a cancellation of the parent, or the return of `Wait`.
  abbrev pub first_cause : Option (Cause E) → List (Event E) → Option (Cause E)
  first_cause p [] = p
  first_cause p (reported r ∷ es) = or_else (first_cause p es) (cause_for r)
  first_cause p (parent_canceled k ∷ es) = or_else (first_cause p es) (some k)
  first_cause p (waited ∷ es) = or_else (first_cause p es) (some (cause_of (first_error es)))

  record Inv (p : Option (Cause E)) (limit : Option ℕ) (g : Group E) (c : Crew)
      (es : List (Event E)) : Type 0 where
    err : g.err ≡ first_error es
    once : g.once_done ≡ is_some (first_error es)
    cause : g.cause ≡ first_cause p es
    failed_done : is_some (first_error es) ≡ true → is_some (first_cause p es) ≡ true
    count : g.wg ≡ c.running + c.kept + c.released
    fits : Fits c g.sem limit

  acquire-Inv :
      (p : Option (Cause E)) (l : Option ℕ) (g h : Group E) (c : Crew) (es : List (Event E))
      → acquire g ≡ some h
      → Inv p l g c es
      → Inv p l h (record c { admitted = c.admitted + 1 }) es
  unfolding acquire
  acquire-Inv p l g h c es e i = ground arith

  start-Inv :
      (p : Option (Cause E)) (l : Option ℕ) (g : Group E) (c : Crew) (es : List (Event E))
      → 0 < c.admitted
      → Inv p l g c es
      → Inv p l (start g) (record c { admitted = c.admitted - 1; running = c.running + 1 }) es
  unfolding start
  start-Inv p l g c es q i = ground arith

  keep_error-Inv :
      (p : Option (Cause E)) (l : Option ℕ) (g : Group E) (c : Crew) (r : Option E)
      (es : List (Event E))
      → 0 < c.running
      → Inv p l g c es
      → Inv p l
          (keep_error g r)
          (record c { running = c.running - 1; kept = c.kept + 1 })
          (reported r ∷ es)
  unfolding keep_error
  keep_error-Inv p l g c r es q i = ground arith

  release-Inv :
      (p : Option (Cause E)) (l : Option ℕ) (g : Group E) (c : Crew) (es : List (Event E))
      → 0 < c.kept
      → Inv p l g c es
      → Inv p l (release g) (record c { kept = c.kept - 1; released = c.released + 1 }) es
  unfolding release
  release-Inv p l g c es q i = ground arith

  done-Inv :
      (p : Option (Cause E)) (l : Option ℕ) (g : Group E) (c : Crew) (es : List (Event E))
      → 0 < c.released
      → Inv p l g c es
      → Inv p l (done g) (record c { released = c.released - 1 }) es
  unfolding done
  done-Inv p l g c es q i = ground arith

  cancel-Inv :
      (p : Option (Cause E)) (l : Option ℕ) (g : Group E) (c : Crew) (k : Cause E)
      (es : List (Event E))
      → Inv p l g c es
      → Inv p l (cancel g k) c (parent_canceled k ∷ es)
  unfolding cancel
  cancel-Inv p l g c k es i = ground arith

  wait-Inv :
      (p : Option (Cause E)) (l : Option ℕ) (g h : Group E) (c : Crew) (r : Option E)
      (es : List (Event E))
      → wait g ≡ some (h, r)
      → Inv p l g c es
      → Inv p l h c (waited ∷ es)
  unfolding wait
  wait-Inv p l g h c r es e i = ground arith

  Trace-Inv :
      (p : Option (Cause E)) (l : Option ℕ) {g h : Group E} {c : Crew} {es : List (Event E)}
      → Inv p l g nobody []
      → Trace g h c es
      → Inv p l h c es
  Trace-Inv p l i begin = i
  Trace-Inv p l i (admits t e) = acquire-Inv p l _ _ _ _ e (Trace-Inv p l i t)
  Trace-Inv p l i (refuses s t e k) = Trace-Inv p l i t
  Trace-Inv p l i (starts t q) = start-Inv p l _ _ _ q (Trace-Inv p l i t)
  Trace-Inv p l i (reports r t q) = keep_error-Inv p l _ _ r _ q (Trace-Inv p l i t)
  Trace-Inv p l i (releases t q) = release-Inv p l _ _ _ q (Trace-Inv p l i t)
  Trace-Inv p l i (leaves t q) = done-Inv p l _ _ _ q (Trace-Inv p l i t)
  Trace-Inv p l i (parent_cancels k t) = cancel-Inv p l _ _ k _ (Trace-Inv p l i t)
  Trace-Inv p l i (waits t e) = wait-Inv p l _ _ _ _ _ e (Trace-Inv p l i t)

  set_limit-Inv :
      (p : Option (Cause E)) (n : ℤ) (g : Group E)
      → set_limit (new_group p) n ≡ some g
      → Inv p (limit_of n) g nobody []
  unfolding set_limit new_group
  set_limit-Inv p (negsuc n) g e = ground arith
  set_limit-Inv p (pos zero) g e = ground arith
  set_limit-Inv p (pos (suc n)) g e = ground arith

  -- In every run of a new group under any parent and any limit that `SetLimit` accepts, `err` is
  -- the first error that a goroutine reported, and the derived context is done by the cause of a
  -- parent that was done before, or else by the first of these events: an error of a goroutine, a
  -- cancellation of the parent, or the return of `Wait`, which cancels by the first error or, when
  -- there was none, by `context.Canceled`; before any of them it is not done.
  pub first_error_cancels :
      (p : Option (Cause E)) (n : ℤ) (g h : Group E) (c : Crew) (es : List (Event E))
      → set_limit (new_group p) n ≡ some g
      → Trace g h c es
      → (h.err ≡ first_error es) × (h.cause ≡ first_cause p es)
  first_error_cancels p n g h c es e t =
      let i = Trace-Inv p (limit_of n) (set_limit-Inv p n g e) t in (i.err, i.cause)

  -- In every run of a new group with a positive limit, no more goroutines than the limit run their
  -- tasks at once, calls of `Go` that have got a token counted in.
  pub limit_respected :
      (p : Option (Cause E)) (n : ℕ) (g h : Group E) (c : Crew) (es : List (Event E))
      → set_limit (new_group p) (pos (suc n)) ≡ some g
      → Trace g h c es
      → c.admitted + c.running ≤ suc n
  limit_respected p n g h c es e t =
      let i = Trace-Inv p (some (suc n)) (set_limit-Inv p (pos (suc n)) g e) t in ground arith

  abbrev pub result_of : Option (Group E × Option E) → Option (Option E)
  result_of none = none
  result_of (some (g, e)) = some e

  -- In every run of a new group `Wait` blocks while a goroutine is left, and returns the first
  -- error that was reported once none is.
  pub wait-first_error :
      (p : Option (Cause E)) (n : ℤ) (g h : Group E) (c : Crew) (es : List (Event E))
      → set_limit (new_group p) n ≡ some g
      → Trace g h c es
      → result_of (wait h) ≡ (if ended c then some (first_error es) else none)
  unfolding wait
  wait-first_error p n g h c es e t =
      let i = Trace-Inv p (limit_of n) (set_limit-Inv p n g e) t in ground arith
