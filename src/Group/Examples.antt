-- ===== src/Group/Examples.antt =====
-- The group of adv021_errgroup/main.go at a limit of 1 and one goroutine that fails.
use go_daily_learning.Prelude.{
  ℕ, ◌+◌, ◌≤◌, ◌≡◌, refl, false, none, some, [], ◌∷◌, arith, if◌then◌else◌,
}
use go_daily_learning.Prelude.Int.{pos}
use go_daily_learning.Group.{
  canceled, failed, cancel, Group, new_group, set_sem, set_limit, acquire, start, keep_error,
  release, done, wait,
}
use go_daily_learning.Group.Safety.{
  Crew, ended, Trace, begin, admits, starts, reports, releases, leaves, reported, waited,
  parent_canceled, parent_cancels, first_error, first_cause, result_of, first_error_cancels,
  limit_respected, wait-first_error,
}

-- A group with limit 1 whose `sem` holds some tokens.
abbrev with_tokens : ℕ → Group ℕ
with_tokens n = record {
  cause = none;
  wg = 0;
  once_done = false;
  err = none;
  sem = some (record { cap = 1; tokens = n });
}

limited : set_limit (new_group none) (pos 1) ≡ some (with_tokens 0)
unfolding set_limit set_sem new_group
limited = refl

-- The goroutine got its token, failed with error 5 and left.
abbrev after_error : Group ℕ
after_error = keep_error (start (with_tokens 1)) (some 5)

abbrev reported_crew : Crew
reported_crew = record { admitted = 0; running = 0; kept = 1; released = 0 }

abbrev gone : Crew
gone = record { admitted = 0; running = 0; kept = 0; released = 0 }

failure : Trace (with_tokens 0) after_error reported_crew (reported (some 5) ∷ [])
unfolding acquire
failure = reports (some 5) (starts (admits begin refl) (omega arith)) (omega arith)

left_group : Trace (with_tokens 0) (done (release after_error)) gone (reported (some 5) ∷ [])
left_group = leaves (releases failure (omega arith)) (omega arith)

-- The parent of a group that is still running is canceled.
abbrev stopped : Group ℕ
stopped = cancel after_error canceled

first_error_example :
    (stopped.err ≡ first_error (parent_canceled canceled ∷ reported (some 5) ∷ []))
    × (stopped.cause ≡ first_cause none (parent_canceled canceled ∷ reported (some 5) ∷ []))
first_error_example =
    first_error_cancels none (pos 1) (with_tokens 0) stopped reported_crew
      (parent_canceled canceled ∷ reported (some 5) ∷ []) limited (parent_cancels canceled failure)

stopped_cause :
    first_cause {E = ℕ} none (parent_canceled canceled ∷ reported (some 5) ∷ []) ≡ some (failed 5)
stopped_cause = refl

-- `Wait` cancels the context of a group that had no error.
waited_cause : first_cause {E = ℕ} none (waited ∷ reported none ∷ []) ≡ some canceled
waited_cause = refl

limit_example : reported_crew.admitted + reported_crew.running ≤ 1
limit_example =
    limit_respected none 0 (with_tokens 0) after_error reported_crew (reported (some 5) ∷ [])
      limited failure

wait_example :
    result_of (wait (done (release after_error)))
    ≡ (if ended gone then some (first_error (reported (some 5) ∷ [])) else none)
wait_example =
    wait-first_error none (pos 1) (with_tokens 0) (done (release after_error)) gone
      (reported (some 5) ∷ []) limited left_group
