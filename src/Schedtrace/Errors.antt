-- ===== src/Schedtrace/Errors.antt =====
-- The errors of the parser in adv008_schedtrace/main.go.
use go_daily_learning.Prelude.{
  ◌^◌, ◌≡◌, ap, ◌∙◌, Bool, true, false, ◌||◌, Option, none, some, some-injective, List, [], ◌∷◌,
  map, arith, leb, Bool-cases, inl, inr,
}
use go_daily_learning.Prelude.Int.{ℤ, pos}
use go_daily_learning.Text.{Text, codes, has_prefix, all_digits, trim_space, err_range, NumError}
use go_daily_learning.Schedtrace.Line.{
  IntResult, int, int_error, atoi, ParseResult, not_a_line, bad_int_field, bad_queue, ◌then_int◌,
  queue_error, to_queues, lit, find_submatch, parse_match, parse_schedtrace_line,
}
use go_daily_learning.Schedtrace.Printed.{
  Number, text, number, Printed, numbers, all_numbers, print_line, match_of, atoi-digits,
  read_print_line, trim_space-queue_text, fields-queue_text,
}

abbrev pub seven : Printed → List Number
seven p =
    p.gomaxprocs ∷ p.idleprocs ∷ p.threads ∷ p.spinningthreads ∷ p.needspinning ∷ p.idlethreads
    ∷ p.runqueue ∷ []

abbrev pub any_large : List Number → Bool
any_large [] = false
any_large (n ∷ ns) = leb (2 ^ 63) (number n) || any_large ns

large :
    (n : Number)
    → all_digits (text n) ≡ true
    → leb (2 ^ 63) (number n) ≡ true
    → atoi (text n) ≡ int_error err_range
large n d h = atoi-digits n d ∙ ground arith

small :
    (n : Number)
    → all_digits (text n) ≡ true
    → leb (2 ^ 63) (number n) ≡ false
    → atoi (text n) ≡ int (pos (number n))
small n d h = atoi-digits n d ∙ ground arith

seven-numbers : (p : Printed) → all_numbers (numbers p) ≡ true → all_numbers (seven p) ≡ true
seven-numbers p d = ground arith

abbrev first_error : List IntResult → Option NumError
first_error [] = none
first_error (int n ∷ rs) = first_error rs
first_error (int_error e ∷ rs) = some e

-- The integer fields in their order, and then the rest.
abbrev in_order :
    (r1 r2 r3 r4 r5 r6 r7 : IntResult) → (ℤ → ℤ → ℤ → ℤ → ℤ → ℤ → ℤ → ParseResult) → ParseResult
in_order r1 r2 r3 r4 r5 r6 r7 f = r1 then_int λ a. r2 then_int λ b. r3 then_int λ c.
    r4 then_int λ d. r5 then_int λ e. r6 then_int λ g. r7 then_int λ h. f a b c d e g h

seven-first_error :
    (r1 r2 r3 r4 r5 r6 r7 : IntResult) (f : ℤ → ℤ → ℤ → ℤ → ℤ → ℤ → ℤ → ParseResult) (e : NumError)
    → first_error (r1 ∷ r2 ∷ r3 ∷ r4 ∷ r5 ∷ r6 ∷ r7 ∷ []) ≡ some e
    → in_order r1 r2 r3 r4 r5 r6 r7 f ≡ bad_int_field e
seven-first_error (int_error x) r2 r3 r4 r5 r6 r7 f e h = ap bad_int_field (some-injective x e h)
seven-first_error (int a) (int_error x) r3 r4 r5 r6 r7 f e h =
    ap bad_int_field (some-injective x e h)
seven-first_error (int a) (int b) (int_error x) r4 r5 r6 r7 f e h =
    ap bad_int_field (some-injective x e h)
seven-first_error (int a) (int b) (int c) (int_error x) r5 r6 r7 f e h =
    ap bad_int_field (some-injective x e h)
seven-first_error (int a) (int b) (int c) (int d) (int_error x) r6 r7 f e h =
    ap bad_int_field (some-injective x e h)
seven-first_error (int a) (int b) (int c) (int d) (int k) (int_error x) r7 f e h =
    ap bad_int_field (some-injective x e h)
seven-first_error (int a) (int b) (int c) (int d) (int k) (int m) (int_error x) f e h =
    ap bad_int_field (some-injective x e h)
seven-first_error (int a) (int b) (int c) (int d) (int k) (int m) (int g) f e h =
    absurd (ground arith)

first_error-large :
    (ns : List Number)
    → all_numbers ns ≡ true
    → any_large ns ≡ true
    → first_error (map (λ n. atoi (text n)) ns) ≡ some err_range
first_error-large [] d h = absurd (ground arith)
first_error-large (n ∷ ns) d h = elim (Bool-cases (leb (2 ^ 63) (number n))) [
  | inl b ↦ cc (large n (ground arith) b)
  | inr b ↦ cc (small n (ground arith) b, first_error-large ns (ground arith) (ground arith))
]

large_field :
    (p : Printed)
    → all_numbers (numbers p) ≡ true
    → any_large (seven p) ≡ true
    → parse_match (match_of p) ≡ bad_int_field err_range
unfolding parse_match
large_field p d h =
    seven-first_error (atoi (text p.gomaxprocs)) (atoi (text p.idleprocs)) (atoi (text p.threads))
      (atoi (text p.spinningthreads)) (atoi (text p.needspinning)) (atoi (text p.idlethreads))
      (atoi (text p.runqueue)) _ err_range (first_error-large (seven p) (seven-numbers p d) h)

large_queue :
    (ns : List Number)
    → all_numbers ns ≡ true
    → any_large ns ≡ true
    → to_queues (map text ns) ≡ queue_error err_range
large_queue [] d h = absurd (ground arith)
large_queue (n ∷ ns) d h = elim (Bool-cases (leb (2 ^ 63) (number n))) [
  | inl b ↦ cc (large n (ground arith) b)
  | inr b ↦ cc (small n (ground arith) b, large_queue ns (ground arith) (ground arith))
]

queue_field :
    (p : Printed)
    → all_numbers (numbers p) ≡ true
    → any_large (seven p) ≡ false
    → any_large p.p_queues ≡ true
    → parse_match (match_of p) ≡ bad_queue err_range
unfolding parse_match
queue_field p d h k = cc (
  small p.gomaxprocs (ground arith) (ground arith),
  small p.idleprocs (ground arith) (ground arith),
  small p.threads (ground arith) (ground arith),
  small p.spinningthreads (ground arith) (ground arith),
  small p.needspinning (ground arith) (ground arith),
  small p.idlethreads (ground arith) (ground arith),
  small p.runqueue (ground arith) (ground arith),
  trim_space-queue_text p.p_queues (ground arith),
  fields-queue_text p.p_queues (ground arith),
  large_queue p.p_queues (ground arith) k,
)

lit_none : (s : Text) → has_prefix s (codes "SCHED") ≡ false → lit (codes "SCHED") s ≡ none
lit_none s h = cc

no_prefix : (s : Text) → has_prefix s (codes "SCHED") ≡ false → find_submatch s ≡ none
unfolding find_submatch
no_prefix s h = let l = lit_none s h in cc

-- The errors of `parseSchedtraceLine` on lines as the runtime prints them: a field of 2^63 or more
-- is an error of the integer fields, whatever the queues are, a queue length of 2^63 or more is an
-- error of the queues, and a text that does not start with `SCHED` after its white space is no
-- line.
pub parse_schedtrace_line-errors :
    (p : Printed) (line : Text)
    → all_numbers (numbers p) ≡ true
    → (any_large (seven p) ≡ true → parse_schedtrace_line (print_line p) ≡ bad_int_field err_range)
      × (any_large (seven p) ≡ false
          → any_large p.p_queues ≡ true
          → parse_schedtrace_line (print_line p) ≡ bad_queue err_range)
      × (has_prefix (trim_space line) (codes "SCHED") ≡ false
          → parse_schedtrace_line line ≡ not_a_line)
parse_schedtrace_line-errors p line d = (
  λ h. read_print_line p d ∙ large_field p d h,
  λ h k. read_print_line p d ∙ queue_field p d h k,
  λ h. cc (no_prefix (trim_space line) h),
)
