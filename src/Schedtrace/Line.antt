-- ===== src/Schedtrace/Line.antt =====
-- The parser of one line of the scheduler trace in adv008_schedtrace/main.go. The regular
-- expression is matched from left to right: each of its repetitions is followed by something that
-- it cannot take, so the longest match is the only one.
use go_daily_learning.Prelude.{
  ℕ, zero, suc, ◌^◌, Bool, true, false, Option, none, some, List, [], ◌∷◌, ◌==◌, ◌&&◌, leb, ltb,
  if◌then◌else◌, ◌>>=◌, length, drop, not,
}
use go_daily_learning.Prelude.Int.{ℤ, pos, negsuc}
use go_daily_learning.Text.{
  Text, codes, has_prefix, trim_space, is_space, is_digit, parse_uint, NumError, err_syntax,
  err_range, newline,
}

pub record SchedStats : Type 0 where
  pub gomaxprocs : ℤ
  pub idleprocs : ℤ
  pub threads : ℤ
  pub spinningthreads : ℤ
  pub needspinning : ℤ
  pub idlethreads : ℤ
  pub runqueue : ℤ
  pub p_queues : List ℤ

-- `\s` of a regular expression, which is without the vertical tab.
abbrev pub is_re_space : ℕ → Bool
is_re_space c = is_space c && not (c == 11)

abbrev pub lit : Text → Text → Option Text
lit p s = if has_prefix s p then some (drop (length p) s) else none

abbrev pub skip_spaces : Text → Text
skip_spaces [] = []
skip_spaces (c ∷ s) = let rest = skip_spaces s in if is_re_space c then rest else c ∷ s

-- `\s+`.
abbrev pub spaces : Text → Option Text
spaces [] = none
spaces (c ∷ s) = if is_re_space c then some (skip_spaces s) else none

abbrev pub span_digits : Text → Text × Text
span_digits [] = ([], [])
span_digits (c ∷ s) =
    let rest = span_digits s in if is_digit c then (c ∷ rest.0, rest.1) else ([], c ∷ s)

abbrev pub some_digits : Text × Text → Option (Text × Text)
some_digits ([], rest) = none
some_digits (d ∷ ds, rest) = some (d ∷ ds, rest)

-- `(\d+)`.
abbrev pub digits : Text → Option (Text × Text)
digits s = some_digits (span_digits s)

-- `\s+` and a name and `(\d+)`.
unfoldable pub field : Text → Text → Option (Text × Text)
field name s = do after_spaces ← spaces s; after_name ← lit name after_spaces; digits after_name

-- `(.*)\]$`.
unfoldable pub until_last_bracket : Text → Option Text
until_last_bracket [] = none
until_last_bracket (c ∷ []) = if c == b']' then some [] else none
until_last_bracket (c ∷ d ∷ s) = do
  rest ← until_last_bracket (d ∷ s)
  if c == newline then none else some (c ∷ rest)

-- The groups of the expression that the parser reads.
pub record Match : Type 0 where
  pub m2 : Text
  pub m3 : Text
  pub m4 : Text
  pub m5 : Text
  pub m6 : Text
  pub m7 : Text
  pub m8 : Text
  pub m9 : Text

unfoldable pub find_submatch : Text → Option Match
find_submatch s = do
  s1 ← lit (codes "SCHED") s
  (ms, s2) ← field [] s1
  s3 ← lit (codes "ms:") s2
  (g2, s4) ← field (codes "gomaxprocs=") s3
  (g3, s5) ← field (codes "idleprocs=") s4
  (g4, s6) ← field (codes "threads=") s5
  (g5, s7) ← field (codes "spinningthreads=") s6
  (g6, s8) ← field (codes "needspinning=") s7
  (g7, s9) ← field (codes "idlethreads=") s8
  (g8, s10) ← field (codes "runqueue=") s9
  s11 ← spaces s10
  s12 ← lit (codes "[") s11
  g9 ← until_last_bracket s12
  some (record { m2 = g2; m3 = g3; m4 = g4; m5 = g5; m6 = g6; m7 = g7; m8 = g8; m9 = g9 })

pub data IntResult : Type 0 where
  int : ℤ → IntResult
  int_error : NumError → IntResult

abbrev negated : ℕ → ℤ
negated zero = pos 0
negated (suc n) = negsuc n

abbrev pub signed : Bool → ℕ × Option NumError → IntResult
signed neg (n, some err_syntax) = int_error err_syntax
signed neg (n, some err_range) = int_error err_range
signed false (n, none) = if leb (2 ^ 63) n then int_error err_range else int (pos n)
signed true (n, none) = if ltb (2 ^ 63) n then int_error err_range else int (negated n)

-- `strconv.Atoi`.
abbrev pub atoi : Text → IntResult
atoi [] = int_error err_syntax
atoi (c ∷ s) =
    if c == b'-'
    then signed true (parse_uint s)
    else if c == b'+'
    then signed false (parse_uint s)
    else signed false (parse_uint (c ∷ s))

-- What a line gives. The texts of the errors are left out.
pub data ParseResult : Type 0 where
  parsed : SchedStats → ParseResult
  not_a_line : ParseResult
  bad_int_field : NumError → ParseResult
  bad_queue : NumError → ParseResult

infixl 20 ◌then_int◌
abbrev pub ◌then_int◌ : IntResult → (ℤ → ParseResult) → ParseResult
int n then_int f = f n
int_error e then_int f = bad_int_field e

-- `strings.Fields`.
abbrev pub add_to_field : ℕ → Bool → List Text → List Text
add_to_field c true fs = (c ∷ []) ∷ fs
add_to_field c false [] = (c ∷ []) ∷ []
add_to_field c false (f ∷ fs) = (c ∷ f) ∷ fs

abbrev pub starts_space : Text → Bool
starts_space [] = true
starts_space (c ∷ s) = is_space c

abbrev pub fields : Text → List Text
fields [] = []
fields (c ∷ s) =
    let rest = fields s in if is_space c then rest else add_to_field c (starts_space s) rest

pub data QueueResult : Type 0 where
  queues : List ℤ → QueueResult
  queue_error : NumError → QueueResult

abbrev add_queue : IntResult → QueueResult → QueueResult
add_queue (int_error e) r = queue_error e
add_queue (int n) (queues ns) = queues (n ∷ ns)
add_queue (int n) (queue_error e) = queue_error e

abbrev pub to_queues : List Text → QueueResult
to_queues [] = queues []
to_queues (f ∷ fs) = add_queue (atoi f) (to_queues fs)

abbrev pub with_queues : SchedStats → QueueResult → ParseResult
with_queues stats (queues ns) = parsed (record stats { p_queues = ns })
with_queues stats (queue_error e) = bad_queue e

unfoldable pub parse_match : Match → ParseResult
parse_match m = atoi m.m2 then_int λ i2. atoi m.m3 then_int λ i3. atoi m.m4 then_int λ i4.
    atoi m.m5 then_int λ i5. atoi m.m6 then_int λ i6. atoi m.m7 then_int λ i7.
    atoi m.m8 then_int λ i8.
    with_queues
      (record {
        gomaxprocs = i2;
        idleprocs = i3;
        threads = i4;
        spinningthreads = i5;
        needspinning = i6;
        idlethreads = i7;
        runqueue = i8;
        p_queues = [];
      })
      (to_queues (fields (trim_space m.m9)))

abbrev pub parse_schedtrace_line : Text → ParseResult
parse_schedtrace_line line = elim (find_submatch (trim_space line)) [
  | none ↦ not_a_line
  | some m ↦ parse_match m
]
