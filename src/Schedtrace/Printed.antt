-- ===== src/Schedtrace/Printed.antt =====
-- What the parser of adv008_schedtrace/main.go gives for a line as the runtime prints it.
use go_daily_learning.Prelude.{
  ℕ, ◌^◌, ◌≡◌, refl, ap, ◌∙◌, Bool, true, false, ◌&&◌, Option, some, List, [], ◌∷◌, ◌++◌, map,
  arith, ltb, leb, ◌==◌, if◌then◌else◌, ◌>>=◌, Bool-cases, inl, inr,
}
use go_daily_learning.Prelude.Int.{pos}
use go_daily_learning.Text.{
  Text, codes, has_prefix-append, drop-append, has_no, has_no-append, is_digit, is_space,
  all_digits, value, trim_space, trim_space-kept, ends_no_space, ends_no_space-last,
  ends_no_space-cons, ends_no_space-append, all_digits-ends_no_space, parse_uint, parse_uint-value,
  parse_uint-range, all_digits-has_no, newline, err_range,
}
use go_daily_learning.Schedtrace.Line.{
  SchedStats, lit, skip_spaces, is_re_space, span_digits, field, until_last_bracket, Match,
  find_submatch, int, int_error, signed, atoi, parsed, fields, queues, to_queues, parse_match,
  parse_schedtrace_line,
}

-- A number as it is printed: its first digit and the others.
pub record Number : Type 0 where
  pub first : ℕ
  pub others : Text

abbrev pub text : Number → Text
text n = n.first ∷ n.others

abbrev pub number : Number → ℕ
number n = value 0 (text n)

abbrev starts_digit : Text → Bool
starts_digit [] = false
starts_digit (c ∷ s) = is_digit c

abbrev starts_re_space : Text → Bool
starts_re_space [] = false
starts_re_space (c ∷ s) = is_re_space c

lit-append : (p s : Text) → lit p (p ++ s) ≡ some s
lit-append p s = let a = has_prefix-append p s in let b = drop-append p s in ground arith

digit_first : (d : ℕ) (ds : Text) → all_digits (d ∷ ds) ≡ true → is_digit d ≡ true
digit_first d ds h = ground arith

line_first : (c : ℕ) (s : Text) → has_no newline (c ∷ s) ≡ true → (c == newline) ≡ false
line_first c s h = ground arith

span_digits-append :
    (ds s : Text) → all_digits ds ≡ true → starts_digit s ≡ false → span_digits (ds ++ s) ≡ (ds, s)
span_digits-append [] [] h k = refl
span_digits-append [] (c ∷ s) h k = ground arith
span_digits-append (d ∷ ds) s h k =
    let r = span_digits-append ds s (ground arith) k in let e = digit_first d ds h in cc

skip_spaces-kept : (s : Text) → starts_re_space s ≡ false → skip_spaces s ≡ s
skip_spaces-kept [] h = refl
skip_spaces-kept (c ∷ s) h = ground arith

field-append :
    (name : Text) (n : Number) (s : Text)
    → all_digits (text n) ≡ true
    → starts_digit s ≡ false
    → starts_re_space (name ++ (text n ++ s)) ≡ false
    → field name (b' ' ∷ (name ++ (text n ++ s))) ≡ some (text n, s)
unfolding field
field-append name n s d k z =
    let a = skip_spaces-kept (name ++ (text n ++ s)) z in
    let b = lit-append name (text n ++ s) in
    let c = span_digits-append (text n) s d k in cc (a, b, c)

until_last_bracket-append :
    (s : Text) → has_no newline s ≡ true → until_last_bracket (s ++ b']' ∷ []) ≡ some s
unfolding until_last_bracket
until_last_bracket-append [] h = refl
until_last_bracket-append (c ∷ []) h = ground arith
until_last_bracket-append (c ∷ d ∷ s) h =
    let r = until_last_bracket-append (d ∷ s) (ground arith) in let e = line_first c (d ∷ s) h in cc

-- The queues between the brackets.
abbrev pub queue_text : List Number → Text
queue_text [] = []
queue_text (n ∷ []) = text n
queue_text (n ∷ m ∷ ns) = text n ++ b' ' ∷ queue_text (m ∷ ns)

abbrev pub all_numbers : List Number → Bool
all_numbers [] = true
all_numbers (n ∷ ns) = all_digits (text n) && all_numbers ns

fields-last : (c : ℕ) (s : Text) → all_digits (c ∷ s) ≡ true → fields (c ∷ s) ≡ (c ∷ s) ∷ []
fields-last c [] h = ground arith
fields-last c (d ∷ s) h = let r = fields-last d s (ground arith) in ground arith

fields-append :
    (c : ℕ) (s t : Text)
    → all_digits (c ∷ s) ≡ true
    → fields ((c ∷ s) ++ b' ' ∷ t) ≡ (c ∷ s) ∷ fields t
fields-append c [] t h = ground arith
fields-append c (d ∷ s) t h = let r = fields-append d s t (ground arith) in ground arith

pub fields-queue_text :
    (ns : List Number) → all_numbers ns ≡ true → fields (queue_text ns) ≡ map text ns
fields-queue_text [] h = refl
fields-queue_text (n ∷ []) h = fields-last n.first n.others (ground arith)
fields-queue_text (n ∷ m ∷ ns) h =
    fields-append n.first n.others (queue_text (m ∷ ns)) (ground arith)
    ∙ ap (◌∷◌ (text n)) (fields-queue_text (m ∷ ns) (ground arith))

unsigned :
    (n : Number) → all_digits (text n) ≡ true → atoi (text n) ≡ signed false (parse_uint (text n))
unsigned n h = let e = digit_first n.first n.others h in ground arith

pub atoi-digits :
    (n : Number)
    → all_digits (text n) ≡ true
    → atoi (text n)
      ≡ (if leb (2 ^ 63) (number n) then int_error err_range else int (pos (number n)))
atoi-digits n h = unsigned n h ∙ elim (Bool-cases (ltb (number n) (2 ^ 64))) [
  | inl b ↦ ap (signed false) (parse_uint-value n.first n.others h (ground arith))
  | inr b ↦ ap (signed false) (parse_uint-range n.first n.others h (ground arith)) ∙ ground arith
]

-- A trace line of the runtime.
pub record Printed : Type 0 where
  pub ms : Number
  pub gomaxprocs : Number
  pub idleprocs : Number
  pub threads : Number
  pub spinningthreads : Number
  pub needspinning : Number
  pub idlethreads : Number
  pub runqueue : Number
  pub p_queues : List Number

abbrev pub numbers : Printed → List Number
numbers p =
    p.ms ∷ p.gomaxprocs ∷ p.idleprocs ∷ p.threads ∷ p.spinningthreads ∷ p.needspinning
    ∷ p.idlethreads ∷ p.runqueue ∷ p.p_queues

print_field : Text → Number → Text → Text
print_field name n s = b' ' ∷ (name ++ (text n ++ s))

unfoldable pub print_line : Printed → Text
unfolding print_field
print_line p =
    codes "SCHED"
    ++ print_field [] p.ms (
        codes "ms:"
        ++ print_field (codes "gomaxprocs=") p.gomaxprocs (
            print_field (codes "idleprocs=") p.idleprocs (
              print_field (codes "threads=") p.threads (
                print_field (codes "spinningthreads=") p.spinningthreads (
                  print_field (codes "needspinning=") p.needspinning (
                    print_field (codes "idlethreads=") p.idlethreads (
                      print_field (codes "runqueue=") p.runqueue
                        (b' ' ∷ b'[' ∷ (queue_text p.p_queues ++ b']' ∷ [])))))))))

bind-some :
    {A B : Type 0} {o : Option A} {a : A} {r : Option B} (f : A → Option B)
    → o ≡ some a
    → f a ≡ r
    → (o >>= f) ≡ r
bind-some f e q = ap (λ x. x >>= f) e ∙ q

abbrev pub match_of : Printed → Match
match_of p = record {
  m2 = text p.gomaxprocs;
  m3 = text p.idleprocs;
  m4 = text p.threads;
  m5 = text p.spinningthreads;
  m6 = text p.needspinning;
  m7 = text p.idlethreads;
  m8 = text p.runqueue;
  m9 = queue_text p.p_queues;
}

digit_no_space : (d : ℕ) (s : Text) → all_digits (d ∷ s) ≡ true → is_re_space d ≡ false
digit_no_space d s h = ground arith

queue_text-one_line :
    (ns : List Number) → all_numbers ns ≡ true → has_no newline (queue_text ns) ≡ true
queue_text-one_line [] h = refl
queue_text-one_line (n ∷ []) h = all_digits-has_no newline (text n) refl (ground arith)
queue_text-one_line (n ∷ m ∷ ns) h =
    has_no-append newline (text n) (b' ' ∷ queue_text (m ∷ ns))
      (all_digits-has_no newline (text n) refl (ground arith))
      (queue_text-one_line (m ∷ ns) (ground arith))

pub find_submatch-print_line :
    (p : Printed)
    → all_numbers (numbers p) ≡ true
    → find_submatch (print_line p) ≡ some (match_of p)
unfolding find_submatch print_line print_field
find_submatch-print_line p h =
    bind-some _
      (field-append [] p.ms _ (ground arith) refl
        (digit_no_space p.ms.first p.ms.others (ground arith)))
      (bind-some _ (field-append (codes "gomaxprocs=") p.gomaxprocs _ (ground arith) refl refl) (
        bind-some _ (field-append (codes "idleprocs=") p.idleprocs _ (ground arith) refl refl) (
          bind-some _ (field-append (codes "threads=") p.threads _ (ground arith) refl refl) (
            bind-some _
              (field-append (codes "spinningthreads=") p.spinningthreads _ (ground arith) refl refl)
              (bind-some _
                (field-append (codes "needspinning=") p.needspinning _ (ground arith) refl refl)
                (bind-some _
                  (field-append (codes "idlethreads=") p.idlethreads _ (ground arith) refl refl)
                  (bind-some _
                    (field-append (codes "runqueue=") p.runqueue _ (ground arith) refl refl)
                    (bind-some _
                      (until_last_bracket-append (queue_text p.p_queues)
                        (queue_text-one_line p.p_queues (ground arith)))
                      refl))))))))

ends-print_field :
    (name : Text) (n : Number) (s : Text)
    → ends_no_space s ≡ true
    → ends_no_space (print_field name n s) ≡ true
unfolding print_field
ends-print_field name n s h =
    ends_no_space-cons b' ' (name ++ (text n ++ s))
      (ends_no_space-append name (text n ++ s) (ends_no_space-append (text n) s h))

trim_space-print_line : (p : Printed) → trim_space (print_line p) ≡ print_line p
unfolding print_line
trim_space-print_line p = trim_space-kept b'S' _ refl (
    ends_no_space-append (codes "SCHED") _ (
      ends-print_field [] p.ms _ (
        ends_no_space-append (codes "ms:") _ (
          ends-print_field (codes "gomaxprocs=") p.gomaxprocs _ (
            ends-print_field (codes "idleprocs=") p.idleprocs _ (
              ends-print_field (codes "threads=") p.threads _ (
                ends-print_field (codes "spinningthreads=") p.spinningthreads _ (
                  ends-print_field (codes "needspinning=") p.needspinning _ (
                    ends-print_field (codes "idlethreads=") p.idlethreads _ (
                      ends-print_field (codes "runqueue=") p.runqueue _ (
                        ends_no_space-append (b' ' ∷ b'[' ∷ queue_text p.p_queues) (b']' ∷ [])
                          (ends_no_space-last b']' refl))))))))))))

digit_not_space : (d : ℕ) (s : Text) → all_digits (d ∷ s) ≡ true → is_space d ≡ false
digit_not_space d s h = ground arith

ends-queue_text :
    (n : Number) (ns : List Number)
    → all_numbers (n ∷ ns) ≡ true
    → ends_no_space (queue_text (n ∷ ns)) ≡ true
ends-queue_text n [] h = all_digits-ends_no_space n.first n.others (ground arith)
ends-queue_text n (m ∷ ns) h =
    ends_no_space-append (text n) (b' ' ∷ queue_text (m ∷ ns))
      (ends_no_space-cons b' ' (queue_text (m ∷ ns)) (ends-queue_text m ns (ground arith)))

pub trim_space-queue_text :
    (ns : List Number) → all_numbers ns ≡ true → trim_space (queue_text ns) ≡ queue_text ns
trim_space-queue_text [] h = refl
trim_space-queue_text (n ∷ []) h =
    trim_space-kept n.first n.others (digit_not_space n.first n.others (ground arith))
      (all_digits-ends_no_space n.first n.others (ground arith))
trim_space-queue_text (n ∷ m ∷ ns) h =
    trim_space-kept n.first (n.others ++ b' ' ∷ queue_text (m ∷ ns))
      (digit_not_space n.first n.others (ground arith)) (ends-queue_text n (m ∷ ns) h)

pub read_print_line :
    (p : Printed)
    → all_numbers (numbers p) ≡ true
    → parse_schedtrace_line (print_line p) ≡ parse_match (match_of p)
read_print_line p h = cc (trim_space-print_line p, find_submatch-print_line p h)

abbrev pub in_range : List Number → Bool
in_range [] = true
in_range (n ∷ ns) = ltb (number n) (2 ^ 63) && in_range ns

abbrev pub stats_of : Printed → SchedStats
stats_of p = record {
  gomaxprocs = pos (number p.gomaxprocs);
  idleprocs = pos (number p.idleprocs);
  threads = pos (number p.threads);
  spinningthreads = pos (number p.spinningthreads);
  needspinning = pos (number p.needspinning);
  idlethreads = pos (number p.idlethreads);
  runqueue = pos (number p.runqueue);
  p_queues = map (λ n. pos (number n)) p.p_queues;
}

atoi-in_range :
    (n : Number)
    → all_digits (text n) ≡ true
    → ltb (number n) (2 ^ 63) ≡ true
    → atoi (text n) ≡ int (pos (number n))
atoi-in_range n d h = atoi-digits n d ∙ ground arith

to_queues-numbers :
    (ns : List Number)
    → all_numbers ns ≡ true
    → in_range ns ≡ true
    → to_queues (map text ns) ≡ queues (map (λ n. pos (number n)) ns)
to_queues-numbers [] d h = refl
to_queues-numbers (n ∷ ns) d h = cc (
  atoi-in_range n (ground arith) (ground arith),
  to_queues-numbers ns (ground arith) (ground arith),
)

-- A line as the runtime prints it is parsed into its numbers, when all of them are below 2^63.
pub parse_schedtrace_line-print_line :
    (p : Printed)
    → all_numbers (numbers p) ≡ true
    → in_range (numbers p) ≡ true
    → parse_schedtrace_line (print_line p) ≡ parsed (stats_of p)
unfolding parse_match
parse_schedtrace_line-print_line p d h =
    read_print_line p d
    ∙ cc (
      atoi-in_range p.gomaxprocs (ground arith) (ground arith),
      atoi-in_range p.idleprocs (ground arith) (ground arith),
      atoi-in_range p.threads (ground arith) (ground arith),
      atoi-in_range p.spinningthreads (ground arith) (ground arith),
      atoi-in_range p.needspinning (ground arith) (ground arith),
      atoi-in_range p.idlethreads (ground arith) (ground arith),
      atoi-in_range p.runqueue (ground arith) (ground arith),
      trim_space-queue_text p.p_queues (ground arith),
      fields-queue_text p.p_queues (ground arith),
      to_queues-numbers p.p_queues (ground arith) (ground arith),
    )
