-- ===== src/Leaks/Dumps.antt =====
-- What `parseStacks` of adv024_goroutine_leak/main.go reads from a dump in the format of the
-- runtime.
use mathlib.Core.List.{append-nil}
use go_daily_learning.Prelude.{
  ℕ, ◌^◌, ◌<◌, ◌≡◌, refl, ap, ◌∙◌, Bool, true, ◌&&◌, List, [], ◌∷◌, ◌++◌, map, arith, Option, none,
  some,
}
use go_daily_learning.Text.{
  Text, trim_prefix, trim_space, parse_uint, join_lines, newline, has_no, has_no-append,
  has_prefix-append, trim_prefix-append, take-append, drop-append, index_byte-append,
  index_byte-none, all_digits, value, no_space, parse_uint-value, all_digits-has_no,
  trim_space-no_space, each_has_no, split_lines-join_lines, no_space-has_no,
}
use go_daily_learning.Leaks.{
  GoroutineInfo, goroutine_prefix, is_header, in_block, block, id_of, cut_minutes, state_of,
  cut_arguments, top_func_of, info_of_block, parse_stacks,
}
use go_daily_learning.Leaks.Blocks.{headers, headers-skip, headers-take, parse_stacks-headers}

-- A goroutine of a dump. The digits, the state and the function are not empty: each is a first byte
-- and the rest. `minutes` is what follows the first comma of the header. The first frame is the
-- function, its first parenthesis and `arguments`, whatever that holds: for the frame
-- `main.(*server).run(0x1)` of a method the function is `main.`.
pub record Shown : Type 0 where
  pub digit : ℕ
  pub digits : Text
  pub state0 : ℕ
  pub state : Text
  pub minutes : Option Text
  pub func0 : ℕ
  pub func : Text
  pub arguments : Text
  pub frames : List Text

abbrev pub shown_minutes : Option Text → Text
shown_minutes none = []
shown_minutes (some t) = b',' ∷ t

abbrev pub in_brackets : Text → Text
in_brackets s = b' ' ∷ b'[' ∷ s ++ b']' ∷ b':' ∷ []

abbrev pub shown_state : Shown → Text
shown_state g = (g.state0 ∷ g.state) ++ shown_minutes g.minutes

abbrev pub header_line : Shown → Text
header_line g = goroutine_prefix ++ (g.digit ∷ g.digits) ++ in_brackets (shown_state g)

abbrev pub func_line : Shown → Text
func_line g = (g.func0 ∷ g.func) ++ b'(' ∷ g.arguments

abbrev pub body : Shown → List Text
body g = func_line g ∷ g.frames

abbrev pub dump_lines : List Shown → List Text
dump_lines [] = []
dump_lines (g ∷ gs) = header_line g ∷ body g ++ [] ∷ dump_lines gs

abbrev pub all_in_block : List Text → Bool
all_in_block [] = true
all_in_block (l ∷ ls) = in_block l && all_in_block ls

abbrev pub no_bracket : Option Text → Bool
no_bracket none = true
no_bracket (some t) = has_no b']' t && has_no newline t

pub record IsShown (g : Shown) : Type 0 where
  pub digits_only : all_digits (g.digit ∷ g.digits) ≡ true
  pub in_range : value 0 (g.digit ∷ g.digits) < 2 ^ 64
  pub no_comma : has_no b',' (g.state0 ∷ g.state) ≡ true
  pub no_end : has_no b']' (g.state0 ∷ g.state) ≡ true
  pub one_line : has_no newline (g.state0 ∷ g.state) ≡ true
  pub minutes_end : no_bracket g.minutes ≡ true
  pub func_no_space : no_space (g.func0 ∷ g.func) ≡ true
  pub func_no_arguments : has_no b'(' (g.func0 ∷ g.func) ≡ true
  pub arguments_line : has_no newline g.arguments ≡ true
  pub frames_lines : each_has_no newline g.frames ≡ true
  pub body_in_block : all_in_block (body g) ≡ true

abbrev pub info_of : Shown → GoroutineInfo
info_of g = record {
  id = value 0 (g.digit ∷ g.digits);
  state = g.state0 ∷ g.state;
  top_func = g.func0 ∷ g.func;
  raw = join_lines (header_line g ∷ body g);
}

cut_minutes-kept : (s : Text) → has_no b',' s ≡ true → cut_minutes s ≡ s
cut_minutes-kept s h = let i = index_byte-none b',' s h in ground arith

cut_minutes-shown :
    (c : ℕ) (s : Text) (m : Option Text)
    → has_no b',' (c ∷ s) ≡ true
    → cut_minutes ((c ∷ s) ++ shown_minutes m) ≡ c ∷ s
cut_minutes-shown c s none h = ap cut_minutes (append-nil (c ∷ s)) ∙ cut_minutes-kept (c ∷ s) h
cut_minutes-shown c s (some t) h =
    let i = index_byte-append b',' (c ∷ s) t h in
    let k = take-append (c ∷ s) (b',' ∷ t) in ground arith

state_of-in_brackets :
    (c : ℕ) (s : Text)
    → has_no b']' (c ∷ s) ≡ true
    → state_of (in_brackets (c ∷ s)) ≡ cut_minutes (c ∷ s)
state_of-in_brackets c s h =
    let i = index_byte-append b']' (c ∷ s) (b':' ∷ []) h in
    let k = take-append (c ∷ s) (b']' ∷ b':' ∷ []) in ground arith

cut_arguments-func :
    (c : ℕ) (s t : Text) → has_no b'(' (c ∷ s) ≡ true → cut_arguments ((c ∷ s) ++ b'(' ∷ t) ≡ c ∷ s
cut_arguments-func c s t h =
    let i = index_byte-append b'(' (c ∷ s) t h in
    let k = take-append (c ∷ s) (b'(' ∷ t) in ground arith

id_of-digits :
    (c : ℕ) (s t : Text)
    → has_no b' ' (c ∷ s) ≡ true
    → id_of ((c ∷ s) ++ b' ' ∷ t) ≡ ((parse_uint (c ∷ s)).0, b' ' ∷ t)
id_of-digits c s t h =
    let i = index_byte-append b' ' (c ∷ s) t h in
    let k = take-append (c ∷ s) (b' ' ∷ t) in let d = drop-append (c ∷ s) (b' ' ∷ t) in ground arith

block-body : (ls rest : List Text) → all_in_block ls ≡ true → block (ls ++ [] ∷ rest) ≡ ls
unfolding in_block
block-body [] rest h = refl
block-body (l ∷ ls) rest h = let r = block-body ls rest (ground arith) in ground arith

headers-body :
    (ls rest : List Text) → all_in_block ls ≡ true → headers (ls ++ [] ∷ rest) ≡ headers rest
unfolding headers is_header
headers-body [] rest h = refl
headers-body (l ∷ ls) rest h =
    headers-skip l (ls ++ [] ∷ rest) (ground arith) ∙ headers-body ls rest (ground arith)

module _ (g : Shown) (ok : IsShown g) where
  trimmed :
      trim_prefix (header_line g) goroutine_prefix
      ≡ (g.digit ∷ g.digits) ++ in_brackets (shown_state g)
  trimmed =
      trim_prefix-append goroutine_prefix ((g.digit ∷ g.digits) ++ in_brackets (shown_state g))

  number_read :
      id_of (trim_prefix (header_line g) goroutine_prefix)
      ≡ (value 0 (g.digit ∷ g.digits), in_brackets (shown_state g))
  number_read =
      ap id_of trimmed
      ∙ id_of-digits g.digit g.digits (b'[' ∷ shown_state g ++ b']' ∷ b':' ∷ [])
          (all_digits-has_no b' ' (g.digit ∷ g.digits) refl ok.digits_only)
      ∙ ap (λ v. (v.0, in_brackets (shown_state g)))
          (parse_uint-value g.digit g.digits ok.digits_only ok.in_range)

  no_end_shown : (m : Option Text) → no_bracket m ≡ true → has_no b']' (shown_minutes m) ≡ true
  no_end_shown none h = refl
  no_end_shown (some t) h = ground arith

  state_read : state_of (in_brackets (shown_state g)) ≡ g.state0 ∷ g.state
  state_read =
      state_of-in_brackets g.state0 (g.state ++ shown_minutes g.minutes) (
        has_no-append b']' (g.state0 ∷ g.state) (shown_minutes g.minutes) ok.no_end
          (no_end_shown g.minutes ok.minutes_end))
      ∙ cut_minutes-shown g.state0 g.state g.minutes ok.no_comma

  func_read : top_func_of (body g) ≡ g.func0 ∷ g.func
  func_read =
      ap trim_space (cut_arguments-func g.func0 g.func g.arguments ok.func_no_arguments)
      ∙ trim_space-no_space (g.func0 ∷ g.func) ok.func_no_space

  block_read : info_of_block (header_line g) (body g) ≡ info_of g
  unfolding info_of_block
  block_read = cc (number_read, state_read, func_read)

  header_line-is_header : is_header (header_line g) ≡ true
  unfolding is_header
  header_line-is_header =
      has_prefix-append goroutine_prefix ((g.digit ∷ g.digits) ++ in_brackets (shown_state g))

  headers-block :
      (rest : List Text) → headers (header_line g ∷ body g ++ [] ∷ rest) ≡ info_of g ∷ headers rest
  headers-block rest =
      headers-take (header_line g) (body g ++ [] ∷ rest) header_line-is_header
      ∙ cc (
        block-body (body g) rest ok.body_in_block,
        headers-body (body g) rest ok.body_in_block,
        block_read,
      )

  minutes_line : (m : Option Text) → no_bracket m ≡ true → has_no newline (shown_minutes m) ≡ true
  minutes_line none h = refl
  minutes_line (some t) h = ground arith

  header_one_line : has_no newline (header_line g) ≡ true
  header_one_line =
      has_no-append newline goroutine_prefix ((g.digit ∷ g.digits) ++ in_brackets (shown_state g))
        refl
        (has_no-append newline (g.digit ∷ g.digits) (in_brackets (shown_state g))
          (all_digits-has_no newline (g.digit ∷ g.digits) refl ok.digits_only)
          (has_no-append newline (shown_state g) (b']' ∷ b':' ∷ [])
            (has_no-append newline (g.state0 ∷ g.state) (shown_minutes g.minutes) ok.one_line
              (minutes_line g.minutes ok.minutes_end))
            refl))

  func_one_line : has_no newline (func_line g) ≡ true
  func_one_line =
      has_no-append newline (g.func0 ∷ g.func) (b'(' ∷ g.arguments)
        (no_space-has_no (g.func0 ∷ g.func) ok.func_no_space) ok.arguments_line

pub data AllShown : List Shown → Type 0 where
  all_none : AllShown []
  all_more : {g : Shown} {gs : List Shown} → IsShown g → AllShown gs → AllShown (g ∷ gs)

headers-dump_lines : (gs : List Shown) → AllShown gs → headers (dump_lines gs) ≡ map info_of gs
unfolding headers
headers-dump_lines [] all_none = refl
headers-dump_lines (g ∷ gs) (all_more ok oks) =
    headers-block g ok (dump_lines gs) ∙ ap (◌∷◌ (info_of g)) (headers-dump_lines gs oks)

each_has_no-cons :
    (l : Text) (ls : List Text)
    → has_no newline l ≡ true
    → each_has_no newline ls ≡ true
    → each_has_no newline (l ∷ ls) ≡ true
each_has_no-cons l ls h k = ground arith

each_has_no-append :
    (ls ms : List Text)
    → each_has_no newline ls ≡ true
    → each_has_no newline ms ≡ true
    → each_has_no newline (ls ++ ms) ≡ true
each_has_no-append [] ms h k = k
each_has_no-append (l ∷ ls) ms h k =
    let r = each_has_no-append ls ms (ground arith) k in ground arith

one_line_each : (gs : List Shown) → AllShown gs → each_has_no newline (dump_lines gs) ≡ true
one_line_each [] all_none = refl
one_line_each (g ∷ gs) (all_more ok oks) =
    each_has_no-cons (header_line g) (body g ++ [] ∷ dump_lines gs) (header_one_line g ok) (
      each_has_no-cons (func_line g) (g.frames ++ [] ∷ dump_lines gs) (func_one_line g ok)
        (each_has_no-append g.frames ([] ∷ dump_lines gs) ok.frames_lines (one_line_each gs oks)))

-- On a dump in the format of the runtime, `parseStacks` gives back the goroutines in order: the
-- number that the digits stand for, the state without its tail, the text of the first frame up to
-- its first parenthesis (the name of a function, only the package of a method with a pointer
-- receiver), and the text of the whole block. The dump has at least one goroutine, numbers below
-- 2^64, states without a comma, a closing bracket or a newline, tails without a closing bracket, no
-- white space before the first parenthesis of a first frame, no newline inside a line, and no line
-- of a block is empty or starts like a header.
pub parse_stacks-dump :
    (g : Shown) (gs : List Shown)
    → AllShown (g ∷ gs)
    → parse_stacks (join_lines (dump_lines (g ∷ gs))) ≡ map info_of (g ∷ gs)
parse_stacks-dump g gs ok =
    parse_stacks-headers (join_lines (dump_lines (g ∷ gs)))
    ∙ ap headers (
        split_lines-join_lines (header_line g) (body g ++ [] ∷ dump_lines gs)
          (one_line_each (g ∷ gs) ok))
    ∙ headers-dump_lines (g ∷ gs) ok
