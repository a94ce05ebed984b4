-- ===== src/Leaks.antt =====
-- adv024_goroutine_leak/main.go: the parser of goroutine dumps, the leak checker on it, and the
-- functions that leak a goroutine or do not (Leaks/Release). `runtime.Stack` is a parameter.
pub mod Blocks
pub mod Dumps
pub mod Since
pub mod Release
pub mod Waits
mod Examples
use go_daily_learning.Prelude.{
  ℕ, zero, suc, ◌+◌, ◌-◌, ◌*◌, ◌≡◌, Bool, true, false, not, ◌&&◌, ◌||◌, Option, none, some, List,
  [], ◌∷◌, ◌++◌, map, ltb, leb, ◌==◌, if◌then◌else◌, length, take, drop,
}
use go_daily_learning.Sorting.{sort_by}
use go_daily_learning.Text.{
  Text, codes, has_prefix, trim_prefix, index_byte, contains, trim_space, parse_uint, split_lines,
  join_lines, newline,
}

-- The loop of `goroutineStacks` with fuel. `stack i n` is what the call of `runtime.Stack` at
-- attempt `i` leaves in a buffer of `n` bytes.
unfoldable pub grow : (ℕ → ℕ → Text) → ℕ → ℕ → ℕ → Option Text
grow stack zero i n = none
grow stack (suc fuel) i n =
    let rest = grow stack fuel (suc i) (2 * n) in
    if ltb (length (stack i n)) n then some (stack i n) else rest

abbrev pub goroutine_stacks : (ℕ → ℕ → Text) → ℕ → Option Text
goroutine_stacks stack fuel = grow stack fuel 0 65536

pub record GoroutineInfo : Type 0 where
  pub id : ℕ
  pub state : Text
  pub top_func : Text
  pub raw : Text

abbrev pub goroutine_prefix : Text
goroutine_prefix = codes "goroutine "

unfoldable pub is_header : Text → Bool
is_header line = has_prefix line goroutine_prefix

abbrev pub is_empty : Text → Bool
is_empty [] = true
is_empty (c ∷ s) = false

unfoldable pub in_block : Text → Bool
unfolding is_header
in_block line = not (is_empty line) && not (is_header line)

abbrev pub block : List Text → List Text
block [] = []
block (l ∷ ls) = let rest = block ls in if in_block l then l ∷ rest else []

abbrev pub after_block : List Text → List Text
after_block [] = []
after_block (l ∷ ls) = let rest = after_block ls in if in_block l then rest else l ∷ ls

-- The number of a header, and what is left of the line.
abbrev pub id_of : Text → ℕ × Text
id_of rest = elim (index_byte rest b' ') [
  | none ↦ (0, rest)
  | some sp ↦ if ltb 0 sp then ((parse_uint (take sp rest)).0, drop sp rest) else (0, rest)
]

abbrev pub cut_minutes : Text → Text
cut_minutes s = elim (index_byte s b',') [ none ↦ s | some c ↦ if ltb 0 c then take c s else s ]

abbrev pub state_of : Text → Text
state_of rest = elim (index_byte rest b'[') [
  | none ↦ []
  | some lb ↦ elim (index_byte (drop lb rest) b']') [
    | none ↦ []
    | some rb ↦ if ltb lb rb then cut_minutes (take (rb - 1) (drop (lb + 1) rest)) else []
  ]
]

abbrev pub cut_arguments : Text → Text
cut_arguments fn = elim (index_byte fn b'(') [
  | none ↦ fn
  | some p ↦ if ltb 0 p then take p fn else fn
]

abbrev pub top_func_of : List Text → Text
top_func_of [] = []
top_func_of (fn ∷ ls) = trim_space (cut_arguments fn)

unfoldable pub info_of_block : Text → List Text → GoroutineInfo
info_of_block header body =
    let (n, rest) = id_of (trim_prefix header goroutine_prefix) in
    record {
      id = n;
      state = state_of rest;
      top_func = top_func_of body;
      raw = join_lines (header ∷ body);
    }

-- The loop of `parseStacks` over the lines that are left, with fuel.
unfoldable pub parse_lines : ℕ → List Text → List GoroutineInfo
unfolding is_header
parse_lines zero ls = []
parse_lines (suc fuel) [] = []
parse_lines (suc fuel) (l ∷ ls) =
    let next = parse_lines fuel ls in
    let jump = parse_lines fuel (after_block ls) in
    if is_header l then info_of_block l (block ls) ∷ jump else next

abbrev pub parse_stacks : Text → List GoroutineInfo
parse_stacks text = parse_lines (length (split_lines text)) (split_lines text)

abbrev pub is_ours : GoroutineInfo → Bool
is_ours g =
    if contains g.raw (newline ∷ codes "main.")
    then true
    else contains g.raw (codes "created by main.")

-- `GSnapshot`, a set of ids.
abbrev pub seen : List ℕ → ℕ → Bool
seen [] n = false
seen (m ∷ base) n = m == n || seen base n

abbrev pub take_snapshot : Text → List ℕ
take_snapshot dump = map (λ g. g.id) (parse_stacks dump)

abbrev pub new_ours : List ℕ → List GoroutineInfo → List GoroutineInfo
new_ours base [] = []
new_ours base (g ∷ gs) =
    let out = new_ours base gs in
    if seen base g.id then out else if not (is_ours g) then out else g ∷ out

-- The ids of one dump differ, so there is one ascending order.
abbrev pub new_since : List ℕ → Text → List GoroutineInfo
new_since base dump = sort_by (λ g. g.id) (new_ours base (parse_stacks dump))

pub record LeakChecker : Type 0 where
  pub base : List ℕ

abbrev pub new_leak_checker : Text → LeakChecker
new_leak_checker dump = record { base = take_snapshot dump }

abbrev pub report : LeakChecker → Text → List GoroutineInfo
report lc dump = new_since lc.base dump

-- `waitFor` and the report that `awaitReport` keeps: at poll `i` the dump is `dumps i`, and `late
-- i` says whether the deadline has passed when the poll looks at the clock.
unfoldable pub await_report :
    LeakChecker → (ℕ → Text) → (ℕ → Bool) → ℕ → ℕ → ℕ → Option (List GoroutineInfo)
await_report lc dumps late least zero i = none
await_report lc dumps late least (suc fuel) i =
    let rest = await_report lc dumps late least fuel (suc i) in
    if leb least (length (report lc (dumps i)))
    then some (report lc (dumps i))
    else if late i
    then some (report lc (dumps i))
    else rest
