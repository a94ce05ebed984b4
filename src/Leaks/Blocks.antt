-- ===== src/Leaks/Blocks.antt =====
-- What `parseStacks` of adv024_goroutine_leak/main.go cuts a dump into.
use go_daily_learning.Prelude.{
  ℕ, zero, suc, ◌≤◌, ◌≡◌, refl, true, false, List, [], ◌∷◌, arith, if◌then◌else◌, length,
  Bool-cases, inl, inr,
}
use go_daily_learning.Text.{Text, split_lines}
use go_daily_learning.Leaks.{
  GoroutineInfo, is_header, in_block, block, after_block, info_of_block, parse_lines, parse_stacks,
}

-- One entry for each header line, from the header and the block under it.
unfoldable pub headers : List Text → List GoroutineInfo
headers [] = []
headers (l ∷ ls) =
    let rest = headers ls in if is_header l then info_of_block l (block ls) ∷ rest else rest

not_header : (l : Text) → in_block l ≡ true → is_header l ≡ false
unfolding in_block
not_header l h = ground arith

pub headers-skip : (l : Text) (ls : List Text) → in_block l ≡ true → headers (l ∷ ls) ≡ headers ls
unfolding headers
headers-skip l ls h = let n = not_header l h in ground arith

pub headers-take :
    (l : Text) (ls : List Text)
    → is_header l ≡ true
    → headers (l ∷ ls) ≡ info_of_block l (block ls) ∷ headers ls
unfolding headers
headers-take l ls h = cc

headers-after_block : (ls : List Text) → headers (after_block ls) ≡ headers ls
headers-after_block [] = refl
headers-after_block (l ∷ ls) = elim (Bool-cases (in_block l)) [
  | inl b ↦ cc (headers-after_block ls, headers-skip l ls b)
  | inr b ↦ cc
]

length-after_block : (ls : List Text) → length (after_block ls) ≤ length ls
length-after_block [] = omega arith
length-after_block (l ∷ ls) = let r = length-after_block ls in ground arith

pub parse_lines-headers :
    (fuel : ℕ) (ls : List Text) → length ls ≤ fuel → parse_lines fuel ls ≡ headers ls
unfolding parse_lines headers
parse_lines-headers zero [] h = refl
parse_lines-headers zero (l ∷ ls) h = absurd (omega arith)
parse_lines-headers (suc fuel) [] h = refl
parse_lines-headers (suc fuel) (l ∷ ls) h = cc (
  parse_lines-headers fuel ls (omega arith),
  parse_lines-headers fuel (after_block ls) (omega (arith, length-after_block ls)),
  headers-after_block ls,
)

-- `parseStacks` gives one entry for each line that starts with the prefix of a header, in order,
-- made from that line and the lines under it up to the next empty line or header.
pub parse_stacks-headers : (text : Text) → parse_stacks text ≡ headers (split_lines text)
parse_stacks-headers text =
    parse_lines-headers (length (split_lines text)) (split_lines text) (omega arith)
