-- ===== src/Text/Lines.antt =====
-- Lines: `strings.Split` and `strings.Join` at a newline.
use go_daily_learning.Prelude.{
  ℕ, ◌≡◌, refl, ap, ◌∙◌, Bool, true, ◌&&◌, List, [], ◌∷◌, ◌++◌, arith, ◌==◌, if◌then◌else◌,
}
use go_daily_learning.Text.Bytes.{Text, has_no}

abbrev pub newline : ℕ
newline = 10

abbrev add_first : ℕ → List Text → List Text
add_first c [] = (c ∷ []) ∷ []
add_first c (l ∷ ls) = (c ∷ l) ∷ ls

-- `strings.Split(text, "\n")`, which is never empty.
abbrev pub split_lines : Text → List Text
split_lines [] = [] ∷ []
split_lines (c ∷ s) =
    let rest = split_lines s in if c == newline then [] ∷ rest else add_first c rest

-- `strings.Join(lines, "\n")`.
abbrev pub join_lines : List Text → Text
join_lines [] = []
join_lines (l ∷ []) = l
join_lines (l ∷ m ∷ ls) = l ++ newline ∷ join_lines (m ∷ ls)

abbrev pub each_has_no : ℕ → List Text → Bool
each_has_no b [] = true
each_has_no b (l ∷ ls) = has_no b l && each_has_no b ls

split-last : (l : Text) → has_no newline l ≡ true → split_lines l ≡ l ∷ []
split-last [] h = refl
split-last (c ∷ l) h = let r = split-last l (ground arith) in ground arith

split-append :
    (l s : Text) → has_no newline l ≡ true → split_lines (l ++ newline ∷ s) ≡ l ∷ split_lines s
split-append [] s h = refl
split-append (c ∷ l) s h = let r = split-append l s (ground arith) in ground arith

-- Splitting undoes joining.
pub split_lines-join_lines :
    (l : Text) (ls : List Text)
    → each_has_no newline (l ∷ ls) ≡ true
    → split_lines (join_lines (l ∷ ls)) ≡ l ∷ ls
split_lines-join_lines l [] h = split-last l (ground arith)
split_lines-join_lines l (m ∷ ls) h =
    split-append l (join_lines (m ∷ ls)) (ground arith)
    ∙ ap (◌∷◌ l) (split_lines-join_lines m ls (ground arith))
