-- ===== src/Cgroup/Threads.antt =====
-- The thread count of adv007_gomaxprocs_container/main.go, from the status file of a process.
use go_daily_learning.Prelude.{
  ℕ, ◌^◌, ◌<◌, ◌≡◌, refl, ap, ◌∙◌, Bool, true, false, ◌&&◌, some, List, [], ◌∷◌, ◌++◌, arith, leb,
  if◌then◌else◌,
}
use go_daily_learning.Prelude.Int.{pos}
use go_daily_learning.Text.{
  Text, err_range, codes, all_digits, has_prefix, has_prefix-append, join_lines, newline,
  each_has_no, split_lines-join_lines,
}
use go_daily_learning.Schedtrace.Line.{fields, int, int_error}
use go_daily_learning.Schedtrace.Printed.{Number, text, number, atoi-digits}
use go_daily_learning.Cgroup.{count_threads, count_lines, found_threads}
use go_daily_learning.Cgroup.Limits.{fields-word, fields-append}
use go_daily_learning.Cgroup.Recommend.{no_space-digits}

abbrev pub threads_name : Number
threads_name = record { first = b'T'; others = codes "hreads:" }

-- `Threads:`, a tab and the count.
abbrev pub threads_line : Number → Text
threads_line n = text threads_name ++ b'\t' ∷ text n

-- No line is about threads.
abbrev pub none_threads : List Text → Bool
none_threads [] = true
none_threads (l ∷ ls) = (if has_prefix l (codes "Threads:") then false else true) && none_threads ls

skip_lines :
    (before after : List Text)
    → none_threads before ≡ true
    → count_lines (before ++ after) ≡ count_lines after
unfolding count_lines
skip_lines [] after h = refl
skip_lines (l ∷ before) after h =
    let r = skip_lines before after (ground arith) in
    let e : has_prefix l (codes "Threads:") ≡ false = ground arith in
    ap
      (λ (b : Bool).
        if b
        then found_threads (fields l) (count_lines (before ++ after))
        else count_lines (before ++ after))
      e
    ∙ r

here_line :
    (n : Number) (after : List Text)
    → all_digits (text n) ≡ true
    → number n < 2 ^ 63
    → count_lines (threads_line n ∷ after) ≡ some (int (pos (number n)))
unfolding count_lines
here_line n after h l =
    ap
      (λ (b : Bool).
        if b
        then found_threads (fields (threads_line n)) (count_lines after)
        else count_lines after)
      (has_prefix-append (codes "Threads:") (b'\t' ∷ text n))
    ∙ ap (λ ws. found_threads ws (count_lines after))
        (fields-append (b'\t') (b'T') (codes "hreads:") (text n) refl refl
          ∙ ap (◌∷◌ (text threads_name))
              (fields-word n.first n.others (no_space-digits (text n) h)))
    ∙ ap some (atoi-digits n h ∙ in_range (number n) l)
  where
    in_range :
        (k : ℕ)
        → k < 2 ^ 63
        → (if leb (2 ^ 63) k then int_error err_range else int (pos k)) ≡ int (pos k)
    in_range k l = ground arith

-- The number that a status file shows on its first `Threads:` line, in digits and below 2 ^ 63, is
-- what `countThreads` returns, whatever the lines before and after it are.
pub count_threads-status :
    (before after : List Text) (n : Number)
    → none_threads before ≡ true
    → all_digits (text n) ≡ true
    → number n < 2 ^ 63
    → each_has_no newline (before ++ threads_line n ∷ after) ≡ true
    → count_threads (some (join_lines (before ++ threads_line n ∷ after)))
      ≡ some (int (pos (number n)))
unfolding count_threads
count_threads-status [] after n s h l e =
    ap count_lines (split_lines-join_lines (threads_line n) after e) ∙ here_line n after h l
count_threads-status (b ∷ before) after n s h l e =
    ap count_lines (split_lines-join_lines b (before ++ threads_line n ∷ after) e)
    ∙ skip_lines (b ∷ before) (threads_line n ∷ after) s
    ∙ here_line n after h l
