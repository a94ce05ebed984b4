-- ===== src/Leaks/Examples.antt =====
-- The leak checker of adv024_goroutine_leak/main.go on small dumps.
use go_daily_learning.Prelude.{◌≤◌, ◌≡◌, refl, true, some, [], ◌∷◌, map, arith, length}
use mathlib.Core.List.{Permᴰ}
use go_daily_learning.Sorting.{is_sorted}
use go_daily_learning.Text.{Text, codes, join_lines}
use go_daily_learning.Leaks.{
  parse_stacks, new_leak_checker, take_snapshot, report, info_of_block, parse_lines, in_block,
  state_of, top_func_of,
}
use go_daily_learning.Leaks.Blocks.{headers, parse_stacks-headers}
use go_daily_learning.Leaks.Dumps.{
  Shown, IsShown, all_none, all_more, dump_lines, info_of, parse_stacks-dump,
}
use go_daily_learning.Leaks.Since.{keep, is_new, report-new}
use go_daily_learning.Leaks.Release.{
  range_no_close, begins, finishes, releases_it, run_leak, leak_move, is_ended, ended, waiting,
}
use go_daily_learning.Leaks.Waits.{run_leak-released}

abbrev sender : Shown
sender = record {
  digit = b'1';
  digits = b'8' ∷ [];
  state0 = b'c';
  state = codes "han send";
  minutes = some (codes " 5 minutes");
  func0 = b'm';
  func = codes "ain.leakChannelSend.func1";
  arguments = codes ")";
  frames = codes "created by main.leakChannelSend in goroutine 1" ∷ [];
}

sender-IsShown : IsShown sender
unfolding in_block
sender-IsShown = record {
  digits_only = refl;
  in_range = omega arith;
  no_comma = refl;
  no_end = refl;
  one_line = refl;
  minutes_end = refl;
  func_no_space = refl;
  func_no_arguments = refl;
  arguments_line = refl;
  frames_lines = refl;
  body_in_block = refl;
}

abbrev sender_dump : Text
sender_dump = join_lines (dump_lines (sender ∷ []))

parse_stacks-headers_example :
    parse_stacks (codes "goroutine 7 [select]:") ≡ headers (codes "goroutine 7 [select]:" ∷ [])
parse_stacks-headers_example = parse_stacks-headers (codes "goroutine 7 [select]:")

parse_stacks-dump_example : parse_stacks sender_dump ≡ map info_of (sender ∷ [])
parse_stacks-dump_example = parse_stacks-dump sender [] (all_more sender-IsShown all_none)

sender_state : map (λ g. g.state) (parse_stacks sender_dump) ≡ codes "chan send" ∷ []
unfolding parse_lines info_of_block in_block
sender_state = refl

-- Of a method with a pointer receiver only the package is kept.
method_name :
    map
      (λ g. g.top_func)
      (parse_stacks
        (join_lines (codes "goroutine 7 [running]:" ∷ codes "main.(*server).run(0x1)" ∷ [])))
    ≡ codes "main." ∷ []
unfolding parse_lines info_of_block in_block
method_name = refl

report-new_example :
    let out = report (new_leak_checker []) sender_dump in
    (is_sorted (λ g. g.id) out ≡ true)
    × Permᴰ out (keep (is_new (take_snapshot [])) (parse_stacks sender_dump))
report-new_example = report-new [] sender_dump

sender_reported : length (report (new_leak_checker []) sender_dump) ≡ 1
unfolding parse_lines info_of_block in_block
sender_reported = refl

run_leak-released_example :
    let s = run_leak range_no_close (begins ∷ releases_it ∷ releases_it ∷ []) in
    (s.releases ≤ 1)
    × (is_ended s.waiter ≡ true → s.released ≡ true)
    × (s.released ≡ true
        → s.waiter ≡ waiting
        → leak_move range_no_close s finishes ≡ some (record s { waiter = ended }))
run_leak-released_example =
    run_leak-released range_no_close (begins ∷ releases_it ∷ releases_it ∷ [])

-- The header of a newer runtime, which prints more before the state, loses its state.
long_header : state_of (codes " gp=0xc000002380 m=0 mp=0x5a [running]:") ≡ []
long_header = refl

pointer_method : top_func_of (codes "main.(*server).run(0x1)" ∷ []) ≡ codes "main."
pointer_method = refl
