-- ===== src/Grades.antt =====
-- basic008_switch/main.go, lines 7 to 125: the tagless and the tagged switches. A `string` result
-- is an enum with the literals of the source as constructors; `fallthrough` runs the next body.
pub mod Switches
use go_daily_learning.Prelude.{
  ℕ, zero, suc, Bool, true, false, leb, ltb, ◌==◌, ◌&&◌, ◌||◌, if◌then◌else◌,
}
use go_daily_learning.Prelude.Int.{ℤ, pos, negsuc}

pub data Grade : Type 0 where
  grade_a : Grade
  grade_b : Grade
  grade_c : Grade
  grade_d : Grade
  grade_f : Grade

-- `score >= bound` for a bound that is not negative.
abbrev pub at_least : ℤ → ℕ → Bool
at_least (pos n) b = leb b n
at_least (negsuc n) b = false

abbrev pub score_to_grade : ℤ → Grade
score_to_grade score =
    if at_least score 90
    then grade_a
    else if at_least score 80
    then grade_b
    else if at_least score 70
    then grade_c
    else if at_least score 60
    then grade_d
    else grade_f

abbrev pub score_to_grade_with_break : ℤ → Grade
score_to_grade_with_break score =
    if at_least score 90 then grade_a else if at_least score 80 then grade_b else grade_f

-- The bodies of the cases from 70, 80 and 90 on; each overwrites what came before it.
abbrev from_c : Grade → Grade
from_c grade = grade_c

abbrev from_b : Grade → Grade
from_b grade = from_c grade_b

abbrev from_a : Grade → Grade
from_a grade = from_b grade_a

abbrev pub score_to_grade_with_fallthrough : ℤ → Grade
score_to_grade_with_fallthrough score =
    if at_least score 90
    then from_a grade_f
    else if at_least score 80
    then from_b grade_f
    else if at_least score 70
    then from_c grade_f
    else if at_least score 60
    then grade_d
    else grade_f

pub data NumberClass : Type 0 where
  negative : NumberClass
  is_zero : NumberClass
  up_to_10 : NumberClass
  up_to_100 : NumberClass
  over_100 : NumberClass

abbrev below_zero : ℤ → Bool
below_zero (pos n) = false
below_zero (negsuc n) = true

abbrev equals : ℤ → ℕ → Bool
equals (pos n) m = n == m
equals (negsuc n) m = false

abbrev above : ℤ → ℕ → Bool
above (pos n) m = ltb m n
above (negsuc n) m = false

abbrev at_most : ℤ → ℕ → Bool
at_most (pos n) m = leb n m
at_most (negsuc n) m = true

abbrev pub classify_number : ℤ → NumberClass
classify_number n =
    if below_zero n
    then negative
    else if equals n 0
    then is_zero
    else if above n 0 && at_most n 10
    then up_to_10
    else if above n 10 && at_most n 100
    then up_to_100
    else over_100

abbrev pub month_days : ℤ → ℕ
month_days month =
    if equals month 1
      || equals month 3
      || equals month 5
      || equals month 7
      || equals month 8
      || equals month 10
      || equals month 12
    then 31
    else if equals month 4 || equals month 6 || equals month 9 || equals month 11
    then 30
    else if equals month 2
    then 28
    else 0

-- The same conditions as an `else if` chain.
abbrev pub classify_number_if_else : ℤ → NumberClass
classify_number_if_else n =
    if below_zero n
    then negative
    else if equals n 0
    then is_zero
    else if above n 0 && at_most n 10
    then up_to_10
    else if above n 10 && at_most n 100
    then up_to_100
    else over_100

pub data DayKind : Type 0 where
  weekday weekend wrong_day : DayKind

abbrev pub describe_weekday : ℤ → DayKind
describe_weekday day =
    if equals day 1 || equals day 2 || equals day 3 || equals day 4 || equals day 5
    then weekday
    else if equals day 6 || equals day 7
    then weekend
    else wrong_day
