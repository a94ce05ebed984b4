-- ===== src/Grades/Switches.antt =====
-- What `break` and `fallthrough` do to the grades of basic008_switch/main.go, and the ranges of its
-- number classes.
use go_daily_learning.Prelude.{ℕ, ◌≤◌, ◌≡◌, refl, ◌↔◌, arith, if◌then◌else◌}
use go_daily_learning.Prelude.Int.{ℤ, pos, negsuc}
use go_daily_learning.Grades.{
  Grade, grade_a, grade_b, grade_c, grade_d, grade_f, at_least, score_to_grade,
  score_to_grade_with_break, score_to_grade_with_fallthrough, negative, is_zero, up_to_10,
  up_to_100, over_100, classify_number,
}

-- The grades without the cases that the version with `break` leaves out.
abbrev pub without_c_d : Grade → Grade
without_c_d grade_a = grade_a
without_c_d grade_b = grade_b
without_c_d grade_c = grade_f
without_c_d grade_d = grade_f
without_c_d grade_f = grade_f

-- For every score, `break` changes nothing: the version with `break` gives the grade of the plain
-- switch, with F for the C and the D it has no case for; and `fallthrough` gives C from 70 points
-- up and the grade of the plain switch below.
pub break_and_fallthrough :
    (score : ℤ)
    → (score_to_grade_with_break score ≡ without_c_d (score_to_grade score))
      × (score_to_grade_with_fallthrough score
          ≡ (if at_least score 70 then grade_c else score_to_grade score))
break_and_fallthrough (pos n) = ground arith
break_and_fallthrough (negsuc n) = (refl, refl)

-- The number classes of `classifyNumber` are the ranges that their names say, for every integer.
pub classify_number-ranges :
    (n : ℕ)
    → (classify_number (negsuc n) ≡ negative)
      × ((classify_number (pos n) ≡ is_zero) ↔ (n ≡ 0))
      × ((classify_number (pos n) ≡ up_to_10) ↔ ((1 ≤ n) × (n ≤ 10)))
      × ((classify_number (pos n) ≡ up_to_100) ↔ ((11 ≤ n) × (n ≤ 100)))
      × ((classify_number (pos n) ≡ over_100) ↔ (101 ≤ n))
classify_number-ranges n = ground arith
