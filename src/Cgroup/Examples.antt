-- ===== src/Cgroup/Examples.antt =====
-- The parsers of adv007_gomaxprocs_container/main.go on small files, with fractions for `float64`.
use go_daily_learning.Prelude.{
  ℕ, ◌+◌, ◌-◌, ◌*◌, ◌/◌, ◌≡◌, inl, inr, refl, none, some, [], arith, ◌==◌, if◌then◌else◌,
}
use go_daily_learning.Text.{codes, all_digits, value}
use go_daily_learning.Schedtrace.Printed.{Number, text, number}
use go_daily_learning.Cgroup.{
  Floats, bad_format, detect_container_cpu_limit, recommended_gomaxprocs,
}
use go_daily_learning.Cgroup.Limits.{
  of_two, file, two_words, max_word, AreExact, detect_container_cpu_limit-versions,
}
use go_daily_learning.Cgroup.Recommend.{recommended_gomaxprocs-limit}

-- A numerator and a denominator; a text of digits is its number.
abbrev fractions : Floats
fractions = record {
  F = ℕ × ℕ;
  parse_float = λ s. if all_digits s then some (value 0 s, 1) else none;
  div = λ x y. (x.0 * y.1, x.1 * y.0);
  not_positive = λ x. x.0 == 0;
  ceil = λ x. (x.0 + x.1 - 1) / x.1;
  nought = (0, 1);
}

fractions-AreExact : AreExact fractions
fractions-AreExact = record {
  exact = λ n. (n, 1);
  parse_exact = λ n h l. ground arith;
  sign = λ a. refl;
  div_sign = λ a b h. ground arith;
  div_ceil = λ a b h k l m. ground arith;
  nought_sign = refl;
}

abbrev quota : Number
quota = record { first = b'1'; others = codes "50000" }

abbrev period : Number
period = record { first = b'1'; others = codes "00000" }

three_words :
    detect_container_cpu_limit fractions (some (codes "1 2 3")) none none
    ≡ inl (bad_format (codes "1 2 3"))
unfolding detect_container_cpu_limit
three_words = refl

detect_container_cpu_limit-versions_example :
    (detect_container_cpu_limit fractions (some (file (two_words quota period))) none none
      ≡ of_two fractions (some (150000, 1)) (some (100000, 1)))
    × (detect_container_cpu_limit fractions none
          (some (file (text quota)))
          (some (file (text period)))
        ≡ of_two fractions (some (150000, 1)) (some (100000, 1)))
detect_container_cpu_limit-versions_example =
    detect_container_cpu_limit-versions fractions quota period none none refl refl refl refl

recommended_gomaxprocs-limit_example :
    (limit : ℕ × ℕ) × (unlimited : ℕ × ℕ) × (detect_container_cpu_limit fractions
        (some (file (two_words quota period)))
        none
        none
      ≡ inr limit)
    × (detect_container_cpu_limit fractions none
          (some (file (text quota)))
          (some (file (text period)))
        ≡ inr limit)
    × (recommended_gomaxprocs fractions 8 limit
        ≡ (if number quota == 0 then 8 else (number quota + number period - 1) / number period))
    × (detect_container_cpu_limit fractions (some (file (two_words max_word period))) none none
        ≡ inr unlimited)
    × (recommended_gomaxprocs fractions 8 unlimited ≡ 8)
recommended_gomaxprocs-limit_example =
    recommended_gomaxprocs-limit fractions fractions-AreExact 8 quota period refl refl (omega arith)
      (omega arith) (omega arith)

abbrev seven : Number
seven = record { first = b'7'; others = [] }
