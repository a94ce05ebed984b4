-- ===== src/Cgroup/Limits.antt =====
-- What the limit files and the status file of adv007_gomaxprocs_container/main.go give.
use go_daily_learning.Prelude.{
  ℕ, ◌+◌, ◌-◌, ◌/◌, ◌^◌, ◌<◌, ◌≡◌, ◌⊎◌, inl, inr, refl, sym, ap, ◌∙◌, Bool, true, false, Option,
  none, some, List, [], ◌∷◌, ◌++◌, arith, ◌==◌, if◌then◌else◌,
}
use go_daily_learning.Text.{
  Text, codes, trim_space, trim_right, trim_left, add_right, no_space, is_space, all_digits,
  ends_no_space, newline, trim_space-kept, ends_no_space-cons, ends_no_space-append,
  ends_no_space-last,
}
use go_daily_learning.Schedtrace.Line.{fields}
use go_daily_learning.Schedtrace.Printed.{Number, text, number}
use go_daily_learning.Cgroup.{
  Floats, CpuError, bad_quota, bad_period, period_not_positive, same_text, parse_cpu_max_v2,
  parse_cpu_quota_v1, detect_container_cpu_limit, with_period, with_quota, of_fields, first_only,
  limited,
}

-- A text that is not empty and has no white space.
abbrev pub is_word : Number → Bool
is_word w = no_space (text w)

pub fields-word : (c : ℕ) (s : Text) → no_space (c ∷ s) ≡ true → fields (c ∷ s) ≡ (c ∷ s) ∷ []
fields-word c [] h = ground arith
fields-word c (d ∷ s) h = let r = fields-word d s (ground arith) in ground arith

pub fields-append :
    (b c : ℕ) (s t : Text)
    → is_space b ≡ true
    → no_space (c ∷ s) ≡ true
    → fields ((c ∷ s) ++ b ∷ t) ≡ (c ∷ s) ∷ fields t
fields-append b c [] t w h = ground arith
fields-append b c (d ∷ s) t w h = let r = fields-append b d s t w (ground arith) in ground arith

-- A line as the kernel writes it: two words with a space between.
abbrev pub two_words : Number → Number → Text
two_words q p = text q ++ b' ' ∷ text p

fields-two_words :
    (q p : Number)
    → is_word q ≡ true
    → is_word p ≡ true
    → fields (two_words q p) ≡ text q ∷ text p ∷ []
fields-two_words q p hq hp =
    fields-append (b' ') q.first q.others (text p) refl hq
    ∙ ap (◌∷◌ (text q)) (fields-word p.first p.others hp)

trim_right-newline : (s : Text) → trim_right (s ++ newline ∷ []) ≡ trim_right s
trim_right-newline [] = refl
trim_right-newline (c ∷ s) = ap (add_right c) (trim_right-newline s)

ends_no_space-word : (c : ℕ) (s : Text) → no_space (c ∷ s) ≡ true → ends_no_space (c ∷ s) ≡ true
ends_no_space-word c [] h = ends_no_space-last c (ground arith)
ends_no_space-word c (d ∷ s) h =
    ends_no_space-cons c (d ∷ s) (ends_no_space-word d s (ground arith))

-- The newline at the end of a file is taken off.
abbrev pub file : Text → Text
file s = s ++ newline ∷ []

trim_space-file :
    (c : ℕ) (s : Text)
    → is_space c ≡ false
    → ends_no_space (c ∷ s) ≡ true
    → trim_space (file (c ∷ s)) ≡ c ∷ s
trim_space-file c s h k =
    let left : trim_left (file (c ∷ s)) ≡ file (c ∷ s) = ground arith in
    let kept : trim_left (c ∷ s) ≡ c ∷ s = ground arith in
    ap trim_right left
    ∙ trim_right-newline (c ∷ s)
    ∙ ap trim_right (sym kept)
    ∙ trim_space-kept c s h k

trim_space-word : (w : Number) → is_word w ≡ true → trim_space (file (text w)) ≡ text w
trim_space-word w h =
    trim_space-file w.first w.others (ground arith) (ends_no_space-word w.first w.others h)

trim_space-two_words :
    (q p : Number)
    → is_word q ≡ true
    → is_word p ≡ true
    → trim_space (file (two_words q p)) ≡ two_words q p
trim_space-two_words q p hq hp =
    trim_space-file q.first (q.others ++ b' ' ∷ text p) (ground arith) (
      ends_no_space-append (text q) (b' ' ∷ text p)
        (ends_no_space-cons (b' ') (text p) (ends_no_space-word p.first p.others hp)))

-- The quota of a group without a limit.
abbrev pub max_word : Number
max_word = record { first = b'm'; others = codes "ax" }

module _ (fl : Floats) where
  open fl use {F, parse_float, div, not_positive, ceil, nought}

  -- What both versions make of a quota and a period.
  abbrev positive : F → F → CpuError F ⊎ F
  positive x y = if not_positive y then inl (period_not_positive y) else inr (div x y)

  abbrev pub of_two : Option F → Option F → CpuError F ⊎ F
  of_two none period = inl bad_quota
  of_two (some x) none = inl bad_period
  of_two (some x) (some y) = positive x y

  with_period_lem : (x : F) (o : Option F) → with_period fl x o ≡ of_two (some x) o
  unfolding with_period
  with_period_lem x none = refl
  with_period_lem x (some y) = refl

  with_quota_lem : (o : Option F) (p : Text) → with_quota fl o p ≡ of_two o (parse_float p)
  unfolding with_quota
  with_quota_lem none p = refl
  with_quota_lem (some x) p = with_period_lem x (parse_float p)

  first_only-limited : (r : CpuError F ⊎ F) → first_only fl (limited fl r) ≡ r
  unfolding first_only limited
  first_only-limited (inl e) = refl
  first_only-limited (inr x) = refl

  v2_lem :
      (q p : Number) (v1_quota v1_period : Option Text)
      → is_word q ≡ true
      → is_word p ≡ true
      → same_text (text q) (codes "max") ≡ false
      → detect_container_cpu_limit fl (some (file (two_words q p))) v1_quota v1_period
        ≡ of_two (parse_float (text q)) (parse_float (text p))
  unfolding detect_container_cpu_limit parse_cpu_max_v2
  v2_lem q p vq vp hq hp m =
      let numbers = with_quota fl (parse_float (text q)) (text p) in
      let choice : Bool → CpuError F ⊎ (F × Bool) =
        λ b. if b then inr (nought, true) else limited fl numbers in
      ap (λ (t : Text). first_only fl (parse_cpu_max_v2 fl t)) (trim_space-two_words q p hq hp)
      ∙ ap (λ (ws : List Text). first_only fl (of_fields fl (two_words q p) ws))
          (fields-two_words q p hq hp)
      ∙ ap (λ (b : Bool). first_only fl (choice b)) m
      ∙ first_only-limited numbers
      ∙ with_quota_lem (parse_float (text q)) (text p)

  v1_lem :
      (q p : Number)
      → is_word q ≡ true
      → is_word p ≡ true
      → same_text (text q) (codes "-1") ≡ false
      → detect_container_cpu_limit fl none (some (file (text q))) (some (file (text p)))
        ≡ of_two (parse_float (text q)) (parse_float (text p))
  unfolding detect_container_cpu_limit parse_cpu_quota_v1
  v1_lem q p hq hp m =
      ap (λ (t : Text). parse_cpu_quota_v1 fl t (trim_space (file (text p)))) (trim_space-word q hq)
      ∙ ap (parse_cpu_quota_v1 fl (text q)) (trim_space-word p hp)
      ∙ ap (λ (b : Bool). if b then inr nought else with_quota fl (parse_float (text q)) (text p)) m
      ∙ with_quota_lem (parse_float (text q)) (text p)

  pub detect_container_cpu_limit-max :
      (p : Number) (v1_quota v1_period : Option Text)
      → is_word p ≡ true
      → detect_container_cpu_limit fl (some (file (two_words max_word p))) v1_quota v1_period
        ≡ inr nought
  unfolding detect_container_cpu_limit parse_cpu_max_v2 of_fields first_only
  detect_container_cpu_limit-max p vq vp hp =
      ap (λ (t : Text). first_only fl (parse_cpu_max_v2 fl t))
        (trim_space-two_words max_word p refl hp)
      ∙ ap (λ (ws : List Text). first_only fl (of_fields fl (two_words max_word p) ws))
          (fields-two_words max_word p refl hp)

  -- A limit of two words is read to the same result from the one file of cgroup v2 and from the two
  -- files of cgroup v1: to their quotient, or to an error that names the first of the three faults,
  -- a quota or a period that is no number, or a period that is not positive. A file of v2 is
  -- preferred. The quota is neither the `max` of v2 nor the `-1` of v1.
  pub detect_container_cpu_limit-versions :
      (q p : Number) (v1_quota v1_period : Option Text)
      → is_word q ≡ true
      → is_word p ≡ true
      → same_text (text q) (codes "max") ≡ false
      → same_text (text q) (codes "-1") ≡ false
      → (detect_container_cpu_limit fl (some (file (two_words q p))) v1_quota v1_period
          ≡ of_two (parse_float (text q)) (parse_float (text p)))
        × (detect_container_cpu_limit fl none (some (file (text q))) (some (file (text p)))
            ≡ of_two (parse_float (text q)) (parse_float (text p)))
  detect_container_cpu_limit-versions q p vq vp hq hp m n =
      (v2_lem q p vq vp hq hp m, v1_lem q p hq hp n)

-- What the model relies on of `float64`: a numeral below 2 ^ 52 is read exactly, and the quotient
-- of two such numbers has the sign and the ceiling of the exact quotient.
pub record AreExact (fl : Floats) : Type 0 where
  pub exact : ℕ → fl.F
  pub parse_exact :
      (n : Number)
      → all_digits (text n) ≡ true
      → number n < 2 ^ 52
      → fl.parse_float (text n) ≡ some (exact (number n))
  pub sign : (a : ℕ) → fl.not_positive (exact a) ≡ (a == 0)
  pub div_sign : (a b : ℕ) → 0 < b → fl.not_positive (fl.div (exact a) (exact b)) ≡ (a == 0)
  pub div_ceil :
      (a b : ℕ)
      → 0 < a
      → 0 < b
      → a < 2 ^ 52
      → b < 2 ^ 52
      → fl.ceil (fl.div (exact a) (exact b)) ≡ (a + b - 1) / b
  pub nought_sign : fl.not_positive fl.nought ≡ true
