-- ===== src/Cgroup/Recommend.antt =====
-- The GOMAXPROCS of adv007_gomaxprocs_container/main.go for the limits that the kernel writes.
use go_daily_learning.Prelude.{
  ℕ, zero, suc, ◌+◌, ◌-◌, ◌/◌, ◌^◌, ◌<◌, ◌≡◌, inl, inr, refl, sym, ap, subst, ◌∙◌, Bool, true,
  false, none, some, [], ◌∷◌, arith, ◌==◌, if◌then◌else◌, Option,
}
use go_daily_learning.Text.{Text, codes, no_space, all_digits}
use go_daily_learning.Schedtrace.Printed.{Number, text, number}
use go_daily_learning.Cgroup.{
  Floats, CpuError, same_text, detect_container_cpu_limit, recommended_gomaxprocs,
}
use go_daily_learning.Cgroup.Limits.{
  two_words, file, of_two, detect_container_cpu_limit-versions, AreExact, max_word,
  detect_container_cpu_limit-max,
}

pub no_space-digits : (s : Text) → all_digits s ≡ true → no_space s ≡ true
no_space-digits [] h = refl
no_space-digits (c ∷ s) h = let r = no_space-digits s (ground arith) in ground arith

suc_not : (n : ℕ) → (suc n == 0) ≡ false
suc_not n = ground arith

-- A quota in digits is none of the two words for no limit.
not_max : (q : Number) → all_digits (text q) ≡ true → same_text (text q) (codes "max") ≡ false
not_max q h = ground arith

not_minus : (q : Number) → all_digits (text q) ≡ true → same_text (text q) (codes "-1") ≡ false
not_minus q h = ground arith

module _ (fl : Floats) (e : AreExact fl) where
  open fl use {F, parse_float, div, not_positive, ceil, nought}

  of_two-exact :
      (q p : Number)
      → all_digits (text q) ≡ true
      → all_digits (text p) ≡ true
      → number q < 2 ^ 52
      → number p < 2 ^ 52
      → 0 < number p
      → of_two fl (parse_float (text q)) (parse_float (text p))
        ≡ inr (div (e.exact (number q)) (e.exact (number p)))
  of_two-exact q p hq hp lq lp h =
      ap (λ (o : Option F). of_two fl o (parse_float (text p))) (e.parse_exact q hq lq)
      ∙ ap (of_two fl (some (e.exact (number q)))) (e.parse_exact p hp lp)
      ∙ ap
          (λ (b : Bool).
            if b
            then inl (CpuError.period_not_positive (e.exact (number p)))
            else inr (div (e.exact (number q)) (e.exact (number p))))
          (e.sign (number p) ∙ positive_not (number p) h)
    where
      positive_not : (n : ℕ) → 0 < n → (n == 0) ≡ false
      positive_not n h = ground arith

  -- For a quota and a period in digits that float64 holds exactly, the period above 0, a limit is
  -- found from the file of either version, and the recommended GOMAXPROCS is their quotient rounded
  -- up, or the number of CPUs of the host for a quota of 0. For the quota `max` it is the number of
  -- CPUs too.
  pub recommended_gomaxprocs-limit :
      (num_cpu : ℕ) (q p : Number)
      → all_digits (text q) ≡ true
      → all_digits (text p) ≡ true
      → number q < 2 ^ 52
      → number p < 2 ^ 52
      → 0 < number p
      → (limit : F) × (unlimited : F) × (detect_container_cpu_limit fl
            (some (file (two_words q p)))
            none
            none
          ≡ inr limit)
        × (detect_container_cpu_limit fl none (some (file (text q))) (some (file (text p)))
            ≡ inr limit)
        × (recommended_gomaxprocs fl num_cpu limit
            ≡ (if number q == 0 then num_cpu else (number q + number p - 1) / number p))
        × (detect_container_cpu_limit fl (some (file (two_words max_word p))) none none
            ≡ inr unlimited)
        × (recommended_gomaxprocs fl num_cpu unlimited ≡ num_cpu)
  unfolding recommended_gomaxprocs
  recommended_gomaxprocs-limit num_cpu q p hq hp lq lp h =
      let wq = no_space-digits (text q) hq in
      let wp = no_space-digits (text p) hp in
      let v =
        detect_container_cpu_limit-versions fl q p none none wq wp (not_max q hq)
          (not_minus q hq) in
      let limit = of_two-exact q p hq hp lq lp h in
      (
        div (e.exact (number q)) (e.exact (number p)),
        nought,
        v.0 ∙ limit,
        v.1 ∙ limit,
        ap
              (λ (b : Bool).
                if b then num_cpu else ceil (div (e.exact (number q)) (e.exact (number p))))
              (e.div_sign (number q) (number p) h)
            ∙ rounded (number q) refl,
        detect_container_cpu_limit-max fl p none none wp,
        ap (λ (b : Bool). if b then num_cpu else ceil nought) e.nought_sign,
      )
    where
      rounded :
          (n : ℕ)
          → number q ≡ n
          → (if n == 0 then num_cpu else ceil (div (e.exact n) (e.exact (number p))))
            ≡ (if n == 0 then num_cpu else (n + number p - 1) / number p)
      rounded zero k = refl
      rounded (suc n) k =
          ap
            (λ (b : Bool). if b then num_cpu else ceil (div (e.exact (suc n)) (e.exact (number p))))
            (suc_not n)
          ∙ e.div_ceil (suc n) (number p) (omega arith) h (subst (λ m. m < 2 ^ 52) k lq) lp
          ∙ ap (λ (b : Bool). if b then num_cpu else (suc n + number p - 1) / number p)
              (sym (suc_not n))
