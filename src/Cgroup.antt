-- ===== src/Cgroup.antt =====
-- adv007_gomaxprocs_container/main.go, lines 21 to 107: the CPU limit of a container, read from the
-- files of cgroup v2 or v1, the GOMAXPROCS that it recommends, and the thread count of a process.
-- The files are texts, `none` where they cannot be read; `float64`, with its parser, is a
-- parameter.
pub mod Limits
pub mod Recommend
pub mod Threads
mod Examples
use go_daily_learning.Prelude.{
  ℕ, Bool, true, false, Option, none, some, List, [], ◌∷◌, ◌&&◌, ◌==◌, if◌then◌else◌, ◌⊎◌, inl, inr,
}
use go_daily_learning.Text.{Text, codes, trim_space, split_lines, has_prefix}
use go_daily_learning.Schedtrace.Line.{fields, atoi, IntResult}

-- `strconv.ParseFloat(s, 64)`, with `none` for its errors; `x / y`; `x <= 0`; `int(math.Ceil(x))`
-- of a positive number; and the 0 of the type.
pub record Floats : Type 1 where
  pub F : Type 0
  pub parse_float : Text → Option F
  pub div : F → F → F
  pub not_positive : F → Bool
  pub ceil : F → ℕ
  pub nought : F

-- The errors of the two versions differ only in their texts.
pub data CpuError (F : Type 0) : Type 0 where
  bad_format : Text → CpuError F
  bad_quota : CpuError F
  bad_period : CpuError F
  period_not_positive : F → CpuError F
  no_limit_found : CpuError F

abbrev pub same_text : Text → Text → Bool
same_text [] [] = true
same_text [] (d ∷ t) = false
same_text (c ∷ s) [] = false
same_text (c ∷ s) (d ∷ t) = c == d && same_text s t

module _ (fl : Floats) where
  open fl use {F, parse_float, div, not_positive, ceil, nought}

  -- `quota / period`, after the check of the period.
  ratio : F → F → CpuError F ⊎ F
  ratio quota period =
      if not_positive period then inl (period_not_positive period) else inr (div quota period)

  with_period : F → Option F → CpuError F ⊎ F
  unfolding ratio
  with_period quota none = inl bad_period
  with_period quota (some period) = ratio quota period

  with_quota : Option F → Text → CpuError F ⊎ F
  unfolding with_period
  with_quota none period = inl bad_quota
  with_quota (some quota) period = with_period quota (parse_float period)

  limited : CpuError F ⊎ F → CpuError F ⊎ (F × Bool)
  limited (inl e) = inl e
  limited (inr x) = inr (x, false)

  of_fields : Text → List Text → CpuError F ⊎ (F × Bool)
  unfolding limited with_quota
  of_fields content (quota ∷ period ∷ []) =
      if same_text quota (codes "max")
      then inr (nought, true)
      else limited (with_quota (parse_float quota) period)
  of_fields content [] = inl (bad_format content)
  of_fields content (one ∷ []) = inl (bad_format content)
  of_fields content (one ∷ two ∷ three ∷ more) = inl (bad_format content)

  -- The limit, and whether there is none.
  unfoldable pub parse_cpu_max_v2 : Text → CpuError F ⊎ (F × Bool)
  unfolding of_fields
  parse_cpu_max_v2 content = of_fields content (fields content)

  unfoldable pub parse_cpu_quota_v1 : Text → Text → CpuError F ⊎ F
  unfolding with_quota
  parse_cpu_quota_v1 quota period =
      if same_text quota (codes "-1") then inr nought else with_quota (parse_float quota) period

  -- `limit, _, err := …; return limit, err`.
  first_only : CpuError F ⊎ (F × Bool) → CpuError F ⊎ F
  first_only (inl e) = inl e
  first_only (inr (x, u)) = inr x

  of_v1 : Option Text → Option Text → CpuError F ⊎ F
  unfolding parse_cpu_quota_v1
  of_v1 (some quota) (some period) = parse_cpu_quota_v1 (trim_space quota) (trim_space period)
  of_v1 none period = inl no_limit_found
  of_v1 (some quota) none = inl no_limit_found

  -- The three files: cpu.max, cfs_quota_us and cfs_period_us.
  unfoldable pub detect_container_cpu_limit :
      Option Text → Option Text → Option Text → CpuError F ⊎ F
  unfolding first_only of_v1 parse_cpu_max_v2
  detect_container_cpu_limit (some cpu_max) quota period =
      first_only (parse_cpu_max_v2 (trim_space cpu_max))
  detect_container_cpu_limit none quota period = of_v1 quota period

  -- `num_cpu` is `runtime.NumCPU()`.
  unfoldable pub recommended_gomaxprocs : ℕ → F → ℕ
  recommended_gomaxprocs num_cpu limit = if not_positive limit then num_cpu else ceil limit

-- `countThreads`: `none` is an error of its own, for a file that cannot be read or without the
-- line.
abbrev found_threads : List Text → Option IntResult → Option IntResult
found_threads [] rest = rest
found_threads (name ∷ []) rest = rest
found_threads (name ∷ count ∷ more) rest = some (atoi count)

count_lines : List Text → Option IntResult
count_lines [] = none
count_lines (line ∷ lines) =
    let rest = count_lines lines in
    if has_prefix line (codes "Threads:") then found_threads (fields line) rest else rest

unfoldable pub count_threads : Option Text → Option IntResult
unfolding count_lines
count_threads none = none
count_threads (some status) = count_lines (split_lines status)
