-- ===== src/Pauses/Summary.antt =====
-- What the summary of adv029_stw_phases/main.go says of the pauses.
use go_daily_learning.Prelude.{
  ℕ, ◌-◌, ◌≤◌, ◌≡◌, refl, ◌∙◌, subst, true, some, List, [], ◌∷◌, Memᴰ, arith, leb, length,
  if◌then◌else◌,
}
use mathlib.Core.List.{Permᴰ}
use mathlib.Core.List.Permᴰ
use go_daily_learning.Sorting.{is_sorted, sort_by, is_sorted-sort_by, sort_by-Permᴰ}
use go_daily_learning.Pauses.{PauseSummary, sum_from, summarize_sorted, summarize_pauses}
use go_daily_learning.Pauses.Order.{
  same, get_elem?-Memᴰ, Memᴰ-get_elem?, get_elem?-mono, Permᴰ-Memᴰ, Permᴰ-length,
}

abbrev place : (ℕ → ℕ) → ℕ → ℕ
place rank n = if leb n (rank n) then n - 1 else rank n

-- What a summary says of a list of pauses.
pub record Summarizes (s : PauseSummary) (ps : List ℕ) : Type 0 where
  pub counted : s.count ≡ length ps
  pub max_in : Memᴰ s.max ps
  pub max_above : (d : ℕ) → Memᴰ d ps → d ≤ s.max
  pub p50_in : Memᴰ s.p50 ps
  pub p99_in : Memᴰ s.p99 ps

sorted_summary :
    (rank50 rank99 : ℕ → ℕ) (d : ℕ) (ds : List ℕ)
    → is_sorted same (d ∷ ds) ≡ true
    → (s : PauseSummary) × (summarize_sorted rank50 rank99 (d ∷ ds) ≡ some s)
      × Summarizes s (d ∷ ds)
      × (rank50 (length (d ∷ ds)) ≤ rank99 (length (d ∷ ds)) → s.p50 ≤ s.p99)
sorted_summary rank50 rank99 d ds h =
    let cp = d ∷ ds in
    let n = length cp in
    let (m, em, mm) = get_elem?-Memᴰ cp (n - 1) (omega arith) in
    let (a, ea, ma) = get_elem?-Memᴰ cp (place rank50 n) (ground arith) in
    let (b, eb, mb) = get_elem?-Memᴰ cp (place rank99 n) (ground arith) in
    let s : PauseSummary = record { count = n; total = sum_from 0 cp; max = m; p50 = a; p99 = b } in
    (
      s,
      cc (em, ea, eb),
      record {
        counted = refl;
        max_in = mm;
        p50_in = ma;
        p99_in = mb;
        max_above = λ x k.
            let (i, l, e) = Memᴰ-get_elem? x cp k in
            get_elem?-mono cp i (n - 1) x m h (omega arith) e em;
      },
      λ r. get_elem?-mono cp (place rank50 n) (place rank99 n) a b h (ground arith) ea eb,
    )

summary-Permᴰ :
    (s : PauseSummary) (xs ys : List ℕ) → Permᴰ xs ys → Summarizes s xs → Summarizes s ys
summary-Permᴰ s xs ys p h = record {
  counted = h.counted ∙ Permᴰ-length p;
  max_in = Permᴰ-Memᴰ s.max p h.max_in;
  max_above = λ d m. h.max_above d (Permᴰ-Memᴰ d (Permᴰ.symm p) m);
  p50_in = Permᴰ-Memᴰ s.p50 p h.p50_in;
  p99_in = Permᴰ-Memᴰ s.p99 p h.p99_in;
}

-- On pauses that are not none, whatever the floating-point ranks are, `summarizePauses` does not
-- panic, counts the pauses, gives the largest one as the maximum, and both quantiles are pauses
-- that occurred; the 50% quantile is at most the 99% one when its rank is.
pub summarize_pauses-Summarizes :
    (rank50 rank99 : ℕ → ℕ) (d : ℕ) (ds : List ℕ)
    → (s : PauseSummary) × (summarize_pauses rank50 rank99 (d ∷ ds) ≡ some s)
      × Summarizes s (d ∷ ds)
      × (rank50 (length (d ∷ ds)) ≤ rank99 (length (d ∷ ds)) → s.p50 ≤ s.p99)
unfolding summarize_pauses
summarize_pauses-Summarizes rank50 rank99 d ds =
    by_sorted (sort_by same (d ∷ ds)) (is_sorted-sort_by same (d ∷ ds))
      (sort_by-Permᴰ same (d ∷ ds))
  where
    by_sorted :
        (cp : List ℕ)
        → is_sorted same cp ≡ true
        → Permᴰ cp (d ∷ ds)
        → (s : PauseSummary) × (summarize_sorted rank50 rank99 cp ≡ some s)
          × Summarizes s (d ∷ ds)
          × (rank50 (length (d ∷ ds)) ≤ rank99 (length (d ∷ ds)) → s.p50 ≤ s.p99)
    by_sorted [] h p = let e = Permᴰ-length p in absurd (omega arith)
    by_sorted (c ∷ cs) h p =
        let (s, e, w, m) = sorted_summary rank50 rank99 c cs h in
        (
          s,
          e,
          summary-Permᴰ s (c ∷ cs) (d ∷ ds) p w,
          subst (λ n. rank50 n ≤ rank99 n → s.p50 ≤ s.p99) (Permᴰ-length p) m,
        )
