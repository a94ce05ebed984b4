-- ===== src/Select/Fairness.antt =====
-- Starvation and counting in adv018_select_impl/main.go.
use go_daily_learning.Prelude.{
  ℕ, zero, suc, ◌+◌, ◌<◌, ◌≡◌, ap, ◌∙◌, some, List, [], ◌∷◌, arith, ◌>>=◌, ◌==◌, if◌then◌else◌,
}
use go_daily_learning.Select.{
  Polled, demo_channels, full_channels, fixed_order_demo, trials_from, poll_from, took, start,
  select_once, selects_from, select_fairness_demo,
}

-- The state with every channel full and the given counts.
abbrev ready : ℕ → ℕ → ℕ → ℕ → Polled
ready a b c d = record { chans = full_channels demo_channels 0; counts = a ∷ b ∷ c ∷ d ∷ [] }

trials_from-ready : (n a b c d : ℕ) → trials_from n (ready a b c d) ≡ some (ready (n + a) b c d)
unfolding trials_from poll_from took
trials_from-ready zero a b c d = ap (λ k. some (ready k b c d)) (omega arith)
trials_from-ready (suc n) a b c d =
    trials_from-ready n (a + 1) b c d ∙ ap (λ k. some (ready k b c d)) (omega arith)

-- Polling in a fixed order starves: after any number of trials the first channel was chosen every
-- time and the others never; no trial panics or blocks.
pub fixed_order-starves : (trials : ℕ) → fixed_order_demo trials ≡ some (trials ∷ 0 ∷ 0 ∷ 0 ∷ [])
unfolding fixed_order_demo start
fixed_order-starves trials =
    ap (λ o. o >>= λ p. some p.counts) (trials_from-ready trials 0 0 0 0)
    ∙ ap (λ k. some (k ∷ 0 ∷ 0 ∷ 0 ∷ [])) (omega arith)

-- How often a number stands in a list.
abbrev pub occurrences : ℕ → List ℕ → ℕ
occurrences k [] = 0
occurrences k (x ∷ xs) = (if x == k then 1 else 0) + occurrences k xs

-- Every entry is below the bound.
abbrev pub AllBelow : ℕ → List ℕ → Type 0
AllBelow b [] = Unit
AllBelow b (x ∷ xs) = (x < b) × AllBelow b xs

select_once-ready :
    (k a b c d : ℕ)
    → k < 4
    → select_once (ready a b c d) k
      ≡ some (
          ready
            (occurrences 0 (k ∷ []) + a)
            (occurrences 1 (k ∷ []) + b)
            (occurrences 2 (k ∷ []) + c)
            (occurrences 3 (k ∷ []) + d))
unfolding select_once took
select_once-ready zero a b c d p = ground arith
select_once-ready (suc zero) a b c d p = ground arith
select_once-ready (suc (suc zero)) a b c d p = ground arith
select_once-ready (suc (suc (suc zero))) a b c d p = ground arith
select_once-ready (suc (suc (suc (suc k)))) a b c d p = absurd (omega arith)

selects_from-ready :
    (ks : List ℕ) (a b c d : ℕ)
    → AllBelow 4 ks
    → selects_from ks (ready a b c d)
      ≡ some (
          ready
            (occurrences 0 ks + a)
            (occurrences 1 ks + b)
            (occurrences 2 ks + c)
            (occurrences 3 ks + d))
unfolding selects_from
selects_from-ready [] a b c d p = ground arith
selects_from-ready (k ∷ ks) a b c d (p, q) =
    let one = select_once-ready k a b c d p in
    let rest =
      selects_from-ready ks (occurrences 0 (k ∷ []) + a) (occurrences 1 (k ∷ []) + b)
        (occurrences 2 (k ∷ []) + c) (occurrences 3 (k ∷ []) + d) q in
    ap (λ o. o >>= selects_from ks) one ∙ rest ∙ ground arith

-- With every channel always ready, whatever cases the runtime picks, each `select` goes through,
-- and the counts are how often each case was picked.
pub select_fairness-counts :
    (picks : List ℕ)
    → AllBelow demo_channels picks
    → select_fairness_demo picks
      ≡ some (
          occurrences 0 picks
          ∷ occurrences 1 picks
          ∷ occurrences 2 picks
          ∷ occurrences 3 picks
          ∷ [])
unfolding select_fairness_demo start
select_fairness-counts picks p =
    ap (λ o. o >>= λ p. some p.counts) (selects_from-ready picks 0 0 0 0 p) ∙ ground arith
