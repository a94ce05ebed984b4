-- ===== src/Sequences.antt =====
-- day053_range_over_func/main.go, lines 8 to 45: functions that a `for range` loop runs. The loop
-- body is `yield`, which changes a state of type `S` and says whether to go on; `break` answers
-- `false`.
pub mod Feed
use go_daily_learning.Prelude.{
  ℕ, zero, suc, ◌+◌, ◌%◌, Bool, true, false, List, [], ◌∷◌, ◌==◌, if◌then◌else◌,
}

module _ {S : Type 0} where
  -- The loop of `countSeq` from `i`, with the number of rounds that are left.
  count_from : ℕ → ℕ → (S → ℕ → S × Bool) → S → S
  count_from zero i yield_to s = s
  count_from (suc left) i yield_to s =
      let (s', more) = yield_to s i in
      let rest = count_from left (i + 1) yield_to s' in if more then rest else s'

  pub count_seq : ℕ → (S → ℕ → S × Bool) → S → S
  unfolding count_from
  count_seq n yield_to s = count_from n 0 yield_to s

  even_from : ℕ → ℕ → (S → ℕ → S × Bool) → S → S
  even_from zero i yield_to s = s
  even_from (suc left) i yield_to s =
      let (s', more) = yield_to s i in
      let rest = even_from left (i + 1) yield_to s' in
      let skipped = even_from left (i + 1) yield_to s in
      if i % 2 == 0 then if more then rest else s' else skipped

  pub even_seq : ℕ → (S → ℕ → S × Bool) → S → S
  unfolding even_from
  even_seq n yield_to s = even_from n 0 yield_to s

  pair_from {ℓ} : {A : Type ℓ} → ℕ → List A → (S → ℕ → A → S × Bool) → S → S
  pair_from idx [] yield_to s = s
  pair_from idx (val ∷ items) yield_to s =
      let (s', more) = yield_to s idx val in
      let rest = pair_from (idx + 1) items yield_to s' in if more then rest else s'

  pub pair_seq {ℓ} : {A : Type ℓ} → List A → (S → ℕ → A → S × Bool) → S → S
  unfolding pair_from
  pair_seq items yield_to s = pair_from 0 items yield_to s
