-- ===== src/Sequences/Feed.antt =====
-- The sequences of day053_range_over_func/main.go against lists.
use go_daily_learning.Prelude.{
  ℕ, zero, suc, ◌+◌, ◌%◌, ◌≡◌, refl, ap, Bool, List, [], ◌∷◌, arith, ◌==◌, if◌then◌else◌,
}
use go_daily_learning.Sequences.{count_from, count_seq, even_from, even_seq, pair_from, pair_seq}

-- A loop body gets the values of a list one after the other, until it answers `false`.
abbrev pub feed {ℓ} : {S : Type 0} {A : Type ℓ} → List A → (S → A → S × Bool) → S → S
feed [] yield_to s = s
feed (x ∷ xs) yield_to s =
    let (s', more) = yield_to s x in let rest = feed xs yield_to s' in if more then rest else s'

-- `n` numbers from `i` on.
abbrev pub range : ℕ → ℕ → List ℕ
range zero i = []
range (suc n) i = i ∷ range n (i + 1)

abbrev pub keep_even : List ℕ → List ℕ
keep_even [] = []
keep_even (x ∷ xs) = if x % 2 == 0 then x ∷ keep_even xs else keep_even xs

abbrev pub indexed {ℓ} : {A : Type ℓ} → ℕ → List A → List (ℕ × A)
indexed i [] = []
indexed i (x ∷ xs) = (i, x) ∷ indexed (i + 1) xs

module _ {S : Type 0} where
  count_from-feed :
      (n i : ℕ) (y : S → ℕ → S × Bool) (s : S) → count_from n i y s ≡ feed (range n i) y s
  unfolding count_from
  count_from-feed zero i y s = refl
  count_from-feed (suc n) i y s =
      let r = count_from-feed n (i + 1) y (y s i).0 in
      ap (λ t. if (y s i).1 then t else (y s i).0) r

  even_from-feed :
      (n i : ℕ) (y : S → ℕ → S × Bool) (s : S)
      → even_from n i y s ≡ feed (keep_even (range n i)) y s
  unfolding even_from
  even_from-feed zero i y s = refl
  even_from-feed (suc n) i y s =
      let r = even_from-feed n (i + 1) y (y s i).0 in
      let q = even_from-feed n (i + 1) y s in ground arith

  pair_from-feed {ℓ} :
      {A : Type ℓ} (i : ℕ) (xs : List A) (y : S → ℕ → A → S × Bool) (s : S)
      → pair_from i xs y s ≡ feed (indexed i xs) (λ t p. y t p.0 p.1) s
  unfolding pair_from
  pair_from-feed i [] y s = refl
  pair_from-feed i (x ∷ xs) y s =
      let r = pair_from-feed (i + 1) xs y (y s i x).0 in
      ap (λ t. if (y s i x).1 then t else (y s i x).0) r

  -- For every loop body: `countSeq` feeds it the numbers below `n`, `evenSeq` the even ones among
  -- them, and `pairSeq` the items with their indexes, each in order and only until the body answers
  -- `false`.
  pub sequences-feed {ℓ} :
      {A : Type ℓ} (n : ℕ) (items : List A) (y : S → ℕ → S × Bool) (z : S → ℕ → A → S × Bool)
      (s : S)
      → (count_seq n y s ≡ feed (range n 0) y s)
        × (even_seq n y s ≡ feed (keep_even (range n 0)) y s)
        × (pair_seq items z s ≡ feed (indexed 0 items) (λ t p. z t p.0 p.1) s)
  unfolding count_seq even_seq pair_seq
  sequences-feed n items y z s =
      (count_from-feed n 0 y s, even_from-feed n 0 y s, pair_from-feed 0 items z s)
