-- ===== src/Prelude/Lists.antt =====
-- Lists measured and indexed by native numbers, and membership in them.
use Prim.Native.Nat.{ℕ, zero, suc, ◌+◌, ◌-◌, ◌≤◌}
use mathlib.Core.Path.{◌≡◌, refl, ap}
use mathlib.Core.Logic.{◌⊎◌, inl, inr, ⊎_elim}
use mathlib.Core.List.{List, [], ◌∷◌, ◌++◌, map, Memᴰ}
use mathlib.Core.List.Memᴰ
use mathlib.Core.Option.{Option, none, some}
use native.Mathlib.Omega.{arith}

module _ {ℓ} {A : Type ℓ} where
  abbrev pub length : List A → ℕ
  length [] = 0
  length (x ∷ xs) = suc (length xs)

  abbrev pub get_elem? : List A → ℕ → Option A
  get_elem? [] i = none
  get_elem? (x ∷ xs) zero = some x
  get_elem? (x ∷ xs) (suc i) = get_elem? xs i

  -- A write out of bounds changes nothing; the callers test the bound first.
  abbrev pub set : List A → ℕ → A → List A
  set [] i v = []
  set (x ∷ xs) zero v = v ∷ xs
  set (x ∷ xs) (suc i) v = x ∷ set xs i v

  abbrev pub take : ℕ → List A → List A
  take zero xs = []
  take (suc n) [] = []
  take (suc n) (x ∷ xs) = x ∷ take n xs

  abbrev pub drop : ℕ → List A → List A
  drop zero xs = xs
  drop (suc n) [] = []
  drop (suc n) (x ∷ xs) = drop n xs

  pub length-append : (xs ys : List A) → length (xs ++ ys) ≡ length xs + length ys
  length-append [] ys = omega arith
  length-append (x ∷ xs) ys = omega (arith, length-append xs ys)

  pub length-set : (xs : List A) (i : ℕ) (v : A) → length (set xs i v) ≡ length xs
  length-set [] i v = refl
  length-set (x ∷ xs) zero v = refl
  length-set (x ∷ xs) (suc i) v = ap suc (length-set xs i v)

  pub take-append-drop : (n : ℕ) (xs : List A) → take n xs ++ drop n xs ≡ xs
  take-append-drop zero xs = refl
  take-append-drop (suc n) [] = refl
  take-append-drop (suc n) (x ∷ xs) = ap (◌∷◌ x) (take-append-drop n xs)

  pub length-take : (n : ℕ) (xs : List A) → n ≤ length xs → length (take n xs) ≡ n
  length-take zero xs h = refl
  length-take (suc n) [] h = absurd (omega arith)
  length-take (suc n) (x ∷ xs) h = ap suc (length-take n xs (omega arith))

  pub length-drop : (n : ℕ) (xs : List A) → length (drop n xs) ≡ length xs - n
  length-drop zero xs = omega arith
  length-drop (suc n) [] = omega arith
  length-drop (suc n) (x ∷ xs) = omega (arith, length-drop n xs)

  pub List-cases : (xs : List A) → (xs ≡ []) ⊎ ((x : A) × (rest : List A) × (xs ≡ x ∷ rest))
  List-cases [] = inl refl
  List-cases (x ∷ xs) = inr (x, xs, refl)

  pub Memᴰ-concat : (a x : A) (xs : List A) → Memᴰ a (xs ++ x ∷ []) → Memᴰ a xs ⊎ (a ≡ x)
  Memᴰ-concat a x xs m =
      ⊎_elim inl (λ last. inr (Memᴰ.eq_of_singleton last)) (Memᴰ.append_cases xs m)

  -- What a write at one index brings in, and what it leaves.
  pub Memᴰ-set : (a v : A) (xs : List A) (i : ℕ) → Memᴰ a (set xs i v) → (a ≡ v) ⊎ Memᴰ a xs
  Memᴰ-set a v [] i m = inr m
  Memᴰ-set a v (x ∷ xs) zero m = ⊎_elim inl (λ r. inr (Memᴰ.tail r)) (Memᴰ.cases_cons m)
  Memᴰ-set a v (x ∷ xs) (suc i) m =
      ⊎_elim (λ e. inr (Memᴰ.head e))
        (λ r. ⊎_elim inl (λ s. inr (Memᴰ.tail s)) (Memᴰ-set a v xs i r)) (Memᴰ.cases_cons m)

  pub Memᴰ-set_kept :
      (a v old : A) (xs : List A) (i : ℕ)
      → get_elem? xs i ≡ some old
      → Memᴰ a xs
      → (a ≡ old) ⊎ Memᴰ a (set xs i v)
  Memᴰ-set_kept a v old [] i e m = inr m
  Memᴰ-set_kept a v old (x ∷ xs) zero e m =
      ⊎_elim (λ p. inl (cc)) (λ r. inr (Memᴰ.tail r)) (Memᴰ.cases_cons m)
  Memᴰ-set_kept a v old (x ∷ xs) (suc i) e m =
      ⊎_elim (λ p. inr (Memᴰ.head p))
        (λ r. ⊎_elim inl (λ s. inr (Memᴰ.tail s)) (Memᴰ-set_kept a v old xs i e r))
        (Memᴰ.cases_cons m)

pub length-map {ℓ κ} :
    {A : Type ℓ} {B : Type κ} (f : A → B) (xs : List A) → length (map f xs) ≡ length xs
length-map f [] = refl
length-map f (x ∷ xs) = ap suc (length-map f xs)
