-- ===== src/Sorting.antt =====
-- `sort.Slice` by a number of each element. It may leave elements with equal numbers in any order;
-- the model keeps theirs.
use go_daily_learning.Prelude.{
  ℕ, ◌≤◌, ◌≡◌, refl, Bool, true, false, ◌&&◌, List, [], ◌∷◌, arith, leb, if◌then◌else◌, Bool-cases,
  inl, inr,
}
use mathlib.Core.List.{Permᴰ}
use mathlib.Core.List.Permᴰ

module _ {A : Type 0} (key : A → ℕ) where
  abbrev insert_by : A → List A → List A
  insert_by g [] = g ∷ []
  insert_by g (h ∷ hs) =
      let rest = insert_by g hs in if leb (key g) (key h) then g ∷ h ∷ hs else h ∷ rest

  abbrev pub sort_by : List A → List A
  sort_by [] = []
  sort_by (g ∷ gs) = insert_by g (sort_by gs)

  -- Ascending order.
  abbrev pub all_from : ℕ → List A → Bool
  all_from n [] = true
  all_from n (g ∷ gs) = leb n (key g) && all_from n gs

  abbrev pub is_sorted : List A → Bool
  is_sorted [] = true
  is_sorted (g ∷ gs) = all_from (key g) gs && is_sorted gs

  all_from-le : (m n : ℕ) (gs : List A) → m ≤ n → all_from n gs ≡ true → all_from m gs ≡ true
  all_from-le m n [] l h = refl
  all_from-le m n (g ∷ gs) l h = let r = all_from-le m n gs l (ground arith) in ground arith

  all_from-insert :
      (m : ℕ) (g : A) (gs : List A)
      → m ≤ key g
      → all_from m gs ≡ true
      → all_from m (insert_by g gs) ≡ true
  all_from-insert m g [] l h = ground arith
  all_from-insert m g (k ∷ gs) l h = let r = all_from-insert m g gs l (ground arith) in ground arith

  is_sorted-insert : (g : A) (gs : List A) → is_sorted gs ≡ true → is_sorted (insert_by g gs) ≡ true
  is_sorted-insert g [] h = refl
  is_sorted-insert g (k ∷ gs) h = elim (Bool-cases (leb (key g) (key k))) [
    | inl b ↦ let r = all_from-le (key g) (key k) gs (ground arith) (ground arith) in ground arith
    | inr b ↦
        let r = is_sorted-insert g gs (ground arith) in
        let q = all_from-insert (key k) g gs (ground arith) (ground arith) in ground arith
  ]

  pub is_sorted-sort_by : (gs : List A) → is_sorted (sort_by gs) ≡ true
  is_sorted-sort_by [] = refl
  is_sorted-sort_by (g ∷ gs) = is_sorted-insert g (sort_by gs) (is_sorted-sort_by gs)

  insert_by-Permᴰ : (g : A) (gs : List A) → Permᴰ (insert_by g gs) (g ∷ gs)
  insert_by-Permᴰ g [] = Permᴰ.refl (g ∷ [])
  insert_by-Permᴰ g (k ∷ gs) = by_order (leb (key g) (key k)) (insert_by-Permᴰ g gs)
    where
      by_order :
          (b : Bool)
          → Permᴰ (insert_by g gs) (g ∷ gs)
          → Permᴰ (if b then g ∷ k ∷ gs else k ∷ insert_by g gs) (g ∷ k ∷ gs)
      by_order true p = Permᴰ.refl (g ∷ k ∷ gs)
      by_order false p = Permᴰ.trans (Permᴰ.cons refl p) (Permᴰ.swap refl refl)

  pub sort_by-Permᴰ : (gs : List A) → Permᴰ (sort_by gs) gs
  sort_by-Permᴰ [] = Permᴰ.nil
  sort_by-Permᴰ (g ∷ gs) =
      Permᴰ.trans (insert_by-Permᴰ g (sort_by gs)) (Permᴰ.cons refl (sort_by-Permᴰ gs))
