-- ===== src/Containers/Stack/Laws.antt =====
-- Last in, first out, for day027_generics_types/main.go.
use go_daily_learning.Prelude.{
  ◌≡◌, refl, ap, none, some, List, [], ◌∷◌, ◌++◌, arith, length, length-append, get_elem?, take,
  ◌⊎◌, inl, inr,
}
use go_daily_learning.Containers.Stack.{Stack, push, pop}

module _ {ℓ} {A : Type ℓ} where
  get_elem?-snoc : (xs : List A) (a : A) → get_elem? (xs ++ a ∷ []) (length xs) ≡ some a
  get_elem?-snoc [] a = refl
  get_elem?-snoc (x ∷ xs) a = get_elem?-snoc xs a

  take-snoc : (xs : List A) (a : A) → take (length xs) (xs ++ a ∷ []) ≡ xs
  take-snoc [] a = refl
  take-snoc (x ∷ xs) a = ap (◌∷◌ x) (take-snoc xs a)

  pop-push : (s : Stack A) (a : A) → pop (push s a) ≡ some (a, s)
  unfolding pop push
  pop-push s a =
      ground (arith, length-append s.items (a ∷ []), get_elem?-snoc s.items a, take-snoc s.items a)

  snoc-cases : (xs : List A) → (xs ≡ []) ⊎ ((ys : List A) × (a : A) × (xs ≡ ys ++ a ∷ []))
  snoc-cases [] = inl refl
  snoc-cases (x ∷ xs) = elim (snoc-cases xs) [
    | inl e ↦ inr ([], x, ap (◌∷◌ x) e)
    | inr (ys, a, e) ↦ inr (x ∷ ys, a, ap (◌∷◌ x) e)
  ]

  pop-empty : (s : Stack A) → s.items ≡ [] → pop s ≡ none
  unfolding pop
  pop-empty s e = ground arith

  -- A pop fails exactly on the empty stack; otherwise it hands out an item such that pushing it
  -- again gives the stack back, and after a push it hands out what was pushed.
  pub pop-cases :
      (s : Stack A)
      → ((s.items ≡ []) × (pop s ≡ none)
          ⊎ (a : A) × (rest : Stack A) × (s ≡ push rest a) × (pop s ≡ some (a, rest)))
        × ((a : A) → pop (push s a) ≡ some (a, s))
  pop-cases s = (cases, pop-push s)
    where
      cases :
          (s.items ≡ []) × (pop s ≡ none)
          ⊎ (a : A) × (rest : Stack A) × (s ≡ push rest a) × (pop s ≡ some (a, rest))
      cases = elim (snoc-cases s.items) [
        | inl e ↦ inl (e, pop-empty s e)
        | inr (ys, a, e) ↦
            let rest : Stack A = record { items = ys } in
            let same : s ≡ push rest a = unfold push in (λ i. record { items = e i }) in
            inr (a, rest, same, rw same (pop-push rest a))
      ]
