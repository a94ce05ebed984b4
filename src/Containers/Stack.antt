-- ===== src/Containers/Stack.antt =====
-- day027_generics_types/main.go, lines 28 to 66: the generic stack over a slice, and `Max`.
pub mod Laws
use go_daily_learning.Prelude.{
  ℕ, suc, ◌+◌, ◌-◌, Bool, true, false, Option, none, some, List, [], ◌∷◌, ◌++◌, length, get_elem?,
  take, ◌==◌, if◌then◌else◌,
}

pub record Stack {ℓ} (A : Type ℓ) : Type ℓ where
  pub items : List A

module _ {ℓ} {A : Type ℓ} where
  pub new_stack : Stack A
  new_stack = record { items = [] }

  pub push : Stack A → A → Stack A
  push s item = record { items = s.items ++ item ∷ [] }

  pub is_empty : Stack A → Bool
  is_empty s = length s.items == 0

  -- `none` is `(zero, false)`. The index is in range: the stack is not empty there.
  pub pop : Stack A → Option (A × Stack A)
  unfolding is_empty
  pop s =
      let index = length s.items - 1 in
      if is_empty s then none else elim (get_elem? s.items index) [
        | none ↦ none
        | some item ↦ some (item, record { items = take index s.items })
      ]

  -- `Max`, over the ordered type's own test `a > b`.
  pub max_of : (A → A → Bool) → A → A → A
  max_of gt a b = if gt a b then a else b
