-- ===== src/Containers/LinkedList/Laws.antt =====
-- The linked list of day054_linked_list_with_generics/main.go against a sequence.
use mathlib.Core.List.{foldl}
use go_daily_learning.Prelude.{
  ◌-◌, ◌≡◌, refl, ap, ◌⊎◌, inl, inr, none, some, List, [], ◌∷◌, ◌++◌, arith, length, length-append,
}
use go_daily_learning.Containers.LinkedList.{
  Node, nil, node, LinkedList, attach, push_head, push_back, detach, pop_head, pop_back, each,
  for_each,
}

module _ {ℓ} {A : Type ℓ} where
  abbrev pub values : Node A → List A
  values nil = []
  values (node v next) = v ∷ values next

  abbrev pub contents : LinkedList A → List A
  contents ll = values ll.head

  -- The `Length` field counts the nodes.
  abbrev pub IsValid : LinkedList A → Type 0
  IsValid ll = ll.length ≡ length (contents ll)

  values-attach :
      (v : A) (next new : Node A) → values (attach v next new) ≡ v ∷ values next ++ values new
  unfolding attach
  values-attach v nil new = refl
  values-attach v (node w next) new = ap (◌∷◌ v) (values-attach w next new)

  contents-push_back_all :
      (head : Node A) (new : Node A) → values (push_head head new) ≡ values head ++ values new
  unfolding push_head
  contents-push_back_all nil new = refl
  contents-push_back_all (node v next) new = values-attach v next new

  -- A push appends one value and keeps the length right.
  pub push_back-refines :
      (ll : LinkedList A) (a : A)
      → IsValid ll
      → (contents (push_back ll a) ≡ contents ll ++ a ∷ []) × IsValid (push_back ll a)
  unfolding push_back
  push_back-refines ll a h =
      let e = contents-push_back_all ll.head (node a nil) in
      (e, omega (arith, ap length e, length-append (values ll.head) (a ∷ [])))

  values-detach :
      (v w : A) (next : Node A)
      → v ∷ w ∷ values next ≡ values (detach v w next).1 ++ (detach v w next).0 ∷ []
  unfolding detach
  values-detach v w nil = refl
  values-detach v w (node x next) = ap (◌∷◌ v) (values-detach w x next)

  pop_head-cases :
      (n : Node A)
      → (values n ≡ []) × (pop_head n ≡ none)
        ⊎ (a : A) × (rest : Node A) × (values n ≡ values rest ++ a ∷ [])
          × (pop_head n ≡ some (a, rest))
  unfolding pop_head
  pop_head-cases nil = inl (refl, refl)
  pop_head-cases (node v nil) = inr (v, nil, refl, refl)
  pop_head-cases (node v (node w next)) =
      inr ((detach v w next).0, (detach v w next).1, values-detach v w next, refl)

  -- A pop fails exactly on the empty list; otherwise it cuts off the last value, and the list that
  -- is left is valid.
  pub pop_back-refines :
      (ll : LinkedList A)
      → IsValid ll
      → (contents ll ≡ []) × (pop_back ll ≡ none)
        ⊎ (a : A) × (rest : LinkedList A) × (contents ll ≡ contents rest ++ a ∷ [])
          × (pop_back ll ≡ some (a, rest))
          × IsValid rest
  unfolding pop_back
  pop_back-refines ll h = elim (pop_head-cases ll.head) [
    | inl (e, p) ↦ inl (e, rw (p, pop_back))
    | inr (a, rest, e, p) ↦ inr (
      a,
      record { head = rest; length = ll.length - 1 },
      e,
      rw (p, pop_back),
      omega (arith, ap length e, length-append (values rest) (a ∷ [])),
    )
  ]

  each-foldl {κ} :
      {S : Type κ} (fn : S → A → S) (s : S) (n : Node A) → each fn s n ≡ foldl fn s (values n)
  unfolding each
  each-foldl fn s nil = refl
  each-foldl fn s (node v next) = each-foldl fn (fn s v) next

  -- `ForEach` meets the values in the order in which they were pushed.
  pub for_each-foldl {κ} :
      {S : Type κ} (ll : LinkedList A) (fn : S → A → S) (s : S)
      → for_each ll fn s ≡ foldl fn s (contents ll)
  unfolding for_each
  for_each-foldl ll fn s = each-foldl fn s ll.head
