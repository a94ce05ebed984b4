-- ===== src/Containers/LinkedList.antt =====
-- day054_linked_list_with_generics/main.go, lines 5 to 79: a singly linked list with its length.
-- A `*Node[T]` is the chain that hangs on it, `nil` the empty chain: the list is the only owner of
-- its nodes, so that a write through `curr.Next` is a change at that place of the chain.
pub mod Laws
use go_daily_learning.Prelude.{ℕ, zero, suc, ◌+◌, ◌-◌, Option, none, some, List, [], ◌∷◌}

pub data Node {ℓ} (A : Type ℓ) : Type ℓ where
  nil : Node A
  node : A → Node A → Node A

pub record LinkedList {ℓ} (A : Type ℓ) : Type ℓ where
  pub head : Node A
  pub length : ℕ

module _ {ℓ} {A : Type ℓ} where
  pub new_linked_list : LinkedList A
  new_linked_list = record { head = nil; length = 0 }

  -- `for curr.Next != nil { curr = curr.Next }; curr.Next = newNode`, from a node with value `v`.
  attach : A → Node A → Node A → Node A
  attach v nil new = node v new
  attach v (node w next) new = node v (attach w next new)

  push_head : Node A → Node A → Node A
  unfolding attach
  push_head nil new = new
  push_head (node v next) new = attach v next new

  pub push_back : LinkedList A → A → LinkedList A
  unfolding push_head
  push_back ll value = record { head = push_head ll.head (node value nil); length = ll.length + 1 }

  -- `for curr.Next.Next != nil { … }`, from a node with value `v` whose `Next` has value `w`: the
  -- value cut off, and the chain without it.
  detach : A → A → Node A → A × Node A
  detach v w nil = (w, node v nil)
  detach v w (node x next) = let (last, rest) = detach w x next in (last, node v rest)

  pop_head : Node A → Option (A × Node A)
  unfolding detach
  pop_head nil = none
  pop_head (node v nil) = some (v, nil)
  pop_head (node v (node w next)) = some (detach v w next)

  -- `none` is `(zero, false)`, with the list as it was.
  pub pop_back : LinkedList A → Option (A × LinkedList A)
  unfolding pop_head
  pop_back ll = elim (pop_head ll.head) [
    | none ↦ none
    | some (v, rest) ↦ some (v, record { head = rest; length = ll.length - 1 })
  ]

  peek_node : Node A → Option A
  peek_node nil = none
  peek_node (node v next) = some v

  pub peek_front : LinkedList A → Option A
  unfolding peek_node
  peek_front ll = peek_node ll.head

  pub len_of : LinkedList A → ℕ
  len_of ll = ll.length

  -- `ForEach` with a callback that changes a state of type `S`.
  each {κ} : {S : Type κ} → (S → A → S) → S → Node A → S
  each fn s nil = s
  each fn s (node v next) = each fn (fn s v) next

  pub for_each {κ} : {S : Type κ} → LinkedList A → (S → A → S) → S → S
  unfolding each
  for_each ll fn s = each fn s ll.head
