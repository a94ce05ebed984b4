-- ===== src/Examples/Sequential.antt =====
-- Queues, containers, the todo service, the server options, the heap goals and the switches at
-- concrete inputs.
use Prim.Native.String.{String}
use go_daily_learning.Prelude.{
  ℕ, ◌≡◌, refl, ◌⊎◌, false, Option, none, some, [], ◌∷◌, ◌++◌, arith, length,
}
use go_daily_learning.Prelude.Int.{ℤ, pos}
use go_daily_learning.Stealing.{Task, Proc, hot_task_id, steal_half}
use go_daily_learning.Stealing.Queue.{steal_half-conserves}
use go_daily_learning.Containers.LinkedList.{LinkedList, nil, node, pop_back}
use go_daily_learning.Containers.LinkedList.Laws as ListLaws
use go_daily_learning.Containers.Stack.{Stack}
use go_daily_learning.Todo.{Todo, initial}
use go_daily_learning.Todo.Invariant.{
  creates, deletes, lists, serve_all, IsValid, serve_all-IsValid,
}
use go_daily_learning.SizeClass.{class_for}
use go_daily_learning.SizeClass.Smallest.{class_for-first_at_least}

abbrev plain_1 : Task
plain_1 = record { id = 11; producer = 0 }

abbrev plain_2 : Task
plain_2 = record { id = 12; producer = 1 }

abbrev hot : Task
hot = record { id = hot_task_id; producer = 0 }

abbrev busy : Proc
busy = record { id = 0; runq = plain_1 ∷ plain_2 ∷ hot ∷ []; runnext = some hot }

steal_half_example :
    ((steal_half busy).0 ++ (steal_half busy).1.runq ≡ busy.runq)
    × ((steal_half busy).1.runnext ≡ some hot)
    × (length (steal_half busy).0 ≡ 2)
steal_half_example = steal_half-conserves busy

abbrev two_values : LinkedList ℕ
two_values = record { head = node 7 (node 8 nil); length = 2 }

pop_back_example :
    (ListLaws.contents two_values ≡ []) × (pop_back two_values ≡ none)
    ⊎ (a : ℕ) × (rest : LinkedList ℕ) × (ListLaws.contents two_values
        ≡ ListLaws.contents rest ++ a ∷ [])
      × (pop_back two_values ≡ some (a, rest))
      × ListLaws.IsValid rest
pop_back_example = ListLaws.pop_back-refines two_values refl

abbrev two_items : Stack ℕ
two_items = record { items = 3 ∷ 4 ∷ [] }

-- A decoder that takes the body as the title, and a parser that reads every id as 1.
abbrev titled : String → Option Todo
titled body = some (record { id = 0; title = body; done = false })

abbrev always_one : String → Option ℤ
always_one id_str = some (pos 1)

serve_all_example :
    IsValid
      (serve_all titled always_one initial (creates "a" ∷ creates "b" ∷ deletes "1" ∷ lists ∷ []))
serve_all_example =
    serve_all-IsValid titled always_one (creates "a" ∷ creates "b" ∷ deletes "1" ∷ lists ∷ [])

class_for_example : class_for (8 ∷ 16 ∷ 24 ∷ 32 ∷ 48 ∷ []) 33 ≡ some 48
class_for_example = class_for-first_at_least (8 ∷ 16 ∷ 24 ∷ 32 ∷ 48 ∷ []) 33 (
  (omega arith, (omega arith, (omega arith, (omega arith, tt)))),
  (
    (omega arith, (omega arith, (omega arith, tt))),
    ((omega arith, (omega arith, tt)), ((omega arith, tt), (tt, tt))),
  ),
)
