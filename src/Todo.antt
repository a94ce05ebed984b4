-- ===== src/Todo.antt =====
-- day035_http_server/main.go, lines 12 to 87: the todo service. The global variables are the state;
-- the lock makes each handler one step. `json.Decode` of a request body and `strconv.Atoi` are not
-- the program's: the handlers take them as functions. A response is its status with its body's
-- data.
pub mod Invariant
use Prim.Native.String.{String}
use go_daily_learning.Prelude.{
  ℕ, suc, ◌+◌, Bool, true, false, ◌||◌, Option, none, some, List, [], ◌∷◌, ◌++◌, ◌==◌,
  if◌then◌else◌,
}
use go_daily_learning.Prelude.Int.{ℤ, pos, negsuc}

pub record Todo : Type 0 where
  pub id : ℕ
  pub title : String
  pub done : Bool

pub record State : Type 0 where
  pub todos : List Todo
  pub next_id : ℕ

pub data Response : Type 0 where
  status_ok : List Todo → Response
  status_created : Todo → Response
  status_bad_request : Response
  status_no_content : Response

abbrev pub initial : State
initial = record { todos = []; next_id = 0 }

pub list_todos : State → State × Response
list_todos s = (s, status_ok s.todos)

module _ {Body : Type 0} (decode : Body → Option Todo) (atoi : String → Option ℤ) where
  pub create_todo : State → Body → State × Response
  create_todo s body = elim (decode body) [
    | none ↦ (s, status_bad_request)
    | some new_todo ↦
        let next = s.next_id + 1 in
        let new_todo' = record new_todo { id = next } in
        (record { todos = s.todos ++ new_todo' ∷ []; next_id = next }, status_created new_todo')
  ]

-- The loop of `deleteTodo`: the first todo with the id is cut out, and the loop ends.
pub remove_first : ℕ → List Todo → List Todo
remove_first id [] = []
remove_first id (t ∷ ts) = if t.id == id then ts else t ∷ remove_first id ts

abbrev pub positive : ℤ → Option ℕ
positive (pos ℕ.zero) = none
positive (pos (suc n)) = some (suc n)
positive (negsuc n) = none

-- `err != nil || id <= 0` is the case `none`.
abbrev pub parse_id : (String → Option ℤ) → String → Option ℕ
parse_id atoi id_str = elim (atoi id_str) [ none ↦ none | some z ↦ positive z ]

pub delete_todo : (String → Option ℤ) → State → String → State × Response
unfolding remove_first
delete_todo atoi s id_str = elim (parse_id atoi id_str) [
  | none ↦ (s, status_bad_request)
  | some id ↦ (record s { todos = remove_first id s.todos }, status_no_content)
]
