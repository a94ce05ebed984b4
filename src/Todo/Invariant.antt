-- ===== src/Todo/Invariant.antt =====
-- Ids of the todo service (day035_http_server/main.go) are fresh and never used twice.
use Prim.Native.String.{String}
use go_daily_learning.Prelude.{
  ℕ, ◌+◌, ◌≤◌, ◌<◌, ◌≡◌, refl, ◌⊎◌, inl, inr, Option, none, some, List, [], ◌∷◌, ◌++◌, arith, ◌==◌,
  if◌then◌else◌, Option-cases, Bool-cases,
}
use go_daily_learning.Prelude.Int.{ℤ}
use go_daily_learning.Todo.{
  Todo, State, Response, status_bad_request, status_no_content, initial, list_todos, create_todo,
  remove_first, parse_id, delete_todo,
}

-- The ids rise strictly from above `lo` to at most `hi`.
abbrev pub Rising : ℕ → ℕ → List Todo → Type 0
Rising lo hi [] = lo ≤ hi
Rising lo hi (t ∷ ts) = (lo < t.id) × Rising t.id hi ts

abbrev pub IsValid : State → Type 0
IsValid s = Rising 0 s.next_id s.todos

Rising-snoc :
    (lo hi : ℕ) (ts : List Todo) (t : Todo)
    → Rising lo hi ts
    → t.id ≡ hi + 1
    → Rising lo (hi + 1) (ts ++ t ∷ [])
Rising-snoc lo hi [] t h e = (omega arith, omega arith)
Rising-snoc lo hi (x ∷ ts) t h e = (h.0, Rising-snoc x.id hi ts t h.1 e)

Rising-lower : (lo lo' hi : ℕ) (ts : List Todo) → lo ≤ lo' → Rising lo' hi ts → Rising lo hi ts
Rising-lower lo lo' hi [] l h = omega arith
Rising-lower lo lo' hi (t ∷ ts) l h = (omega arith, h.1)

Rising-remove_first :
    (lo hi id : ℕ) (ts : List Todo) → Rising lo hi ts → Rising lo hi (remove_first id ts)
unfolding remove_first
Rising-remove_first lo hi id [] h = h
Rising-remove_first lo hi id (t ∷ ts) h = elim (Bool-cases (t.id == id)) [
  | inl e ↦ rw e (Rising-lower lo t.id hi ts (omega arith) h.1)
  | inr e ↦ rw e (h.0, Rising-remove_first t.id hi id ts h.1)
]

-- A call of one of the three handlers.
pub data Call (Body : Type 0) : Type 0 where
  lists : Call Body
  creates : Body → Call Body
  deletes : String → Call Body

module _ {Body : Type 0} (decode : Body → Option Todo) (atoi : String → Option ℤ) where
  pub serve : State → Call Body → State × Response
  serve s lists = list_todos s
  serve s (creates body) = create_todo decode atoi s body
  serve s (deletes id) = delete_todo atoi s id

  pub serve_all : State → List (Call Body) → State
  unfolding serve
  serve_all s [] = s
  serve_all s (c ∷ cs) = serve_all (serve s c).0 cs

  create_todo-IsValid :
      (s : State) (body : Body) → IsValid s → IsValid (create_todo decode atoi s body).0
  unfolding create_todo
  create_todo-IsValid s body h = elim (Option-cases (decode body)) [
    | inl e ↦ rw (e, create_todo) h
    | inr (t, e) ↦
        rw (e, create_todo)
          (Rising-snoc 0 s.next_id s.todos (record t { id = s.next_id + 1 }) h refl)
  ]

  delete_todo-IsValid : (s : State) (id : String) → IsValid s → IsValid (delete_todo atoi s id).0
  unfolding delete_todo
  delete_todo-IsValid s id h = elim (Option-cases (parse_id atoi id)) [
    | inl e ↦ rw (e, delete_todo) h
    | inr (n, e) ↦ rw (e, delete_todo) (Rising-remove_first 0 s.next_id n s.todos h)
  ]

  serve-IsValid : (s : State) (c : Call Body) → IsValid s → IsValid (serve s c).0
  unfolding serve list_todos
  serve-IsValid s lists h = h
  serve-IsValid s (creates body) h = create_todo-IsValid s body h
  serve-IsValid s (deletes id) h = delete_todo-IsValid s id h

  serve_all_from : (s : State) (cs : List (Call Body)) → IsValid s → IsValid (serve_all s cs)
  unfolding serve_all
  serve_all_from s [] h = h
  serve_all_from s (c ∷ cs) h = serve_all_from (serve s c).0 cs (serve-IsValid s c h)

  -- After any sequence of calls, with any decoder and any parser of ids, the ids of the todos rise
  -- strictly in the order of the list, all are positive and none is above `nextID`.
  pub serve_all-IsValid : (cs : List (Call Body)) → IsValid (serve_all initial cs)
  serve_all-IsValid cs = serve_all_from initial cs (omega arith)

-- Every todo with the id is left out.
pub without : ℕ → List Todo → List Todo
without id [] = []
without id (t ∷ ts) = let rest = without id ts in if t.id == id then rest else t ∷ rest

without_below : (lo hi id : ℕ) (ts : List Todo) → Rising lo hi ts → id ≤ lo → without id ts ≡ ts
unfolding without
without_below lo hi id [] h l = refl
without_below lo hi id (t ∷ ts) h l = ground (arith, without_below t.id hi id ts h.1)

remove_first-without :
    (lo hi id : ℕ) (ts : List Todo) → Rising lo hi ts → remove_first id ts ≡ without id ts
unfolding remove_first without
remove_first-without lo hi id [] h = refl
remove_first-without lo hi id (t ∷ ts) h =
    ground (arith, remove_first-without t.id hi id ts h.1, without_below t.id hi id ts h.1)

-- In a valid state a deletion by a positive id answers 204 and leaves exactly the todos with
-- another id, in their order, also when no todo has the id; any other id string answers 400 and
-- changes nothing.
pub delete_todo-without :
    (atoi : String → Option ℤ) (s : State) (id_str : String)
    → IsValid s
    → (parse_id atoi id_str ≡ none) × (delete_todo atoi s id_str ≡ (s, status_bad_request))
      ⊎ (id : ℕ) × (parse_id atoi id_str ≡ some id)
        × (delete_todo atoi s id_str ≡ (record s { todos = without id s.todos }, status_no_content))
unfolding delete_todo
delete_todo-without atoi s id_str h = elim (Option-cases (parse_id atoi id_str)) [
  | inl e ↦ inl (e, rw (e, delete_todo))
  | inr (id, e) ↦
      inr (id, e, rw (e, delete_todo) (rw (remove_first-without 0 s.next_id id s.todos h)))
]
