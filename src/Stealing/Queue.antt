-- ===== src/Stealing/Queue.antt =====
-- The local queue of adv002_work_stealing/main.go against the list of tasks in the order in which
-- they will run.
use mathlib.Core.List.{append-nil, append_assoc}
use go_daily_learning.Prelude.{
  ◌+◌, ◌/◌, ◌≡◌, refl, ap, sym, ◌⊎◌, inl, inr, true, false, Option, none, some, List, [], ◌∷◌, ◌++◌,
  arith, length, take-append-drop, length-take, List-cases,
}
use go_daily_learning.Stealing.{
  queue_fifo, queue_runnext, Task, Proc, has_work, put_runnext, enqueue, pop_local, steal_half,
}

abbrev slot : Option Task → List Task
slot none = []
slot (some t) = t ∷ []

-- What `pop_local` will hand out, in order.
abbrev pub contents : Proc → List Task
contents p = slot p.runnext ++ p.runq

-- The head of the contents is popped, whether it stands in the slot or in the queue; nothing is
-- popped exactly when `has_work` says no.
pub pop_local-contents :
    (p : Proc)
    → (contents p ≡ []) × (pop_local p ≡ none) × (has_work p ≡ false)
      ⊎ (t : Task) × (p' : Proc) × (contents p ≡ t ∷ contents p')
        × (pop_local p ≡ some (t, p'))
        × (has_work p ≡ true)
unfolding pop_local has_work
pop_local-contents p = cases p.runnext p.runq refl refl
  where
    cases :
        (next : Option Task) (q : List Task)
        → p.runnext ≡ next
        → p.runq ≡ q
        → (contents p ≡ []) × (pop_local p ≡ none) × (has_work p ≡ false)
          ⊎ (t : Task) × (p' : Proc) × (contents p ≡ t ∷ contents p')
            × (pop_local p ≡ some (t, p'))
            × (has_work p ≡ true)
    cases none [] e f = inl (ground arith, ground arith, ground arith)
    cases none (t ∷ q) e f =
        inr (t, record p { runq = q }, ground arith, ground arith, ground arith)
    cases (some t) q e f =
        inr (t, record p { runnext = none }, ground arith, ground arith, ground arith)

-- In runnext mode a new task runs first and the task it displaces goes behind the queue; in FIFO
-- mode it runs last.
pub contents-enqueue :
    (p : Proc) (t : Task)
    → (contents (enqueue p queue_runnext t) ≡ t ∷ p.runq ++ slot p.runnext)
      × (contents (enqueue p queue_fifo t) ≡ contents p ++ t ∷ [])
unfolding enqueue
contents-enqueue p t = (in_front p.runnext, sym (append_assoc (slot p.runnext) p.runq (t ∷ [])))
  where
    in_front : (next : Option Task) → contents (put_runnext p next t) ≡ t ∷ p.runq ++ slot next
    in_front none = ap (◌∷◌ t) (sym (append-nil p.runq))
    in_front (some old) = refl

-- Stealing takes the older half, rounded up, from the queue and never the slot; what is stolen and
-- what is left make up the queue in its old order.
pub steal_half-conserves :
    (v : Proc)
    → ((steal_half v).0 ++ (steal_half v).1.runq ≡ v.runq)
      × ((steal_half v).1.runnext ≡ v.runnext)
      × (length (steal_half v).0 ≡ (length v.runq + 1) / 2)
unfolding steal_half
steal_half-conserves v = ground (
  arith,
  take-append-drop ((length v.runq + 1) / 2) v.runq,
  length-take ((length v.runq + 1) / 2) v.runq,
  List-cases v.runq,
)
