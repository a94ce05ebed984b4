-- ===== src/Backpressure/Fifo.antt =====
-- The unbounded queue of adv023_backpressure/main.go hands out what was pushed, in that order.
use mathlib.Core.List.{append_assoc}
use go_daily_learning.Prelude.{
  ℕ, ◌≡◌, refl, sym, ◌∙◌, ap, ◌⊎◌, inl, inr, true, false, List, [], ◌∷◌, ◌++◌, arith, List-cases,
  Bool-cases,
}
use go_daily_learning.Backpressure.{
  UnboundedQueue, Popped, popped, drained, waits, new_unbounded_queue, push, pop, pop_from, close,
}

pub data Call : Type 0 where
  pushes : ℕ → Call
  pops : Call
  closes : Call

pub record History : Type 0 where
  pub queue : UnboundedQueue
  pub pushed : List ℕ
  pub taken : List ℕ

after_pop : History → Popped → History
after_pop h (popped v q) = record h { queue = q; taken = h.taken ++ v ∷ [] }
after_pop h drained = h
after_pop h waits = h

pub call : History → Call → History
unfolding after_pop
call h (pushes v) = record h { queue = push h.queue v; pushed = h.pushed ++ v ∷ [] }
call h pops = after_pop h (pop h.queue)
call h closes = record h { queue = close h.queue }

pub calls : History → List Call → History
calls h [] = h
calls h (c ∷ cs) = calls (call h c) cs

abbrev pub start : History
start = record { queue = new_unbounded_queue; pushed = []; taken = [] }

abbrev IsFifo : History → Type 0
IsFifo h = h.pushed ≡ h.taken ++ h.queue.buf

pops-IsFifo :
    (h : History) (buf : List ℕ)
    → h.queue.buf ≡ buf
    → IsFifo h
    → IsFifo (after_pop h (pop_from h.queue buf))
unfolding after_pop pop_from
pops-IsFifo h [] e f = ground arith
pops-IsFifo h (v ∷ rest) e f = f ∙ ap (◌++◌ h.taken) e ∙ sym (append_assoc h.taken (v ∷ []) rest)

call-IsFifo : (h : History) (c : Call) → IsFifo h → IsFifo (call h c)
unfolding call push pop close
call-IsFifo h (pushes v) f =
    ap (λ (xs : List ℕ). xs ++ v ∷ []) f ∙ append_assoc h.taken h.queue.buf (v ∷ [])
call-IsFifo h pops f = pops-IsFifo h h.queue.buf refl f
call-IsFifo h closes f = f

calls-IsFifo : (h : History) (cs : List Call) → IsFifo h → IsFifo (calls h cs)
unfolding calls
calls-IsFifo h [] f = f
calls-IsFifo h (c ∷ cs) f = calls-IsFifo (call h c) cs (call-IsFifo h c f)

-- Over every sequence of calls from any number of producers and consumers, the values pushed are
-- the values taken followed by those still in the buffer, in one order: nothing is lost, doubled or
-- overtaken, also across `Close`.
pub unbounded_fifo :
    (cs : List Call)
    → (calls start cs).pushed ≡ (calls start cs).taken ++ (calls start cs).queue.buf
unbounded_fifo cs = calls-IsFifo start cs (unfold new_unbounded_queue in refl)

-- A pop waits exactly on an empty open queue, and reports the end exactly on an empty closed one.
pub pop_blocks :
    (q : UnboundedQueue)
    → (q.buf ≡ []) × (q.closed ≡ false) × (pop q ≡ waits)
      ⊎ (q.buf ≡ []) × (q.closed ≡ true) × (pop q ≡ drained)
      ⊎ (v : ℕ) × (q' : UnboundedQueue) × (q.buf ≡ v ∷ q'.buf)
        × (q'.closed ≡ q.closed)
        × (pop q ≡ popped v q')
unfolding pop pop_from
pop_blocks q = elim (List-cases q.buf) [
  | inl e ↦ elim (Bool-cases q.closed) [
    | inl c ↦ inr (inl (e, c, rw (e, pop_from) (rw c)))
    | inr c ↦ inl (e, c, rw (e, pop_from) (rw c))
  ]
  | inr (v, rest, e) ↦ inr (inr (v, record q { buf = rest }, e, refl, rw (e, pop_from)))
]
