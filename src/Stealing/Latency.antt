-- ===== src/Stealing/Latency.antt =====
-- How long the hot task waits in the run of adv002_work_stealing/main.go.
use go_daily_learning.Prelude.{
  ℕ, zero, suc, ◌+◌, ◌<◌, ◌≡◌, ◌∙◌, ap, ◌≢◌, false, none, some, List, [], ◌∷◌, ◌++◌, arith, length,
}
use go_daily_learning.Stealing.{
  hot_task_id, trigger_task_id, QueueMode, Task, Proc, HotRun, p0_turn, p1_turn, loop,
}

-- Neither the hot task nor the one that creates it.
abbrev IsPlain : Task → Type 0
IsPlain t = (t.id ≢ hot_task_id) × (t.id ≢ trigger_task_id)

abbrev pub AllPlain : List Task → Type 0
AllPlain [] = Unit
AllPlain (t ∷ ts) = IsPlain t × AllPlain ts

-- With the hot task in the slot of P0 it runs at the very next tick, in either mode and whatever
-- stands in both queues.
pub runnext_immediate :
    (mode : QueueMode) (left tick : ℕ) (s : HotRun) (t : Task)
    → s.p0.runnext ≡ some t
    → t.id ≡ hot_task_id
    → (loop mode (suc left) tick s).hot_tick ≡ some tick
unfolding loop p0_turn
runnext_immediate mode left tick s t e h = ground arith

p0_plain :
    (mode : QueueMode) (tick : ℕ) (s : HotRun) (t : Task) (rest : List Task)
    → s.p0.runnext ≡ none
    → s.p0.runq ≡ t ∷ rest
    → IsPlain t
    → ((p0_turn mode tick s).1 ≡ false)
      × ((p0_turn mode tick s).0.p0.runnext ≡ none)
      × ((p0_turn mode tick s).0.p0.runq ≡ rest)
      × ((p0_turn mode tick s).0.p1 ≡ s.p1)
unfolding p0_turn
p0_plain mode tick s t rest e f h = ground arith

p1_plain :
    (mode : QueueMode) (tick : ℕ) (s : HotRun) (t : Task) (rest : List Task)
    → s.p1.runnext ≡ none
    → s.p1.runq ≡ t ∷ rest
    → IsPlain t
    → ((p1_turn mode tick s).1 ≡ false)
      × ((p1_turn mode tick s).0.p1.runnext ≡ none)
      × ((p1_turn mode tick s).0.p1.runq ≡ rest)
      × ((p1_turn mode tick s).0.p0 ≡ s.p0)
unfolding p1_turn
p1_plain mode tick s t rest e f h = ground arith

loop_past :
    (mode : QueueMode) (left tick : ℕ) (s : HotRun)
    → (p0_turn mode tick s).1 ≡ false
    → (p1_turn mode tick (p0_turn mode tick s).0).1 ≡ false
    → loop mode (suc left) tick s
      ≡ loop mode left (tick + 1) (p1_turn mode tick (p0_turn mode tick s).0).0
unfolding loop
loop_past mode left tick s e f = rw (e, f, loop)

hot_head :
    (mode : QueueMode) (left tick : ℕ) (s : HotRun) (t : Task) (rest : List Task)
    → s.p0.runnext ≡ none
    → s.p0.runq ≡ t ∷ rest
    → t.id ≡ hot_task_id
    → (loop mode (suc left) tick s).hot_tick ≡ some tick
unfolding loop p0_turn
hot_head mode left tick s t rest e f h = ground arith

-- With no slot in use the hot task waits for exactly the plain tasks that stand before it in P0's
-- queue, as long as P1 has as many plain tasks of its own, so that it does not steal.
pub fifo_waits :
    (mode : QueueMode) (left tick : ℕ) (s : HotRun) (front own : List Task) (t : Task)
    (rest more : List Task)
    → s.p0.runnext ≡ none
    → s.p0.runq ≡ front ++ t ∷ rest
    → s.p1.runnext ≡ none
    → s.p1.runq ≡ own ++ more
    → length own ≡ length front
    → AllPlain front
    → AllPlain own
    → t.id ≡ hot_task_id
    → length front < left
    → (loop mode left tick s).hot_tick ≡ some (tick + length front)
fifo_waits mode zero tick s front own t rest more a b c d e f g h l = absurd (omega arith)
fifo_waits mode (suc left) tick s [] own t rest more a b c d e f g h l =
    hot_head mode left tick s t rest a b h ∙ ap some (omega arith)
fifo_waits mode (suc left) tick s (x ∷ front) [] t rest more a b c d e f g h l =
    absurd (omega arith)
fifo_waits mode (suc left) tick s (x ∷ front) (y ∷ own) t rest more a b c d e f g h l =
    let (go0, n0, q0, k0) = p0_plain mode tick s x (front ++ t ∷ rest) a b f.0 in
    let s0 = (p0_turn mode tick s).0 in
    let (go1, n1, q1, k1) =
      p1_plain mode tick s0 y (own ++ more) (ap (λ (p : Proc). p.runnext) k0 ∙ c)
        (ap (λ (p : Proc). p.runq) k0 ∙ d) g.0 in
    let s1 = (p1_turn mode tick s0).0 in
    ap (λ (r : HotRun). r.hot_tick) (loop_past mode left tick s go0 go1)
    ∙ fifo_waits mode left (tick + 1) s1 front own t rest more
        (ap (λ (p : Proc). p.runnext) k1 ∙ n0) (ap (λ (p : Proc). p.runq) k1 ∙ q0) n1 q1
        (omega arith) f.1 g.1 h (omega arith)
    ∙ ap some (omega arith)
