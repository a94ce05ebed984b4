-- ===== src/Backpressure/Scenarios/Outcome.antt =====
-- What the two scenarios of adv023_backpressure/main.go have done when they return.
use mathlib.Core.List.{append_assoc, append-nil}
use go_daily_learning.Prelude.{
  ℕ, ◌+◌, ◌-◌, ◌%◌, ◌≤◌, ◌≡◌, ap, subst, sym, ◌∙◌, Bool, true, false, ◌||◌, some, List, [], ◌∷◌,
  ◌++◌, arith, length, length-append, leb, if◌then◌else◌,
}
use go_daily_learning.Steps.{run_moves-keeps}
use go_daily_learning.Backpressure.Scenarios.{
  has_ended, Mode, dropping, blocking, Producer, pushing, closing, joining, returned, Drainer,
  at_receive, parked, working, ended, Scene, ScenarioMove, produces, drains, scenario_move,
  new_scene, run_scenario, run_drop_scenario, run_blocking_scenario,
}
use go_daily_learning.Backpressure.Scenarios.Ascending.{
  ascends, order_sent, order_handed, order_received, ascends-suc, ascends-upto, upto,
}

-- A receiver waits only at an empty channel, and ends only at a closed and empty one.
abbrev pub held_at : Drainer → List ℕ → Bool → Bool
held_at at_receive buf c = true
held_at working buf c = true
held_at parked [] c = true
held_at parked (v ∷ buf) c = false
held_at ended [] c = c
held_at ended (v ∷ buf) c = false

abbrev pub is_over : Producer → Bool
is_over pushing = false
is_over closing = false
is_over joining = true
is_over returned = true

abbrev pub is_pushing : Producer → Bool
is_pushing pushing = true
is_pushing _ = false

abbrev pub joined : Producer → Drainer → Bool
joined returned d = has_ended d
joined _ d = true

abbrev pub all_in : Mode → ℕ → ℕ → Bool
all_in dropping i n = true
all_in blocking i n = leb i n

abbrev pub u64 : ℕ → ℕ
u64 n = n % 18446744073709551616

pub record Inv (m : Mode) (tasks capacity : ℕ) (s : Scene) : Type 0 where
  pub cap : s.queue.ch.cap ≡ capacity
  pub closed : s.queue.ch.closed ≡ is_over s.producer
  pub order : ascends 0 (s.served ++ s.queue.ch.buf) s.next ≡ true
  pub count : length s.served + length s.queue.ch.buf ≡ s.accepted
  pub same : s.served ++ s.queue.ch.buf ≡ s.taken
  pub within : s.next ≤ tasks
  pub through : (is_pushing s.producer || leb tasks s.next) ≡ true
  pub at_most : s.accepted ≤ s.next
  pub at_least : (leb s.next s.accepted || leb capacity s.accepted) ≡ true
  pub every_one : all_in m s.next s.accepted ≡ true
  pub shed : s.queue.dropped ≡ u64 (s.next - s.accepted)
  pub held : held_at s.drainer s.queue.ch.buf s.queue.ch.closed ≡ true
  pub end_joined : joined s.producer s.drainer ≡ true

new_scene-Inv : (m : Mode) (tasks capacity : ℕ) → Inv m tasks capacity (new_scene capacity)
unfolding new_scene
new_scene-Inv dropping tasks capacity = ground arith
new_scene-Inv blocking tasks capacity = ground arith

taken_sent :
    (i : ℕ) (served buf taken : List ℕ)
    → served ++ buf ≡ taken
    → served ++ (buf ++ i ∷ []) ≡ taken ++ i ∷ []
taken_sent i served buf taken h =
    rw (← append_assoc served buf (i ∷ [])) (ap (λ (l : List ℕ). l ++ i ∷ []) h)

taken_handed :
    (i : ℕ) (served taken : List ℕ)
    → served ++ [] ≡ taken
    → (served ++ i ∷ []) ++ [] ≡ taken ++ i ∷ []
taken_handed i served taken h =
    append-nil (served ++ i ∷ []) ∙ ap (λ (l : List ℕ). l ++ i ∷ []) (sym (append-nil served) ∙ h)

abbrev Kept : Mode → ℕ → ℕ → Scene → ScenarioMove → Type 0
Kept m tasks c s move =
    (s' : Scene) → scenario_move m tasks s move ≡ some s' → Inv m tasks c s → Inv m tasks c s'

produces-Inv :
    (m : Mode) (tasks c i n drops cap : ℕ) (taken buf served : List ℕ) (closed : Bool)
    (p : Producer) (d : Drainer)
    → Kept m tasks c
        (record {
          producer = p;
          next = i;
          accepted = n;
          taken = taken;
          queue = record { ch = record { buf = buf; cap = cap; closed = closed }; dropped = drops };
          drainer = d;
          served = served;
        })
        produces
unfolding scenario_move
produces-Inv dropping tasks c i n drops cap taken [] served closed pushing parked s' e v =
    let o = order_handed i served v.order in
    let k = taken_handed i served taken v.same in
    let l = length-append served (i ∷ []) in ground arith
produces-Inv blocking tasks c i n drops cap taken [] served closed pushing parked s' e v =
    let o = order_handed i served v.order in
    let k = taken_handed i served taken v.same in
    let l = length-append served (i ∷ []) in ground arith
produces-Inv m tasks c i n drops cap taken (x ∷ buf) served closed pushing parked s' e v =
    absurd (ground (arith, v.held))
produces-Inv dropping tasks c i n drops cap taken buf served closed pushing d s' e v =
    let o = order_sent i served buf v.order in
    let k = taken_sent i served buf taken v.same in
    let u = ascends-suc 0 i (served ++ buf) v.order in
    let l = length-append buf (i ∷ []) in ground arith
produces-Inv blocking tasks c i n drops cap taken buf served closed pushing d s' e v =
    let o = order_sent i served buf v.order in
    let k = taken_sent i served buf taken v.same in
    let l = length-append buf (i ∷ []) in ground arith
produces-Inv dropping tasks c i n drops cap taken buf served closed closing d s' e v = ground arith
produces-Inv blocking tasks c i n drops cap taken buf served closed closing d s' e v = ground arith
produces-Inv m tasks c i n drops cap taken buf served closed joining d s' e v = ground arith
produces-Inv m tasks c i n drops cap taken buf served closed returned d s' e v =
    absurd (ground arith)

drains-Inv :
    (m : Mode) (tasks c i n drops cap : ℕ) (taken buf served : List ℕ) (closed : Bool)
    (p : Producer) (d : Drainer)
    → Kept m tasks c
        (record {
          producer = p;
          next = i;
          accepted = n;
          taken = taken;
          queue = record { ch = record { buf = buf; cap = cap; closed = closed }; dropped = drops };
          drainer = d;
          served = served;
        })
        drains
unfolding scenario_move
drains-Inv m tasks c i n drops cap taken [] served closed p at_receive s' e v = ground arith
drains-Inv m tasks c i n drops cap taken (x ∷ buf) served closed p at_receive s' e v =
    let o = order_received i x served buf v.order in
    let k = append_assoc served (x ∷ []) buf in
    let l = length-append served (x ∷ []) in ground arith
drains-Inv m tasks c i n drops cap taken buf served closed p parked s' e v = ground arith
drains-Inv m tasks c i n drops cap taken buf served closed p working s' e v = ground arith
drains-Inv m tasks c i n drops cap taken buf served closed p ended s' e v = absurd (ground arith)

scenario_move-Inv :
    (m : Mode) (tasks c : ℕ) (s : Scene) (move : ScenarioMove) → Kept m tasks c s move
scenario_move-Inv m tasks c s produces =
    produces-Inv m tasks c s.next s.accepted s.queue.dropped s.queue.ch.cap s.taken s.queue.ch.buf
      s.served s.queue.ch.closed s.producer s.drainer
scenario_move-Inv m tasks c s drains =
    drains-Inv m tasks c s.next s.accepted s.queue.dropped s.queue.ch.cap s.taken s.queue.ch.buf
      s.served s.queue.ch.closed s.producer s.drainer

pub run_scenario-Inv :
    (m : Mode) (tasks c : ℕ) (ms : List ScenarioMove) → Inv m tasks c (run_scenario m tasks c ms)
unfolding run_scenario
run_scenario-Inv m tasks c ms =
    run_moves-keeps (scenario_move m tasks) (Inv m tasks c)
      (λ s s' move e. scenario_move-Inv m tasks c s move s' e) ms (new_scene c)
      (new_scene-Inv m tasks c)

at_end :
    (m : Mode) (tasks c : ℕ) (s : Scene)
    → Inv m tasks c s
    → s.producer ≡ returned
    → (s.queue.ch.buf ≡ []) × (s.next ≡ tasks) × (ascends 0 s.served tasks ≡ true)
at_end m tasks c s v e =
    let h : has_ended s.drainer ≡ true = ground (arith, v.end_joined) in
    let b : s.queue.ch.buf ≡ [] = ground (arith, v.held) in
    let n : s.next ≡ tasks = ground (arith, v.through, v.within) in
    (
      b,
      n,
      subst (λ (k : ℕ). ascends 0 s.served k ≡ true) n
          (subst (λ (xs : List ℕ). ascends 0 xs s.next ≡ true)
            (ap (◌++◌ s.served) b ∙ append-nil s.served) v.order),
    )

abbrev pub min : ℕ → ℕ → ℕ
min a b = if leb a b then a else b

-- Over every interleaving, once `runDropScenario` has returned, the goroutine has received exactly
-- the values whose push was accepted, in the order of the pushes, which ascends; `accepted` is
-- their number, at least the capacity or all tasks were accepted, at most all tasks, and the
-- counter of the queue is the number of the others, up to the wrap-around of its 64 bits.
pub run_scenario-dropping :
    (tasks capacity : ℕ) (ms : List ScenarioMove)
    → let s = run_drop_scenario tasks capacity ms in
      s.producer ≡ returned
      → (s.served ≡ s.taken)
        × (length s.served ≡ s.accepted)
        × (ascends 0 s.served tasks ≡ true)
        × (min tasks capacity ≤ s.accepted)
        × (s.accepted ≤ tasks)
        × (s.queue.dropped ≡ u64 (tasks - s.accepted))
run_scenario-dropping tasks c ms e =
    let s : Scene = run_scenario dropping tasks c ms in
    let v = run_scenario-Inv dropping tasks c ms in
    let (b, n, o) = at_end dropping tasks c s v e in
    (
      sym (append-nil s.served) ∙ sym (ap (◌++◌ s.served) b) ∙ v.same,
      omega (arith, v.count, ap length b),
      o,
      ground (arith, v.at_least, v.at_most),
      omega (arith, v.at_most, v.within),
      v.shed ∙ ap (λ (k : ℕ). u64 (k - s.accepted)) n,
    )

-- Over every interleaving, once `runBlockingScenario` has returned, the goroutine has received
-- every value from 0 to `tasks`, in order.
pub run_scenario-blocking :
    (tasks capacity : ℕ) (ms : List ScenarioMove)
    → let s = run_blocking_scenario tasks capacity ms in
      s.producer ≡ returned → s.served ≡ upto 0 tasks
run_scenario-blocking tasks c ms e =
    let s : Scene = run_scenario blocking tasks c ms in
    let v = run_scenario-Inv blocking tasks c ms in
    let (b, n, o) = at_end blocking tasks c s v e in
    let k : length s.served ≡ tasks =
      ground (arith, v.count, v.every_one, v.at_most, ap length b) in
    ascends-upto 0 tasks s.served o (omega arith) ∙ ap (upto 0) k
