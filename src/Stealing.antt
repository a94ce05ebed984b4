-- ===== src/Stealing.antt =====
-- adv002_work_stealing/main.go, lines 18 to 213: a local run queue with a `runnext` slot, stealing
-- of half a queue, and the deterministic two-processor run. A `*Task` that may be nil is an
-- `Option`, `HotTick == -1` is `none`, and the notes of the trace are data in place of their text.
pub mod Queue
pub mod Latency
mod Examples
use go_daily_learning.Prelude.{
  ℕ, zero, suc, ◌+◌, ◌/◌, Bool, true, false, ◌||◌, Option, none, some, List, [], ◌∷◌, ◌++◌, length,
  take, drop, ltb, ◌==◌, if◌then◌else◌,
}

abbrev pub hot_task_id : ℕ
hot_task_id = 999

abbrev pub trigger_task_id : ℕ
trigger_task_id = 1

pub data QueueMode : Type 0 where
  queue_fifo queue_runnext : QueueMode

pub record Task : Type 0 where
  pub id : ℕ
  pub producer : ℕ

pub record Proc : Type 0 where
  pub id : ℕ
  pub runq : List Task
  pub runnext : Option Task

pub new_proc : ℕ → Proc
new_proc id = record { id = id; runq = []; runnext = none }

abbrev is_some {ℓ} : {A : Type ℓ} → Option A → Bool
is_some none = false
is_some (some a) = true

pub has_work : Proc → Bool
has_work p = is_some p.runnext || ltb 0 (length p.runq)

-- The older entry of the slot goes to the tail of the queue.
put_runnext : Proc → Option Task → Task → Proc
put_runnext p none t = record p { runnext = some t }
put_runnext p (some old) t = record p { runq = p.runq ++ old ∷ []; runnext = some t }

pub enqueue : Proc → QueueMode → Task → Proc
unfolding put_runnext
enqueue p queue_runnext t = put_runnext p p.runnext t
enqueue p queue_fifo t = record p { runq = p.runq ++ t ∷ [] }

-- `none` is the result `(Task{}, false)`, which leaves the processor as it is.
pop_from : Proc → Option Task → List Task → Option (Task × Proc)
pop_from p (some t) q = some (t, record p { runnext = none })
pop_from p none [] = none
pop_from p none (t ∷ rest) = some (t, record p { runq = rest })

pub pop_local : Proc → Option (Task × Proc)
unfolding pop_from
pop_local p = pop_from p p.runnext p.runq

-- The stolen tasks, and the victim afterwards.
pub steal_half : Proc → List Task × Proc
steal_half victim =
    let n = length victim.runq in
    let steal = (n + 1) / 2 in
    if n == 0
    then ([], victim)
    else (take steal victim.runq, record victim { runq = drop steal victim.runq })

pub data Note : Type 0 where
  ran : Note
  enqueued_via : QueueMode → Note
  stole_and_ran : ℕ → Note

pub record TraceEvent : Type 0 where
  pub tick : ℕ
  pub proc : ℕ
  pub task_id : ℕ
  pub note : Note

-- The loop's variables: both processors and the fields of `LatencyResult` that it writes.
pub record HotRun : Type 0 where
  pub p0 : Proc
  pub p1 : Proc
  pub hot_tick : Option ℕ
  pub stolen : ℕ
  pub events : List TraceEvent

abbrev pub logs : HotRun → TraceEvent → HotRun
logs s e = record s { events = s.events ++ e ∷ [] }

-- A turn ends with `true` where the source leaves the loop by `break`.
p0_runs : QueueMode → ℕ → HotRun → Task → HotRun × Bool
unfolding enqueue
p0_runs mode tick s t =
    let s' = logs s (record { tick = tick; proc = 0; task_id = t.id; note = ran }) in
    if t.id == hot_task_id
    then (record s' { hot_tick = some tick }, true)
    else if t.id == trigger_task_id
    then (
      logs (record s' { p0 = enqueue s'.p0 mode (record { id = hot_task_id; producer = 0 }) })
          (record { tick = tick; proc = 0; task_id = hot_task_id; note = enqueued_via mode }),
      false,
    )
    else (s', false)

pub p0_turn : QueueMode → ℕ → HotRun → HotRun × Bool
unfolding p0_runs pop_local
p0_turn mode tick s = elim (pop_local s.p0) [
  | none ↦ (s, false)
  | some (t, p) ↦ p0_runs mode tick (record s { p0 = p }) t
]

p1_runs : QueueMode → ℕ → HotRun → Task → HotRun × Bool
unfolding enqueue
p1_runs mode tick s t =
    let s' = logs s (record { tick = tick; proc = 1; task_id = t.id; note = ran }) in
    if t.id == hot_task_id
    then (record s' { hot_tick = some tick }, true)
    else if t.id == trigger_task_id
    then (
      logs (record s' { p1 = enqueue s'.p1 mode (record { id = hot_task_id; producer = 1 }) })
          (record { tick = tick; proc = 1; task_id = hot_task_id; note = enqueued_via mode }),
      false,
    )
    else (s', false)

-- The first stolen task runs at once, and the rest goes to the tail of P1's queue.
p1_stole : QueueMode → ℕ → HotRun → List Task → HotRun × Bool
unfolding enqueue
p1_stole mode tick s [] = (s, false)
p1_stole mode tick s (first ∷ rest) =
    let n = length (first ∷ rest) in
    let s' =
      logs (record s { stolen = s.stolen + n })
        (record { tick = tick; proc = 1; task_id = first.id; note = stole_and_ran n }) in
    let p =
      if first.id == trigger_task_id
      then enqueue s'.p1 mode (record { id = hot_task_id; producer = 1 })
      else s'.p1 in
    if first.id == hot_task_id
    then (record s' { hot_tick = some tick }, true)
    else (record s' { p1 = record p { runq = p.runq ++ rest } }, false)

pub p1_turn : QueueMode → ℕ → HotRun → HotRun × Bool
unfolding p1_runs p1_stole pop_local steal_half
p1_turn mode tick s = elim (pop_local s.p1) [
  | some (t, p) ↦ p1_runs mode tick (record s { p1 = p }) t
  | none ↦
      let (stolen, victim) = steal_half s.p0 in p1_stole mode tick (record s { p0 = victim }) stolen
]

-- `for tick < 100`, with the ticks left as fuel.
pub loop : QueueMode → ℕ → ℕ → HotRun → HotRun
unfolding p0_turn p1_turn
loop mode zero tick s = s
loop mode (suc left) tick s =
    let (s0, found0) = p0_turn mode tick s in
    let (s1, found1) = p1_turn mode tick s0 in
    let rest = loop mode left (tick + 1) s1 in if found0 then s0 else if found1 then s1 else rest

tasks_from : ℕ → ℕ → List Task
tasks_from zero i = []
tasks_from (suc n) i = record { id = i; producer = 0 } ∷ tasks_from n (i + 1)

pub run_hot_latency : QueueMode → HotRun
unfolding loop tasks_from new_proc
run_hot_latency mode = loop mode 100 0 (record {
  p0 = record (new_proc 0) { runq = tasks_from 10 1 };
  p1 = new_proc 1;
  hot_tick = none;
  stolen = 0;
  events = [];
})
