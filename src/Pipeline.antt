-- ===== src/Pipeline.antt =====
-- adv020_pipeline_shutdown/main.go: `Produce` feeds the workers of `Square`, `Merge` has an output
-- goroutine for each worker, and `FindFirst` or `WrongFindFirstLeak` consumes what comes out. The
-- channels have no buffer, so a send and its receive are one move of two goroutines. A `select`
-- takes either of its ready cases. An `int` is its 64-bit pattern.
pub mod Conserve
pub mod Ends
pub mod Find
pub mod Energy
pub mod Progress
pub mod Leak
mod Examples
use go_daily_learning.Prelude.{
  ℕ, zero, suc, ◌*◌, ◌%◌, ◌^◌, ◌≡◌, refl, ap, ◌∙◌, subst, arith, some-injective, Bool, true, false,
  Option, none, some, List, [], ◌∷◌, map, ◌==◌, ◌&&◌, not, if◌then◌else◌, get_elem?, set,
}
use go_daily_learning.Parties.{PartyMove, on_thread, on_shared, party_move}
use go_daily_learning.Steps.{run_moves}
use go_daily_learning.Threads.{World, total, replicate}

abbrev pub square : ℕ → ℕ
square v = v * v % 2 ^ 64

-- The goroutine of `Produce` with the values it has not sent, or after it closed its channel.
pub data Producer : Type 0 where
  producing : List ℕ → Producer
  closed_in : Producer

-- The goroutine of `Square`: at its first `select`, at its second one with the square, or after it
-- closed its channel.
pub data Worker : Type 0 where
  reading : Worker
  holding : ℕ → Worker
  worker_ended : Worker

-- A goroutine `output` of `Merge`, the same way.
pub data Output : Type 0 where
  waiting : Output
  carrying : ℕ → Output
  output_ended : Output

pub record Stage : Type 0 where
  pub worker : Worker
  pub output : Output

-- The consumer in its `range` loop, with a value it has received, after it returned, and in the
-- draining loop of `main`.
pub data Consumer : Type 0 where
  ranging : Consumer
  checking : ℕ → Consumer
  returned : Option ℕ → Consumer
  draining : Option ℕ → Consumer

pub data Finder : Type 0 where
  find_first : Finder
  wrong_find_first_leak : Finder

pub record Hub : Type 0 where
  pub canceled : Bool
  pub producer : Producer
  pub out_closed : Bool
  pub consumer : Consumer
  pub received : List ℕ
  pub drained : List ℕ

-- A `ctx` that is canceled already makes `Produce` close its channel and start nothing.
abbrev pub produce : Bool → List ℕ → Producer
produce canceled vals = if canceled then closed_in else producing vals

-- The send of `Produce` to a worker.
abbrev pub give : Hub → Producer → Worker → Option (Hub × Worker)
give h (producing (v ∷ vs)) reading =
    some (record h { producer = producing vs }, holding (square v))
give h (producing (v ∷ vs)) (holding w) = none
give h (producing (v ∷ vs)) worker_ended = none
give h (producing []) w = none
give h closed_in w = none

-- A worker returns on `ctx.Done()`, or on a closed channel where it reads.
abbrev pub end_worker : Bool → Producer → Worker → Option Worker
end_worker canceled p worker_ended = none
end_worker true p reading = some worker_ended
end_worker true p (holding v) = some worker_ended
end_worker false p (holding v) = none
end_worker false (producing vs) reading = none
end_worker false closed_in reading = some worker_ended

-- The send of a worker to its output goroutine.
abbrev pub pass : Worker → Output → Option Stage
pass (holding v) waiting = some (record { worker = reading; output = carrying v })
pass (holding v) (carrying w) = none
pass (holding v) output_ended = none
pass reading o = none
pass worker_ended o = none

abbrev pub end_output : Bool → Worker → Output → Option Output
end_output canceled w output_ended = none
end_output true w waiting = some output_ended
end_output true w (carrying v) = some output_ended
end_output false w (carrying v) = none
end_output false worker_ended waiting = some output_ended
end_output false reading waiting = none
end_output false (holding v) waiting = none

-- What a consumer that receives does with a value.
abbrev pub receive_value : Hub → Consumer → ℕ → Option Hub
receive_value h ranging v = some (record h { consumer = checking v; received = v ∷ h.received })
receive_value h (checking w) v = none
receive_value h (returned r) v = none
receive_value h (draining r) v = some (record h { drained = v ∷ h.drained })

abbrev pub deliver : Hub → Output → Option (Hub × Output)
deliver h waiting = none
deliver h output_ended = none
deliver h (carrying v) = elim (receive_value h h.consumer v) [
  | none ↦ none
  | some h' ↦ some (h', waiting)
]

-- The moves of one stage.
pub data StageMove : Type 0 where
  gives : StageMove
  worker_ends : StageMove
  passes : StageMove
  output_ends : StageMove
  delivers : StageMove

abbrev pub stage_act : StageMove → Hub → Stage → Option (Hub × Stage)
stage_act gives h t = elim (give h h.producer t.worker) [
  | none ↦ none
  | some (h', w) ↦ some (h', record t { worker = w })
]
stage_act worker_ends h t = elim (end_worker h.canceled h.producer t.worker) [
  | none ↦ none
  | some w ↦ some (h, record t { worker = w })
]
stage_act passes h t = elim (pass t.worker t.output) [ none ↦ none | some t' ↦ some (h, t') ]
stage_act output_ends h t = elim (end_output h.canceled t.worker t.output) [
  | none ↦ none
  | some o ↦ some (h, record t { output = o })
]
stage_act delivers h t = elim (deliver h t.output) [
  | none ↦ none
  | some (h', o) ↦ some (h', record t { output = o })
]

-- The other moves: the end of the producer, the closing goroutine of `Merge`, the consumer, and a
-- cancellation from outside.
pub data HubMove : Type 0 where
  producer_ends : HubMove
  closes : HubMove
  checks : HubMove
  consumer_ends : HubMove
  drains : HubMove
  cancels : HubMove

abbrev pub end_producer : Bool → Producer → Option Producer
end_producer canceled closed_in = none
end_producer canceled (producing []) = some closed_in
end_producer true (producing (v ∷ vs)) = some closed_in
end_producer false (producing (v ∷ vs)) = none

-- The body of the consumer's loop.
abbrev pub check : Finder → ℕ → Hub → ℕ → Hub
check find_first target h v =
    if h.canceled
    then record h { consumer = returned none }
    else if v == target
    then record h { canceled = true; consumer = returned (some v) }
    else record h { consumer = ranging }
check wrong_find_first_leak target h v =
    if v == target
    then record h { consumer = returned (some v) }
    else record h { consumer = ranging }

-- The count of the `WaitGroup` of `Merge`.
abbrev pub live_output : Stage → ℕ
live_output t = elim t.output [ output_ended ↦ 0 | waiting ↦ 1 | carrying v ↦ 1 ]

-- `main` drains at once after `FindFirst`, and after `WrongFindFirstLeak` once it has canceled.
abbrev pub may_drain : Finder → Bool → Bool
may_drain find_first canceled = true
may_drain wrong_find_first_leak canceled = canceled

abbrev consumer_act : Finder → ℕ → HubMove → Hub → Consumer → Option Hub
consumer_act f target checks h (checking v) = some (check f target h v)
consumer_act f target consumer_ends h ranging =
    if h.out_closed then some (record h { consumer = returned none }) else none
consumer_act f target drains h (returned r) =
    if may_drain f h.canceled then some (record h { consumer = draining r }) else none
consumer_act f target _ h _ = none

abbrev pub hub_act : Finder → ℕ → HubMove → Hub → List Stage → Option Hub
hub_act f target producer_ends h ts = elim (end_producer h.canceled h.producer) [
  | none ↦ none
  | some p ↦ some (record h { producer = p })
]
hub_act f target closes h ts =
    if total live_output ts == 0 && not h.out_closed
    then some (record h { out_closed = true })
    else none
hub_act f target checks h ts = consumer_act f target checks h h.consumer
hub_act f target consumer_ends h ts = consumer_act f target consumer_ends h h.consumer
hub_act f target drains h ts = consumer_act f target drains h h.consumer
hub_act f target cancels h ts = if h.canceled then none else some (record h { canceled = true })

abbrev pub Move : Type 0
Move = PartyMove StageMove HubMove

abbrev pub move : Finder → ℕ → World Hub Stage → Move → Option (World Hub Stage)
move f target = party_move stage_act (hub_act f target)

-- The pipeline of `main` with a number of workers, before its first move.
abbrev pub pipeline : ℕ → List ℕ → World Hub Stage
pipeline workers vals = record {
  shared = record {
    canceled = false;
    producer = produce false vals;
    out_closed = false;
    consumer = ranging;
    received = [];
    drained = [];
  };
  threads = replicate workers (record { worker = reading; output = waiting });
}

unfoldable pub run_pipeline : Finder → ℕ → ℕ → List ℕ → List Move → World Hub Stage
run_pipeline f target workers vals ms = run_moves (move f target) ms (pipeline workers vals)
