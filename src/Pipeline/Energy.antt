-- ===== src/Pipeline/Energy.antt =====
-- A bound on the moves of the pipeline of adv020_pipeline_shutdown/main.go.
use go_daily_learning.Prelude.{
  ℕ, ◌+◌, ◌*◌, ◌≤◌, ◌<◌, ◌≡◌, Bool, some, List, if◌then◌else◌, arith, length,
}
use go_daily_learning.Steps.{enabled, enabled-bound}
use go_daily_learning.Threads.{World, total, total-set, total-replicate_times}
use go_daily_learning.Parties.{party_move-cases}
use go_daily_learning.Pipeline.{
  Producer, producing, closed_in, Worker, reading, holding, worker_ended, Output, waiting, carrying,
  output_ended, Stage, Hub, StageMove, gives, worker_ends, passes, output_ends, delivers, HubMove,
  producer_ends, closes, checks, consumer_ends, drains, cancels, stage_act, hub_act, Finder, Move,
  move, pipeline, Consumer, ranging, checking, returned, draining,
}

-- A measure that every move lowers.
abbrev consumer_energy : Consumer → ℕ
consumer_energy ranging = 3
consumer_energy (checking v) = 5
consumer_energy (returned r) = 2
consumer_energy (draining r) = 1

abbrev worker_energy : Worker → ℕ
worker_energy reading = 1
worker_energy (holding v) = 7
worker_energy worker_ended = 0

abbrev output_energy : Output → ℕ
output_energy waiting = 1
output_energy (carrying v) = 5
output_energy output_ended = 0

abbrev producer_energy : Producer → ℕ
producer_energy (producing vs) = 1 + 8 * length vs
producer_energy closed_in = 0

abbrev flag_energy : Bool → ℕ
flag_energy b = if b then 0 else 1

abbrev stage_energy : Stage → ℕ
stage_energy t = worker_energy t.worker + output_energy t.output

abbrev hub_energy : Hub → ℕ
hub_energy h =
    consumer_energy h.consumer
    + producer_energy h.producer
    + flag_energy h.out_closed
    + flag_energy h.canceled

energy : World Hub Stage → ℕ
energy w = hub_energy w.shared + total stage_energy w.threads

stage_act-energy :
    (k : StageMove) (h h' : Hub) (t t' : Stage)
    → stage_act k h t ≡ some (h', t')
    → hub_energy h' + stage_energy t' < hub_energy h + stage_energy t
stage_act-energy gives h h' t t' e = ground arith
stage_act-energy worker_ends h h' t t' e = ground arith
stage_act-energy passes h h' t t' e = ground arith
stage_act-energy output_ends h h' t t' e = ground arith
stage_act-energy delivers h h' t t' e = ground arith

hub_act-energy :
    (f : Finder) (target : ℕ) (k : HubMove) (h h' : Hub) (ts : List Stage)
    → hub_act f target k h ts ≡ some h'
    → hub_energy h' < hub_energy h
hub_act-energy f target producer_ends h h' ts e = ground arith
hub_act-energy f target closes h h' ts e = ground arith
hub_act-energy f target checks h h' ts e = ground arith
hub_act-energy f target consumer_ends h h' ts e = ground arith
hub_act-energy f target drains h h' ts e = ground arith
hub_act-energy f target cancels h h' ts e = ground arith

Below : World Hub Stage → World Hub Stage → Type 0
unfolding energy
Below w w' = energy w' < energy w

move-energy :
    (f : Finder) (target : ℕ) (w w' : World Hub Stage) (m : Move)
    → move f target w m ≡ some w'
    → energy w' < energy w
unfolding energy Below
move-energy f target w w' m e =
    party_move-cases stage_act (hub_act f target) (Below w) w w' m
      (λ k i t t' h g a.
        omega
          (arith, stage_act-energy k w.shared h t t' a, total-set stage_energy w.threads i t t' g))
      (λ k h q a. omega (arith, hub_act-energy f target k w.shared h w.threads a)) e

-- Whatever the interleaving, at most `8 * length vals + 2 * workers + 6` moves ever happen: every
-- goroutine of the pipeline and its consumer stop, by ending or by blocking for ever.
pub run_pipeline-bound :
    (f : Finder) (target workers : ℕ) (vals : List ℕ) (ms : List Move)
    → enabled (move f target) ms (pipeline workers vals) ≤ 8 * length vals + 2 * workers + 6
unfolding energy
run_pipeline-bound f target workers vals ms =
    let b =
      enabled-bound (move f target) energy (move-energy f target) ms (pipeline workers vals) in
    let t : Stage = record { worker = reading; output = waiting } in
    let r = total-replicate_times stage_energy workers t in omega (arith, b, r)
