-- ===== src/Pipeline/Conserve.antt =====
-- What becomes of the values in the pipeline of adv020_pipeline_shutdown/main.go, over every run.
use go_daily_learning.Prelude.{
  ℕ, ◌+◌, ◌≤◌, ◌≡◌, refl, sym, ◌∙◌, false, some, List, [], ◌∷◌, map, ◌==◌, if◌then◌else◌, arith,
}
use go_daily_learning.Steps.{run_moves-keeps}
use go_daily_learning.Threads.{World, total, total-set, total-replicate}
use go_daily_learning.Parties.{party_move-cases}
use go_daily_learning.Pipeline.{
  Producer, producing, closed_in, Worker, reading, holding, worker_ended, Output, waiting, carrying,
  output_ended, Stage, Hub, square, StageMove, gives, worker_ends, passes, output_ends, delivers,
  HubMove, producer_ends, closes, checks, consumer_ends, drains, cancels, stage_act, hub_act,
  Finder, Move, move, pipeline, run_pipeline,
}

abbrev pub hit : ℕ → ℕ → ℕ
hit x v = if x == v then 1 else 0

-- How often a value is in a list.
abbrev pub occ : ℕ → List ℕ → ℕ
occ x [] = 0
occ x (v ∷ vs) = hit x v + occ x vs

abbrev pub held_by_worker : ℕ → Worker → ℕ
held_by_worker x reading = 0
held_by_worker x (holding v) = hit x v
held_by_worker x worker_ended = 0

abbrev pub held_by_output : ℕ → Output → ℕ
held_by_output x waiting = 0
held_by_output x (carrying v) = hit x v
held_by_output x output_ended = 0

abbrev pub in_flight : ℕ → Stage → ℕ
in_flight x t = held_by_worker x t.worker + held_by_output x t.output

abbrev pub pending : ℕ → Producer → ℕ
pending x (producing vs) = occ x (map square vs)
pending x closed_in = 0

abbrev pub at_hub : ℕ → Hub → ℕ
at_hub x h = occ x h.received + occ x h.drained + pending x h.producer

module _ (x : ℕ) where
  -- A step of a stage loses nothing while `ctx` is alive, and duplicates nothing ever.
  record Kept (h h' : Hub) (t t' : Stage) : Type 0 where
    at_most : at_hub x h' + in_flight x t' ≤ at_hub x h + in_flight x t
    alive : h.canceled ≡ false → at_hub x h' + in_flight x t' ≡ at_hub x h + in_flight x t
    same : h'.canceled ≡ h.canceled

  stage_act-Kept :
      (k : StageMove) (h h' : Hub) (t t' : Stage) → stage_act k h t ≡ some (h', t') → Kept h h' t t'
  stage_act-Kept gives h h' t t' e = record {
    at_most = ground arith;
    alive = λ c. ground arith;
    same = ground arith;
  }
  stage_act-Kept worker_ends h h' t t' e = record {
    at_most = ground arith;
    alive = λ c. ground arith;
    same = ground arith;
  }
  stage_act-Kept passes h h' t t' e = record {
    at_most = ground arith;
    alive = λ c. ground arith;
    same = ground arith;
  }
  stage_act-Kept output_ends h h' t t' e = record {
    at_most = ground arith;
    alive = λ c. ground arith;
    same = ground arith;
  }
  stage_act-Kept delivers h h' t t' e = record {
    at_most = ground arith;
    alive = λ c. ground arith;
    same = ground arith;
  }

  record HubKept (h h' : Hub) : Type 0 where
    at_most : at_hub x h' ≤ at_hub x h
    alive : h'.canceled ≡ false → at_hub x h' ≡ at_hub x h
    latched : h'.canceled ≡ false → h.canceled ≡ false

  hub_act-HubKept :
      (f : Finder) (target : ℕ) (k : HubMove) (h h' : Hub) (ts : List Stage)
      → hub_act f target k h ts ≡ some h'
      → HubKept h h'
  hub_act-HubKept f target producer_ends h h' ts e = record {
    at_most = ground arith;
    alive = λ c. ground arith;
    latched = λ c. ground arith;
  }
  hub_act-HubKept f target closes h h' ts e = record {
    at_most = ground arith;
    alive = λ c. ground arith;
    latched = λ c. ground arith;
  }
  hub_act-HubKept f target checks h h' ts e = record {
    at_most = ground arith;
    alive = λ c. ground arith;
    latched = λ c. ground arith;
  }
  hub_act-HubKept f target consumer_ends h h' ts e = record {
    at_most = ground arith;
    alive = λ c. ground arith;
    latched = λ c. ground arith;
  }
  hub_act-HubKept f target drains h h' ts e = record {
    at_most = ground arith;
    alive = λ c. ground arith;
    latched = λ c. ground arith;
  }
  hub_act-HubKept f target cancels h h' ts e = record {
    at_most = ground arith;
    alive = λ c. ground arith;
    latched = λ c. ground arith;
  }

  pub record Inv (vals : List ℕ) (w : World Hub Stage) : Type 0 where
    pub at_most : at_hub x w.shared + total (in_flight x) w.threads ≤ occ x (map square vals)
    pub alive :
        w.shared.canceled ≡ false
        → at_hub x w.shared + total (in_flight x) w.threads ≡ occ x (map square vals)

  move-Inv :
      (vals : List ℕ) (f : Finder) (target : ℕ) (w w' : World Hub Stage) (m : Move)
      → move f target w m ≡ some w'
      → Inv vals w
      → Inv vals w'
  move-Inv vals f target w w' m e inv =
      party_move-cases stage_act (hub_act f target) (Inv vals) w w' m
        (λ k i t t' h g a.
          let kept = stage_act-Kept k w.shared h t t' a in
          let moved = total-set (in_flight x) w.threads i t t' g in
          record {
            at_most = omega (arith, kept.at_most, inv.at_most);
            alive = λ c.
                let d = inv.alive (sym kept.same ∙ c) in
                omega (arith, kept.alive (sym kept.same ∙ c));
          })
        (λ k h q a.
          let kept = hub_act-HubKept f target k w.shared h w.threads a in
          record {
            at_most = omega (arith, kept.at_most, inv.at_most);
            alive = λ c. let d = inv.alive (kept.latched c) in omega (arith, kept.alive c);
          })
        e

  pub pipeline-Inv :
      (f : Finder) (target workers : ℕ) (vals : List ℕ) (ms : List Move)
      → Inv vals (run_pipeline f target workers vals ms)
  unfolding run_pipeline
  pipeline-Inv f target workers vals ms =
      run_moves-keeps (move f target) (Inv vals) (λ w w' m. move-Inv vals f target w w' m) ms
        (pipeline workers vals)
        (let z =
            total-replicate (in_flight x) workers (record { worker = reading; output = waiting })
              refl in
          record { at_most = ground arith; alive = λ c. ground arith })

-- Over every run, whatever the consumer and whenever `ctx` is canceled, no value comes out of the
-- pipeline more often than it is among the squares of the values that went in.
pub run_pipeline-at_most :
    (f : Finder) (target workers : ℕ) (vals : List ℕ) (ms : List Move) (x : ℕ)
    → let w = run_pipeline f target workers vals ms in
      occ x w.shared.received + occ x w.shared.drained ≤ occ x (map square vals)
run_pipeline-at_most f target workers vals ms x =
    let inv = pipeline-Inv x f target workers vals ms in omega (arith, inv.at_most)
