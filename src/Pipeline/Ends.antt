-- ===== src/Pipeline/Ends.antt =====
-- How the goroutines of adv020_pipeline_shutdown/main.go end, over every run.
use go_daily_learning.Prelude.{
  ℕ, suc, ◌+◌, ◌≤◌, ◌≡◌, refl, sym, ◌∙◌, true, false, some, List, [], ◌∷◌, map, get_elem?, set,
  arith, Bool-cases, ◌⊎◌, inl, inr,
}
use go_daily_learning.Steps.{run_moves-keeps}
use go_daily_learning.Threads.{
  World, total, total-set, total-here, total-replicate, total-replicate_one,
}
use go_daily_learning.Parties.{party_move-cases}
use go_daily_learning.Pipeline.{
  Producer, producing, closed_in, reading, holding, worker_ended, waiting, carrying, output_ended,
  Stage, Hub, square, StageMove, gives, worker_ends, passes, output_ends, delivers, HubMove,
  producer_ends, closes, checks, consumer_ends, drains, cancels, stage_act, hub_act, Finder, Move,
  move, pipeline, run_pipeline, live_output,
}
use go_daily_learning.Pipeline.Conserve.{occ, in_flight, pending, pipeline-Inv}

abbrev pub one : Stage → ℕ
one t = 1

abbrev pub worker_done : Stage → ℕ
worker_done t = elim t.worker [ worker_ended ↦ 1 | reading ↦ 0 | holding v ↦ 0 ]

-- An output goroutine that ended before its worker.
abbrev pub early : Stage → ℕ
early t = elim t.output [
  | output_ended ↦ elim t.worker [ worker_ended ↦ 0 | reading ↦ 1 | holding v ↦ 1 ]
  | waiting ↦ 0
  | carrying v ↦ 0
]

abbrev pub open_in : Producer → ℕ
open_in (producing vs) = 1
open_in closed_in = 0

record StageStep (h h' : Hub) (t t' : Stage) : Type 0 where
  same : h'.canceled ≡ h.canceled
  out : h'.out_closed ≡ h.out_closed
  live : live_output t' ≤ live_output t
  no_early : h.canceled ≡ false → early t ≡ 0 → early t' ≡ 0
  in_order :
      h.canceled ≡ false
      → open_in h'.producer ≡ 1
      → (open_in h.producer ≡ 1) × (worker_done t' ≡ worker_done t)

stage_act-StageStep :
    (k : StageMove) (h h' : Hub) (t t' : Stage)
    → stage_act k h t ≡ some (h', t')
    → StageStep h h' t t'
stage_act-StageStep gives h h' t t' e = record {
  same = ground arith;
  out = ground arith;
  live = ground arith;
  no_early = λ c y. ground arith;
  in_order = λ c o. (ground arith, ground arith);
}
stage_act-StageStep worker_ends h h' t t' e = record {
  same = ground arith;
  out = ground arith;
  live = ground arith;
  no_early = λ c y. ground arith;
  in_order = λ c o. (ground arith, ground arith);
}
stage_act-StageStep passes h h' t t' e = record {
  same = ground arith;
  out = ground arith;
  live = ground arith;
  no_early = λ c y. ground arith;
  in_order = λ c o. (ground arith, ground arith);
}
stage_act-StageStep output_ends h h' t t' e = record {
  same = ground arith;
  out = ground arith;
  live = ground arith;
  no_early = λ c y. ground arith;
  in_order = λ c o. (ground arith, ground arith);
}
stage_act-StageStep delivers h h' t t' e = record {
  same = ground arith;
  out = ground arith;
  live = ground arith;
  no_early = λ c y. ground arith;
  in_order = λ c o. (ground arith, ground arith);
}

record HubStep (h h' : Hub) (ts : List Stage) : Type 0 where
  latched : h'.canceled ≡ false → h.canceled ≡ false
  out : h'.out_closed ≡ true → (h.out_closed ≡ false → total live_output ts ≡ 0)
  opened : open_in h'.producer ≡ 1 → open_in h.producer ≡ 1

hub_act-HubStep :
    (f : Finder) (target : ℕ) (k : HubMove) (h h' : Hub) (ts : List Stage)
    → hub_act f target k h ts ≡ some h'
    → HubStep h h' ts
hub_act-HubStep f target producer_ends h h' ts e = record {
  latched = λ c. ground arith;
  out = λ c d. ground arith;
  opened = λ c. ground arith;
}
hub_act-HubStep f target closes h h' ts e = record {
  latched = λ c. ground arith;
  out = λ c d. ground arith;
  opened = λ c. ground arith;
}
hub_act-HubStep f target checks h h' ts e = record {
  latched = λ c. ground arith;
  out = λ c d. ground arith;
  opened = λ c. ground arith;
}
hub_act-HubStep f target consumer_ends h h' ts e = record {
  latched = λ c. ground arith;
  out = λ c d. ground arith;
  opened = λ c. ground arith;
}
hub_act-HubStep f target drains h h' ts e = record {
  latched = λ c. ground arith;
  out = λ c d. ground arith;
  opened = λ c. ground arith;
}
hub_act-HubStep f target cancels h h' ts e = record {
  latched = λ c. ground arith;
  out = λ c d. ground arith;
  opened = λ c. ground arith;
}

pub record Inv (n : ℕ) (w : World Hub Stage) : Type 0 where
  pub workers : total one w.threads ≡ n
  pub closed : w.shared.out_closed ≡ true → total live_output w.threads ≡ 0
  pub no_early : w.shared.canceled ≡ false → total early w.threads ≡ 0
  pub in_order :
      w.shared.canceled ≡ false → open_in w.shared.producer ≡ 1 → total worker_done w.threads ≡ 0

on_stage-Inv :
    (n : ℕ) (w : World Hub Stage) (k : StageMove) (i : ℕ) (t t' : Stage) (h : Hub)
    → get_elem? w.threads i ≡ some t
    → stage_act k w.shared t ≡ some (h, t')
    → Inv n w
    → Inv n (record { shared = h; threads = set w.threads i t' })
on_stage-Inv n w k i t t' h g a inv =
    let s = stage_act-StageStep k w.shared h t t' a in
    record {
      workers = omega (arith, inv.workers, total-set one w.threads i t t' g);
      closed = λ c.
          let z = inv.closed (sym s.out ∙ c) in
          let here = total-here live_output w.threads i t g in
          omega (arith, z, here, s.live, total-set live_output w.threads i t t' g);
      no_early = λ c.
          let z = inv.no_early (sym s.same ∙ c) in
          let here = total-here early w.threads i t g in
          let y = s.no_early (sym s.same ∙ c) (omega (arith, z, here)) in
          omega (arith, z, y, total-set early w.threads i t t' g);
      in_order = λ c o.
          let (p, q) = s.in_order (sym s.same ∙ c) o in
          let z = inv.in_order (sym s.same ∙ c) p in
          omega (arith, z, q, total-set worker_done w.threads i t t' g);
    }

on_hub-Inv :
    (f : Finder) (target n : ℕ) (w : World Hub Stage) (k : HubMove) (h : Hub)
    → hub_act f target k w.shared w.threads ≡ some h
    → Inv n w
    → Inv n (record w { shared = h })
on_hub-Inv f target n w k h a inv =
    let s = hub_act-HubStep f target k w.shared h w.threads a in
    record {
      workers = inv.workers;
      closed =
          λ c. elim (Bool-cases w.shared.out_closed) [ inl o ↦ inv.closed o | inr o ↦ s.out c o ];
      no_early = λ c. inv.no_early (s.latched c);
      in_order = λ c o. inv.in_order (s.latched c) (s.opened o);
    }

pub pipeline-Inv_ends :
    (f : Finder) (target workers : ℕ) (vals : List ℕ) (ms : List Move)
    → Inv workers (run_pipeline f target workers vals ms)
unfolding run_pipeline
pipeline-Inv_ends f target workers vals ms =
    run_moves-keeps (move f target) (Inv workers)
      (λ w w' m e inv.
        party_move-cases stage_act (hub_act f target) (Inv workers) w w' m
          (λ k i t t' h g a. on_stage-Inv workers w k i t t' h g a inv)
          (λ k h q a. on_hub-Inv f target workers w k h a inv) e)
      ms (pipeline workers vals)
      (let t : Stage = record { worker = reading; output = waiting } in
        record {
          workers = total-replicate_one one workers t refl;
          closed = λ c. absurd (ground arith);
          no_early = λ c. total-replicate early workers t refl;
          in_order = λ c o. total-replicate worker_done workers t refl;
        })

all_ended :
    (x : ℕ) (ts : List Stage)
    → total live_output ts ≡ 0
    → total early ts ≡ 0
    → (total (in_flight x) ts ≡ 0) × (total worker_done ts ≡ total one ts)
all_ended x [] l e = (refl, refl)
all_ended x (t ∷ ts) l e =
    let (p, q) = all_ended x ts (omega arith) (omega arith) in (ground arith, ground arith)

open_or_empty : (x : ℕ) (p : Producer) → (open_in p ≡ 1) ⊎ (pending x p ≡ 0)
open_or_empty x (producing vs) = inl refl
open_or_empty x closed_in = inr refl

nothing_left :
    (x n : ℕ) (w : World Hub Stage)
    → w.shared.canceled ≡ false
    → Inv (suc n) w
    → w.shared.out_closed ≡ true
    → total (in_flight x) w.threads + pending x w.shared.producer ≡ 0
nothing_left x n w c inv o =
    let (p, q) = all_ended x w.threads (inv.closed o) (inv.no_early c) in
    elim (open_or_empty x w.shared.producer) [
      | inl o1 ↦ absurd (omega (arith, q, inv.workers, inv.in_order c o1))
      | inr empty ↦ omega (arith, p, empty)
    ]

-- When `Merge` closes its channel and `ctx` was not canceled, every square was received or drained,
-- as often as it is among the squares of the values that went in (with at least one worker).
pub out_closed-delivered :
    (f : Finder) (target n : ℕ) (vals : List ℕ) (ms : List Move)
    → let w = run_pipeline f target (suc n) vals ms in
      w.shared.canceled ≡ false
      → w.shared.out_closed ≡ true
      → (x : ℕ) → occ x w.shared.received + occ x w.shared.drained ≡ occ x (map square vals)
out_closed-delivered f target n vals ms c o x =
    let w = run_pipeline f target (suc n) vals ms in
    let inv = pipeline-Inv x f target (suc n) vals ms in
    let z = nothing_left x n w c (pipeline-Inv_ends f target (suc n) vals ms) o in
    omega (arith, inv.alive c, z)
