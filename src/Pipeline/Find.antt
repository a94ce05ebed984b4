-- ===== src/Pipeline/Find.antt =====
-- What the consumers of adv020_pipeline_shutdown/main.go return, over every run.
use go_daily_learning.Prelude.{
  ℕ, suc, ◌<◌, ◌≡◌, refl, ap, true, false, Option, none, some, List, map, ◌==◌, if◌then◌else◌,
  arith,
}
use go_daily_learning.Steps.{run_moves-keeps}
use go_daily_learning.Threads.{World}
use go_daily_learning.Parties.{party_move-cases}
use go_daily_learning.Pipeline.{
  Stage, Hub, square, StageMove, gives, worker_ends, passes, output_ends, delivers, HubMove,
  producer_ends, closes, checks, consumer_ends, drains, cancels, stage_act, hub_act, Finder,
  find_first, Move, move, pipeline, run_pipeline, Consumer, ranging, checking, returned, draining,
}
use go_daily_learning.Pipeline.Conserve.{occ, hit, run_pipeline-at_most}
use go_daily_learning.Pipeline.Ends.{out_closed-delivered}

-- The value that a consumer returned as the one it found.
abbrev pub found : Consumer → Option ℕ
found ranging = none
found (checking v) = none
found (returned r) = r
found (draining r) = r

-- How often a consumer must have received the target.
abbrev seen : ℕ → Consumer → ℕ
seen target ranging = 0
seen target (checking v) = hit target v
seen target (returned none) = 0
seen target (returned (some v)) = 1
seen target (draining none) = 0
seen target (draining (some v)) = 1

abbrev wrong : ℕ → Consumer → ℕ
wrong target c = elim (found c) [ none ↦ 0 | some v ↦ if v == target then 0 else 1 ]

abbrev pub has_found : Consumer → ℕ
has_found c = elim (found c) [ none ↦ 0 | some v ↦ 1 ]

-- 1 when the consumer has returned without a value.
abbrev pub gave_up : Consumer → ℕ
gave_up ranging = 0
gave_up (checking v) = 0
gave_up (returned none) = 1
gave_up (returned (some v)) = 0
gave_up (draining none) = 1
gave_up (draining (some v)) = 0

abbrev is_draining : Consumer → ℕ
is_draining ranging = 0
is_draining (checking v) = 0
is_draining (returned r) = 0
is_draining (draining r) = 1

record Found (f : Finder) (target : ℕ) (h : Hub) : Type 0 where
  right : wrong target h.consumer ≡ 0
  announced : f ≡ find_first → has_found h.consumer ≡ 1 → h.canceled ≡ true
  seen_once : h.canceled ≡ false → occ target h.received ≡ seen target h.consumer
  looking : gave_up h.consumer ≡ 0 → occ target h.received ≡ seen target h.consumer
  at_end : h.canceled ≡ false → gave_up h.consumer ≡ 1 → h.out_closed ≡ true
  undrained : is_draining h.consumer ≡ 0 → occ target h.drained ≡ 0

stage_act-Found :
    (f : Finder) (target : ℕ) (k : StageMove) (h h' : Hub) (t t' : Stage)
    → stage_act k h t ≡ some (h', t')
    → Found f target h
    → Found f target h'
stage_act-Found f target gives h h' t t' e inv = record {
  right = let z = inv.right in ground arith;
  announced = λ p g. let z = inv.announced p in ground arith;
  seen_once = λ c. let z = inv.seen_once in ground arith;
  looking = λ g. let z = inv.looking in ground arith;
  at_end = λ c g. let z = inv.at_end in ground arith;
  undrained = λ d. let z = inv.undrained in ground arith;
}
stage_act-Found f target worker_ends h h' t t' e inv = record {
  right = let z = inv.right in ground arith;
  announced = λ p g. let z = inv.announced p in ground arith;
  seen_once = λ c. let z = inv.seen_once in ground arith;
  looking = λ g. let z = inv.looking in ground arith;
  at_end = λ c g. let z = inv.at_end in ground arith;
  undrained = λ d. let z = inv.undrained in ground arith;
}
stage_act-Found f target passes h h' t t' e inv = record {
  right = let z = inv.right in ground arith;
  announced = λ p g. let z = inv.announced p in ground arith;
  seen_once = λ c. let z = inv.seen_once in ground arith;
  looking = λ g. let z = inv.looking in ground arith;
  at_end = λ c g. let z = inv.at_end in ground arith;
  undrained = λ d. let z = inv.undrained in ground arith;
}
stage_act-Found f target output_ends h h' t t' e inv = record {
  right = let z = inv.right in ground arith;
  announced = λ p g. let z = inv.announced p in ground arith;
  seen_once = λ c. let z = inv.seen_once in ground arith;
  looking = λ g. let z = inv.looking in ground arith;
  at_end = λ c g. let z = inv.at_end in ground arith;
  undrained = λ d. let z = inv.undrained in ground arith;
}
stage_act-Found f target delivers h h' t t' e inv = record {
  right = let z = inv.right in ground arith;
  announced = λ p g. let z = inv.announced p in ground arith;
  seen_once = λ c. let z = inv.seen_once in ground arith;
  looking = λ g. let z = inv.looking in ground arith;
  at_end = λ c g. let z = inv.at_end in ground arith;
  undrained = λ d. let z = inv.undrained in ground arith;
}

hub_act-Found :
    (f : Finder) (target : ℕ) (k : HubMove) (h h' : Hub) (ts : List Stage)
    → hub_act f target k h ts ≡ some h'
    → Found f target h
    → Found f target h'
hub_act-Found f target producer_ends h h' ts e inv = record {
  right = let z = inv.right in ground arith;
  announced = λ p g. let z = inv.announced p in ground arith;
  seen_once = λ c. let z = inv.seen_once in ground arith;
  looking = λ g. let z = inv.looking in ground arith;
  at_end = λ c g. let z = inv.at_end in ground arith;
  undrained = λ d. let z = inv.undrained in ground arith;
}
hub_act-Found f target closes h h' ts e inv = record {
  right = let z = inv.right in ground arith;
  announced = λ p g. let z = inv.announced p in ground arith;
  seen_once = λ c. let z = inv.seen_once in ground arith;
  looking = λ g. let z = inv.looking in ground arith;
  at_end = λ c g. let z = inv.at_end in ground arith;
  undrained = λ d. let z = inv.undrained in ground arith;
}
hub_act-Found f target checks h h' ts e inv = record {
  right = let z = inv.right in ground arith;
  announced = λ p g. let z = inv.announced p in ground arith;
  seen_once = λ c. let z = inv.seen_once in ground arith;
  looking = λ g. let z = inv.looking in ground arith;
  at_end = λ c g. let z = inv.at_end in ground arith;
  undrained = λ d. let z = inv.undrained in ground arith;
}
hub_act-Found f target consumer_ends h h' ts e inv = record {
  right = let z = inv.right in ground arith;
  announced = λ p g. let z = inv.announced p in ground arith;
  seen_once = λ c. let z = inv.seen_once in ground arith;
  looking = λ g. let z = inv.looking in ground arith;
  at_end = λ c g. let z = inv.at_end in ground arith;
  undrained = λ d. let z = inv.undrained in ground arith;
}
hub_act-Found f target drains h h' ts e inv = record {
  right = let z = inv.right in ground arith;
  announced = λ p g. let z = inv.announced p in ground arith;
  seen_once = λ c. let z = inv.seen_once in ground arith;
  looking = λ g. let z = inv.looking in ground arith;
  at_end = λ c g. let z = inv.at_end in ground arith;
  undrained = λ d. let z = inv.undrained in ground arith;
}
hub_act-Found f target cancels h h' ts e inv = record {
  right = let z = inv.right in ground arith;
  announced = λ p g. let z = inv.announced p in ground arith;
  seen_once = λ c. let z = inv.seen_once in ground arith;
  looking = λ g. let z = inv.looking in ground arith;
  at_end = λ c g. let z = inv.at_end in ground arith;
  undrained = λ d. let z = inv.undrained in ground arith;
}

WorldFound : (f : Finder) (target : ℕ) → World Hub Stage → Type 0
WorldFound f target w = Found f target w.shared

run_pipeline-Found :
    (f : Finder) (target workers : ℕ) (vals : List ℕ) (ms : List Move)
    → Found f target (run_pipeline f target workers vals ms).shared
unfolding run_pipeline WorldFound
run_pipeline-Found f target workers vals ms =
    run_moves-keeps (move f target) (WorldFound f target)
      (λ w w' m e inv.
        party_move-cases stage_act (hub_act f target) (WorldFound f target) w w' m
          (λ k i t t' h g a. stage_act-Found f target k w.shared h t t' a inv)
          (λ k h q a. hub_act-Found f target k w.shared h w.threads a inv) e)
      ms (pipeline workers vals)
      (record {
        right = refl;
        announced = λ p g. absurd (ground arith);
        seen_once = λ c. refl;
        looking = λ g. refl;
        at_end = λ c g. absurd (ground arith);
        undrained = λ d. refl;
      })

-- A value that either consumer returns as found is the target, it is the square of a value that
-- went in, and when the consumer is `FindFirst`, `ctx` has been canceled.
pub found-target :
    (f : Finder) (target workers : ℕ) (vals : List ℕ) (ms : List Move) (v : ℕ)
    → let w = run_pipeline f target workers vals ms in
      found w.shared.consumer ≡ some v
      → (v ≡ target)
        × (0 < occ target (map square vals))
        × (f ≡ find_first → w.shared.canceled ≡ true)
found-target f target workers vals ms v e =
    let h = (run_pipeline f target workers vals ms).shared in
    let inv = run_pipeline-Found f target workers vals ms in
    let r = inv.right in
    let l = inv.looking in
    let m = run_pipeline-at_most f target workers vals ms target in
    ((ground arith), (ground arith), λ p. inv.announced p (ground arith))

-- When a consumer returned that it found nothing, and `ctx` was not canceled, the target is not
-- among the squares of the values that went in (with at least one worker).
pub gave_up-absent :
    (f : Finder) (target n : ℕ) (vals : List ℕ) (ms : List Move)
    → let w = run_pipeline f target (suc n) vals ms in
      w.shared.consumer ≡ returned none
      → w.shared.canceled ≡ false
      → occ target (map square vals) ≡ 0
gave_up-absent f target n vals ms e c =
    let h = (run_pipeline f target (suc n) vals ms).shared in
    let inv = run_pipeline-Found f target (suc n) vals ms in
    let d = out_closed-delivered f target n vals ms c (inv.at_end c (ap gave_up e)) target in
    let u = inv.undrained (ap is_draining e) in
    let s = inv.seen_once c in let s' = ap (seen target) e in omega (arith, d, u, s, s')
