-- ===== src/Pipeline/Leak.antt =====
-- The leak that adv020_pipeline_shutdown/main.go shows with `WrongFindFirstLeak`.
use go_daily_learning.Prelude.{
  ℕ, suc, ◌+◌, ◌<◌, ◌≡◌, refl, ap, subst, sym, Bool, true, false, some, List, map, not, ◌++◌, arith,
  Bool-cases, inl, inr,
}
use go_daily_learning.Steps.{run_moves, run_moves-append, run_moves-keeps_where, every}
use go_daily_learning.Threads.{World}
use go_daily_learning.Parties.{on_shared, party_move-cases}
use go_daily_learning.Pipeline.{
  Stage, Hub, square, StageMove, gives, worker_ends, passes, output_ends, delivers, HubMove,
  producer_ends, closes, checks, consumer_ends, drains, cancels, stage_act, hub_act,
  wrong_find_first_leak, Move, move, pipeline, run_pipeline, returned,
}
use go_daily_learning.Pipeline.Conserve.{occ}
use go_daily_learning.Pipeline.Ends.{out_closed-delivered}
use go_daily_learning.Pipeline.Progress.{is_cancels}

abbrev pub no_cancel : Move → Bool
no_cancel m = not (is_cancels m)

-- What stands still once the consumer has returned and nobody cancels.
record Stuck (v : ℕ) (rs ds : List ℕ) (h : Hub) : Type 0 where
  back : h.consumer ≡ returned (some v)
  alive : h.canceled ≡ false
  received_still : h.received ≡ rs
  drained_still : h.drained ≡ ds

module _ (v : ℕ) (rs ds : List ℕ) where
  stage_act-Stuck :
      (k : StageMove) (h h' : Hub) (t t' : Stage)
      → stage_act k h t ≡ some (h', t')
      → Stuck v rs ds h
      → Stuck v rs ds h'
  stage_act-Stuck gives h h' t t' e inv =
      let b = inv.back in
      let a = inv.alive in
      let r = inv.received_still in
      let d = inv.drained_still in
      record {
        back = ground arith;
        alive = ground arith;
        received_still = ground arith;
        drained_still = ground arith;
      }
  stage_act-Stuck worker_ends h h' t t' e inv =
      let b = inv.back in
      let a = inv.alive in
      let r = inv.received_still in
      let d = inv.drained_still in
      record {
        back = ground arith;
        alive = ground arith;
        received_still = ground arith;
        drained_still = ground arith;
      }
  stage_act-Stuck passes h h' t t' e inv =
      let b = inv.back in
      let a = inv.alive in
      let r = inv.received_still in
      let d = inv.drained_still in
      record {
        back = ground arith;
        alive = ground arith;
        received_still = ground arith;
        drained_still = ground arith;
      }
  stage_act-Stuck output_ends h h' t t' e inv =
      let b = inv.back in
      let a = inv.alive in
      let r = inv.received_still in
      let d = inv.drained_still in
      record {
        back = ground arith;
        alive = ground arith;
        received_still = ground arith;
        drained_still = ground arith;
      }
  stage_act-Stuck delivers h h' t t' e inv =
      let b = inv.back in
      let a = inv.alive in
      let r = inv.received_still in
      let d = inv.drained_still in
      record {
        back = ground arith;
        alive = ground arith;
        received_still = ground arith;
        drained_still = ground arith;
      }

  hub_act-Stuck :
      (target : ℕ) (k : HubMove) (h h' : Hub) (ts : List Stage)
      → no_cancel (on_shared k) ≡ true
      → hub_act wrong_find_first_leak target k h ts ≡ some h'
      → Stuck v rs ds h
      → Stuck v rs ds h'
  hub_act-Stuck target producer_ends h h' ts n e inv =
      let b = inv.back in
      let a = inv.alive in
      let r = inv.received_still in
      let d = inv.drained_still in
      record {
        back = ground arith;
        alive = ground arith;
        received_still = ground arith;
        drained_still = ground arith;
      }
  hub_act-Stuck target closes h h' ts n e inv =
      let b = inv.back in
      let a = inv.alive in
      let r = inv.received_still in
      let d = inv.drained_still in
      record {
        back = ground arith;
        alive = ground arith;
        received_still = ground arith;
        drained_still = ground arith;
      }
  hub_act-Stuck target checks h h' ts n e inv =
      let b = inv.back in
      let a = inv.alive in
      let r = inv.received_still in
      let d = inv.drained_still in
      record {
        back = ground arith;
        alive = ground arith;
        received_still = ground arith;
        drained_still = ground arith;
      }
  hub_act-Stuck target consumer_ends h h' ts n e inv =
      let b = inv.back in
      let a = inv.alive in
      let r = inv.received_still in
      let d = inv.drained_still in
      record {
        back = ground arith;
        alive = ground arith;
        received_still = ground arith;
        drained_still = ground arith;
      }
  hub_act-Stuck target drains h h' ts n e inv =
      let b = inv.back in
      let a = inv.alive in
      let r = inv.received_still in
      let d = inv.drained_still in
      record {
        back = ground arith;
        alive = ground arith;
        received_still = ground arith;
        drained_still = ground arith;
      }
  hub_act-Stuck target cancels h h' ts n e inv =
      let b = inv.back in
      let a = inv.alive in
      let r = inv.received_still in
      let d = inv.drained_still in
      record {
        back = ground arith;
        alive = ground arith;
        received_still = ground arith;
        drained_still = ground arith;
      }

  WorldStuck : World Hub Stage → Type 0
  WorldStuck w = Stuck v rs ds w.shared

  run_moves-Stuck :
      (target : ℕ) (ms : List Move) (w : World Hub Stage)
      → every no_cancel ms ≡ true
      → WorldStuck w
      → WorldStuck (run_moves (move wrong_find_first_leak target) ms w)
  unfolding WorldStuck
  run_moves-Stuck target ms w n s =
      run_moves-keeps_where (move wrong_find_first_leak target) no_cancel WorldStuck
        (λ w w' m. move_Stuck w w' m) ms w n s
    where
      move_Stuck :
          (w w' : World Hub Stage) (m : Move)
          → no_cancel m ≡ true
          → move wrong_find_first_leak target w m ≡ some w'
          → WorldStuck w
          → WorldStuck w'
      move_Stuck w w' m n e s =
          party_move-cases stage_act (hub_act wrong_find_first_leak target) WorldStuck w w' m
            (λ k i t t' h g a. stage_act-Stuck k w.shared h t t' a s)
            (λ k h q a. hub_act-Stuck target k w.shared h w.threads (ground arith) a s) e

-- Once `WrongFindFirstLeak` has returned a value, while `ctx` is not canceled and a square was not
-- delivered, the channel of `Merge` stays open, and so the goroutine that is to close it stays,
-- in every continuation in which nobody cancels (with at least one worker).
pub wrong_find_first_leak-leaks :
    (target n v x : ℕ) (vals : List ℕ) (ms ns : List Move)
    → let w = run_pipeline wrong_find_first_leak target (suc n) vals ms in
      w.shared.consumer ≡ returned (some v)
      → w.shared.canceled ≡ false
      → occ x w.shared.received + occ x w.shared.drained < occ x (map square vals)
      → every no_cancel ns ≡ true
      → (run_pipeline wrong_find_first_leak target (suc n) vals (ms ++ ns)).shared.out_closed
        ≡ false
unfolding run_pipeline WorldStuck
wrong_find_first_leak-leaks target n v x vals ms ns b c d o =
    let w = run_pipeline wrong_find_first_leak target (suc n) vals ms in
    let w' = run_pipeline wrong_find_first_leak target (suc n) vals (ms ++ ns) in
    let start : Stuck v w.shared.received w.shared.drained w.shared = record {
      back = b;
      alive = c;
      received_still = refl;
      drained_still = refl;
    } in
    let s = run_moves-Stuck v w.shared.received w.shared.drained target ns w o start in
    let j = run_moves-append (move wrong_find_first_leak target) ms ns (pipeline (suc n) vals) in
    let s' = subst (WorldStuck v w.shared.received w.shared.drained) (sym j) s in
    elim (Bool-cases w'.shared.out_closed) [
      | inr p ↦ p
      | inl p ↦ absurd (
          let d' =
            out_closed-delivered wrong_find_first_leak target n vals (ms ++ ns) s'.alive p x in
          omega (arith, d, d', ap (occ x) s'.received_still, ap (occ x) s'.drained_still))
    ]
