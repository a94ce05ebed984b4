-- ===== src/Pipeline/Examples.antt =====
-- Runs of the pipeline of adv020_pipeline_shutdown/main.go with one worker.
use go_daily_learning.Prelude.{
  ℕ, ◌≡◌, ◌≤◌, ◌<◌, ◌+◌, refl, true, false, some, List, [], ◌∷◌, ◌++◌, map, arith,
}
use go_daily_learning.Steps.{run_moves, enabled}
use go_daily_learning.Parties.{on_thread, on_shared, party_move}
use go_daily_learning.Pipeline.{
  square, gives, worker_ends, passes, output_ends, delivers, producer_ends, closes, checks,
  consumer_ends, find_first, wrong_find_first_leak, Move, move, pipeline, run_pipeline, returned,
}
use go_daily_learning.Pipeline.Conserve.{occ}
use go_daily_learning.Pipeline.Ends.{out_closed-delivered}
use go_daily_learning.Pipeline.Find.{found-target}
use go_daily_learning.Pipeline.Energy.{run_pipeline-bound}
use go_daily_learning.Pipeline.Progress.{goroutines, Goes, run_pipeline-Goes}
use go_daily_learning.Pipeline.Leak.{wrong_find_first_leak-leaks}

abbrev one_value : List Move
one_value = on_thread gives 0 ∷ on_thread passes 0 ∷ on_thread delivers 0 ∷ on_shared checks ∷ []

abbrev shutdown : List Move
shutdown =
    on_shared producer_ends
    ∷ on_thread worker_ends 0
    ∷ on_thread output_ends 0
    ∷ on_shared closes
    ∷ on_shared consumer_ends
    ∷ []

abbrev whole_run : List Move
whole_run = one_value ++ one_value ++ shutdown

abbrev four : ℕ
four = 4

find_four : (run_pipeline find_first 4 1 (1 ∷ 2 ∷ []) whole_run).shared.consumer ≡ returned (some 4)
unfolding run_pipeline run_moves party_move
find_four = refl

find_four_ends : goroutines (run_pipeline find_first 4 1 (1 ∷ 2 ∷ []) whole_run) ≡ 0
unfolding run_pipeline run_moves party_move
find_four_ends = refl

out_closed-delivered_example :
    let w = run_pipeline find_first 5 1 (1 ∷ 2 ∷ []) whole_run in
    occ 4 w.shared.received + occ 4 w.shared.drained ≡ occ 4 (1 ∷ 4 ∷ [])
unfolding run_pipeline run_moves party_move
out_closed-delivered_example =
    out_closed-delivered find_first 5 0 (1 ∷ 2 ∷ []) whole_run refl refl 4

found-target_example :
    let w = run_pipeline find_first 4 1 (1 ∷ 2 ∷ []) whole_run in
    (four ≡ four)
    × (0 < occ four (map square (1 ∷ 2 ∷ [])))
    × (find_first ≡ find_first → w.shared.canceled ≡ true)
unfolding run_pipeline run_moves party_move
found-target_example = found-target find_first 4 1 (1 ∷ 2 ∷ []) whole_run 4 refl

run_pipeline-bound_example : enabled (move find_first 4) whole_run (pipeline 1 (1 ∷ 2 ∷ [])) ≤ 24
run_pipeline-bound_example = run_pipeline-bound find_first 4 1 (1 ∷ 2 ∷ []) whole_run

run_pipeline-Goes_example : Goes 4 (run_pipeline find_first 4 1 (1 ∷ 2 ∷ []) one_value)
unfolding run_pipeline run_moves party_move
run_pipeline-Goes_example = run_pipeline-Goes 4 0 (1 ∷ 2 ∷ []) one_value (omega arith)

wrong_find_first_leak-leaks_example :
    (run_pipeline wrong_find_first_leak 1 1 (1 ∷ 2 ∷ []) (one_value ++ one_value)).shared.out_closed
    ≡ false
unfolding run_pipeline run_moves party_move
wrong_find_first_leak-leaks_example =
    wrong_find_first_leak-leaks 1 0 1 4 (1 ∷ 2 ∷ []) one_value one_value refl refl (omega arith)
      refl
