-- ===== src/Pipeline/Progress.antt =====
-- The pipeline of adv020_pipeline_shutdown/main.go with `FindFirst` never gets stuck.
use go_daily_learning.Prelude.{
  ℕ, suc, ◌+◌, ◌<◌, ◌≡◌, refl, ap, Bool, true, false, some, List, [], ◌∷◌, if◌then◌else◌, get_elem?,
  arith, Bool-cases, ◌⊎◌, inl, inr, zero_or_more,
}
use go_daily_learning.Threads.{World, total, total-here, total-here, total-find}
use go_daily_learning.Parties.{on_thread, on_shared, party_move-on_thread, party_move-on_shared}
use go_daily_learning.Pipeline.{
  Producer, producing, closed_in, Worker, reading, holding, worker_ended, Output, waiting, carrying,
  output_ended, Stage, Hub, StageMove, gives, worker_ends, passes, output_ends, delivers, HubMove,
  producer_ends, closes, checks, consumer_ends, drains, cancels, stage_act, hub_act, find_first,
  Move, move, run_pipeline, check, live_output, Consumer, ranging, checking, returned, draining,
}
use go_daily_learning.Pipeline.Ends.{Inv, pipeline-Inv_ends, early, open_in, worker_done, one}

abbrev pub live_worker : Worker → ℕ
live_worker reading = 1
live_worker (holding v) = 1
live_worker worker_ended = 0

abbrev pub live_stage : Stage → ℕ
live_stage t = live_worker t.worker + live_output t

-- The goroutines of the pipeline that have not ended: the producer, the workers, the outputs and
-- the one that closes the channel of `Merge`.
abbrev pub goroutines : World Hub Stage → ℕ
goroutines w =
    total live_stage w.threads + open_in w.shared.producer + (if w.shared.out_closed then 0 else 1)

abbrev pub is_cancels : Move → Bool
is_cancels (on_thread k i) = false
is_cancels (on_shared producer_ends) = false
is_cancels (on_shared closes) = false
is_cancels (on_shared checks) = false
is_cancels (on_shared consumer_ends) = false
is_cancels (on_shared drains) = false
is_cancels (on_shared cancels) = true

abbrev receptive : Consumer → ℕ
receptive ranging = 1
receptive (checking v) = 0
receptive (returned r) = 0
receptive (draining r) = 1

Acts : Hub → Stage → Type 0
Acts h t = (k : StageMove) × (h' : Hub) × (t' : Stage) × (stage_act k h t ≡ some (h', t'))

stage_progress :
    (canceled out : Bool) (p : Producer) (c : Consumer) (rs ds : List ℕ) (w : Worker) (o : Output)
    → receptive c ≡ 1
    → 0 < live_stage (record { worker = w; output = o })
    → (canceled ≡ false → early (record { worker = w; output = o }) ≡ 0)
    → Acts
        (record {
          canceled = canceled;
          producer = p;
          out_closed = out;
          consumer = c;
          received = rs;
          drained = ds;
        })
        (record { worker = w; output = o })
      ⊎ ((canceled ≡ false) × (p ≡ producing []))
unfolding Acts
stage_progress canceled out p (checking u) rs ds w o r l e = absurd (ground arith)
stage_progress canceled out p (returned q) rs ds w o r l e = absurd (ground arith)
stage_progress canceled out p ranging rs ds w (carrying v) r l e = inl (delivers, _, _, refl)
stage_progress canceled out p (draining q) rs ds w (carrying v) r l e = inl (delivers, _, _, refl)
stage_progress canceled out p c rs ds (holding v) waiting r l e = inl (passes, _, _, refl)
stage_progress true out p c rs ds (holding v) output_ended r l e = inl (worker_ends, _, _, refl)
stage_progress false out p c rs ds (holding v) output_ended r l e = absurd (ground arith)
stage_progress true out p c rs ds reading o r l e = inl (worker_ends, _, _, refl)
stage_progress false out p c rs ds reading output_ended r l e = absurd (ground arith)
stage_progress false out (producing []) c rs ds reading waiting r l e = inr (refl, refl)
stage_progress false out (producing (v ∷ vs)) c rs ds reading waiting r l e =
    inl (gives, _, _, refl)
stage_progress false out closed_in c rs ds reading waiting r l e = inl (worker_ends, _, _, refl)
stage_progress true out p c rs ds worker_ended waiting r l e = inl (output_ends, _, _, refl)
stage_progress false out p c rs ds worker_ended waiting r l e = inl (output_ends, _, _, refl)
stage_progress canceled out p c rs ds worker_ended output_ended r l e = absurd (ground arith)

-- A move of the pipeline itself, not a cancellation from outside, that is enabled.
pub Goes : ℕ → World Hub Stage → Type 0
Goes target w =
    (m : Move) × (w' : World Hub Stage) × (is_cancels m ≡ false)
    × (move find_first target w m ≡ some w')

Goes-on_hub :
    (target : ℕ) (w : World Hub Stage) (k : HubMove) (h : Hub)
    → is_cancels (on_shared k) ≡ false
    → hub_act find_first target k w.shared w.threads ≡ some h
    → Goes target w
unfolding Goes
Goes-on_hub target w k h c a =
    (on_shared k, _, c, party_move-on_shared stage_act (hub_act find_first target) w k h a)

Goes-on_stage :
    (target : ℕ) (w : World Hub Stage) (i : ℕ) (t : Stage)
    → get_elem? w.threads i ≡ some t
    → Acts w.shared t
    → Goes target w
unfolding Goes Acts
Goes-on_stage target w i t g (k, h, t', a) = (
  on_thread k i,
  _,
  refl,
  party_move-on_thread stage_act (hub_act find_first target) w k i t t' h g a,
)

all_done :
    (ts : List Stage)
    → total live_stage ts ≡ 0
    → (total worker_done ts ≡ total one ts) × (total live_output ts ≡ 0)
all_done [] z = (refl, refl)
all_done (t ∷ ts) z = let (p, q) = all_done ts (omega arith) in (ground arith, ground arith)

producer-Goes :
    (target : ℕ) (w : World Hub Stage) (p : Producer)
    → w.shared.producer ≡ p
    → open_in p ≡ 1
    → w.shared.canceled ≡ true
    → Goes target w
producer-Goes target w (producing []) e o c =
    Goes-on_hub target w producer_ends (record w.shared { producer = closed_in }) refl
      (ground arith)
producer-Goes target w (producing (v ∷ vs)) e o c =
    Goes-on_hub target w producer_ends (record w.shared { producer = closed_in }) refl
      (ground arith)
producer-Goes target w closed_in e o c = absurd (ground arith)

-- With every stage ended, the closing goroutine or the producer goes on.
last-Goes :
    (target n : ℕ) (w : World Hub Stage)
    → Inv (suc n) w
    → total live_stage w.threads ≡ 0
    → 0 < goroutines w
    → Goes target w
last-Goes target n w inv z g =
    let (p, q) = all_done w.threads z in
    elim (Bool-cases w.shared.out_closed) [
      | inr o ↦
          Goes-on_hub target w closes (record w.shared { out_closed = true }) refl (ground arith)
      | inl o ↦ elim (Bool-cases w.shared.canceled) [
        | inl c ↦ producer-Goes target w w.shared.producer refl (ground arith) c
        | inr c ↦ absurd (let k = inv.in_order c in let m = inv.workers in ground arith)
      ]
    ]

live-Goes :
    (target n : ℕ) (w : World Hub Stage)
    → Inv (suc n) w
    → receptive w.shared.consumer ≡ 1
    → 0 < total live_stage w.threads
    → Goes target w
live-Goes target n w inv r l =
    let (i, t, g, p) = total-find live_stage w.threads l in
    elim (stage_progress w.shared.canceled w.shared.out_closed w.shared.producer w.shared.consumer
      w.shared.received w.shared.drained t.worker t.output r p
      (λ c. let z = inv.no_early c in omega (arith, z, total-here early w.threads i t g))) [
        | inl a ↦ Goes-on_stage target w i t g a
        | inr (c, q) ↦
            Goes-on_hub target w producer_ends (record w.shared { producer = closed_in }) refl
              (ground arith)
      ]

if_live :
    (target n : ℕ) (w : World Hub Stage)
    → Inv (suc n) w
    → 0 < goroutines w
    → receptive w.shared.consumer ≡ 1
    → Goes target w
if_live target n w inv g r = elim (zero_or_more (total live_stage w.threads)) [
  | inl z ↦ last-Goes target n w inv z g
  | inr l ↦ live-Goes target n w inv r l
]

-- While a goroutine of the pipeline is left, a move other than a cancellation from outside is
-- enabled in every state that `FindFirst` and at least one worker reach.
pub run_pipeline-Goes :
    (target n : ℕ) (vals : List ℕ) (ms : List Move)
    → let w = run_pipeline find_first target (suc n) vals ms in 0 < goroutines w → Goes target w
run_pipeline-Goes target n vals ms g =
    let w = run_pipeline find_first target (suc n) vals ms in
    by_consumer w (pipeline-Inv_ends find_first target (suc n) vals ms) g w.shared.consumer refl
  where
    by_consumer :
        (w : World Hub Stage)
        → Inv (suc n) w
        → 0 < goroutines w
        → (c : Consumer) → w.shared.consumer ≡ c
        → Goes target w
    by_consumer w inv g (checking v) e =
        Goes-on_hub target w checks (check find_first target w.shared v) refl (ground arith)
    by_consumer w inv g (returned r) e =
        Goes-on_hub target w drains (record w.shared { consumer = draining r }) refl (ground arith)
    by_consumer w inv g ranging e = if_live target n w inv g (ap receptive e)
    by_consumer w inv g (draining r) e = if_live target n w inv g (ap receptive e)
