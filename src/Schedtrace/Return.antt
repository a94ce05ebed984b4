-- ===== src/Schedtrace/Return.antt =====
-- That `runChannelBurst` of adv008_schedtrace/main.go returns.
use go_daily_learning.Prelude.{
  ℕ, zero, suc, ◌+◌, ◌-◌, ◌*◌, ◌≤◌, ◌<◌, ◌≡◌, ◌≢◌, refl, ◌∙◌, Bool, true, false, some, List, [],
  inl, inr, get_elem?, arith, zero_or_more,
}
use go_daily_learning.Steps.{run_moves, run_moves-keeps, enabled, enabled-bound}
use go_daily_learning.Parties.{
  PartyMove, party_move-cases, on_thread, on_shared, party_move-on_thread, party_move-on_shared,
}
use go_daily_learning.Threads.{
  World, total, total-set, total-here, total-find, total-zero, total-replicate_one,
  total-replicate_times,
}
use go_daily_learning.Schedtrace.Burst.{
  Waiter, at_start, at_send, at_done, gone, Receiver, before_close, receiving, returned, Burst,
  WaiterMove, wakes, sends, finishes, waiter_act, BurstMove, closes, receives, returns, left,
  burst_act, burst_move, run_channel_burst,
}

abbrev unsent : Waiter → ℕ
unsent at_start = 1
unsent at_send = 1
unsent at_done = 0
unsent gone = 0

-- The values that the caller has not received yet.
abbrev due : ℕ → Receiver → ℕ
due n before_close = n
due n (receiving k) = k
due n returned = 0

abbrev not_started : Receiver → Bool
not_started before_close = true
not_started (receiving k) = false
not_started returned = false

record WaiterStep (b b' : Burst) (t t' : Waiter) : Type 0 where
  capacity : b'.capacity ≡ b.capacity
  receiver : b'.receiver ≡ b.receiver
  started : b'.started ≡ b.started
  sent : b'.buffered + unsent t' ≡ b.buffered + unsent t

waiter_act-WaiterStep :
    (k : WaiterMove) (b b' : Burst) (t t' : Waiter)
    → waiter_act k b t ≡ some (b', t')
    → WaiterStep b b' t t'
waiter_act-WaiterStep wakes b b' t t' e = record {
  capacity = ground arith;
  receiver = ground arith;
  started = ground arith;
  sent = ground arith;
}
waiter_act-WaiterStep sends b b' t t' e = record {
  capacity = ground arith;
  receiver = ground arith;
  started = ground arith;
  sent = ground arith;
}
waiter_act-WaiterStep finishes b b' t t' e = record {
  capacity = ground arith;
  receiver = ground arith;
  started = ground arith;
  sent = ground arith;
}

record Inv (n : ℕ) (w : World Burst Waiter) : Type 0 where
  capacity : w.shared.capacity ≡ n
  counted : w.shared.buffered + total unsent w.threads ≡ due n w.shared.receiver
  within : due n w.shared.receiver ≤ n
  started : not_started w.shared.receiver ≡ false → w.shared.started ≡ true

burst_act-Inv :
    (n : ℕ) (k : BurstMove) (w : World Burst Waiter) (b : Burst)
    → burst_act k w.shared w.threads ≡ some b
    → Inv n w
    → Inv n (record w { shared = b })
burst_act-Inv n closes w b e inv =
    let p = inv.capacity in
    let c = inv.counted in
    let i = inv.within in
    let s = inv.started in
    record {
      capacity = ground arith;
      counted = ground arith;
      within = ground arith;
      started = λ h. ground arith;
    }
burst_act-Inv n receives w b e inv =
    let p = inv.capacity in
    let c = inv.counted in
    let i = inv.within in
    let s = inv.started in
    record {
      capacity = ground arith;
      counted = ground arith;
      within = ground arith;
      started = λ h. ground arith;
    }
burst_act-Inv n returns w b e inv =
    let p = inv.capacity in
    let c = inv.counted in
    let i = inv.within in
    let s = inv.started in
    record {
      capacity = ground arith;
      counted = ground arith;
      within = ground arith;
      started = λ h. ground arith;
    }

run_channel_burst-Inv :
    (n : ℕ) (ms : List (PartyMove WaiterMove BurstMove)) → Inv n (run_channel_burst n ms)
run_channel_burst-Inv n ms =
    run_moves-keeps burst_move (Inv n)
      (λ w w' m e inv.
        party_move-cases waiter_act burst_act (Inv n) w w' m
          (λ k i t t' b g a.
            let s = waiter_act-WaiterStep k w.shared b t t' a in
            record {
              capacity = s.capacity ∙ inv.capacity;
              counted = ap_due n s.receiver (
                  omega (
                    arith,
                    inv.counted,
                    s.sent,
                    total-set unsent w.threads i t t' g,
                    total-here unsent w.threads i t g,
                  ));
              within = let h = inv.within in let r = s.receiver in cc_le n r h;
              started = λ h. s.started ∙ inv.started (still s.receiver h);
            })
          (λ k b q a. burst_act-Inv n k w b a inv) e)
      ms _
      (record {
        capacity = refl;
        counted = let r = total-replicate_one unsent n at_start refl in omega (arith, r);
        within = omega arith;
        started = λ h. absurd (ground arith);
      })
  where
    ap_due : (n : ℕ) {m : ℕ} {r r' : Receiver} → r' ≡ r → m ≡ due n r → m ≡ due n r'
    ap_due n e h = cc

    cc_le : (n : ℕ) {r r' : Receiver} → r' ≡ r → due n r ≤ n → due n r' ≤ n
    cc_le n {r} {r'} e h = let q : due n r' ≡ due n r = cc in omega (arith, q)

    still : {r r' : Receiver} → r' ≡ r → not_started r' ≡ false → not_started r ≡ false
    still e h = cc

abbrev waiter_energy : Waiter → ℕ
waiter_energy at_start = 3
waiter_energy at_send = 2
waiter_energy at_done = 1
waiter_energy gone = 0

abbrev receiver_energy : ℕ → Receiver → ℕ
receiver_energy n before_close = n + 2
receiver_energy n (receiving k) = k + 1
receiver_energy n returned = 0

abbrev burst_energy : Burst → ℕ
burst_energy b = receiver_energy b.capacity b.receiver

energy : World Burst Waiter → ℕ
energy w = burst_energy w.shared + total waiter_energy w.threads

waiter_act-energy :
    (k : WaiterMove) (b b' : Burst) (t t' : Waiter)
    → waiter_act k b t ≡ some (b', t')
    → burst_energy b' + waiter_energy t' < burst_energy b + waiter_energy t
waiter_act-energy wakes b b' t t' e = ground arith
waiter_act-energy sends b b' t t' e = ground arith
waiter_act-energy finishes b b' t t' e = ground arith

burst_act-energy :
    (k : BurstMove) (b b' : Burst) (ts : List Waiter)
    → burst_act k b ts ≡ some b'
    → burst_energy b' < burst_energy b
burst_act-energy closes b b' ts e = ground arith
burst_act-energy receives b b' ts e = ground arith
burst_act-energy returns b b' ts e = ground arith

Lower : World Burst Waiter → World Burst Waiter → Type 0
unfolding energy
Lower w w' = energy w' < energy w

burst_move-energy :
    (w w' : World Burst Waiter) (m : PartyMove WaiterMove BurstMove)
    → burst_move w m ≡ some w'
    → energy w' < energy w
unfolding energy Lower
burst_move-energy w w' m e =
    party_move-cases waiter_act burst_act (Lower w) w w' m
      (λ k i t t' b g a.
        omega (
          arith,
          waiter_act-energy k w.shared b t t' a,
          total-set waiter_energy w.threads i t t' g,
        ))
      (λ k b q a. omega (arith, burst_act-energy k w.shared b w.threads a)) e

-- A move is enabled.
pub Goes : World Burst Waiter → Type 0
Goes w =
    (m : PartyMove WaiterMove BurstMove) × (w' : World Burst Waiter) × (burst_move w m ≡ some w')

waiter-Goes :
    (w : World Burst Waiter) (k : WaiterMove) (i : ℕ) (t t' : Waiter) (b : Burst)
    → get_elem? w.threads i ≡ some t
    → waiter_act k w.shared t ≡ some (b, t')
    → Goes w
unfolding Goes
waiter-Goes w k i t t' b g a =
    (on_thread k i, _, party_move-on_thread waiter_act burst_act w k i t t' b g a)

receiver-Goes :
    (w : World Burst Waiter) (k : BurstMove) (b : Burst)
    → burst_act k w.shared w.threads ≡ some b
    → Goes w
unfolding Goes
receiver-Goes w k b a = (on_shared k, _, party_move-on_shared waiter_act burst_act w k b a)

left-Goes :
    (n : ℕ) (w : World Burst Waiter) (i : ℕ) (t : Waiter)
    → Inv n w
    → not_started w.shared.receiver ≡ false
    → get_elem? w.threads i ≡ some t
    → 0 < left t
    → Goes w
left-Goes n w i at_start inv s g l =
    let q = inv.started s in waiter-Goes w wakes i at_start at_send w.shared g (ground arith)
left-Goes n w i at_send inv s g l =
    let p = inv.capacity in
    let c = inv.counted in
    let h = inv.within in
    let u = total-here unsent w.threads i at_send g in
    let room : w.shared.buffered < w.shared.capacity = omega arith in
    waiter-Goes w sends i at_send at_done (record w.shared { buffered = suc w.shared.buffered }) g
      (ground arith)
left-Goes n w i at_done inv s g l = waiter-Goes w finishes i at_done gone w.shared g refl
left-Goes n w i gone inv s g l = absurd (ground arith)

none_left : (ts : List Waiter) → total left ts ≡ 0 → total unsent ts ≡ 0
none_left ts z = total-zero left unsent (λ t e. ground arith) ts z

last-Goes :
    (n : ℕ) (w : World Burst Waiter) (k : ℕ)
    → w.shared.receiver ≡ receiving k
    → Inv n w
    → total left w.threads ≡ 0
    → Goes w
last-Goes n w zero e inv z =
    receiver-Goes w returns (record w.shared { receiver = returned }) (ground arith)
last-Goes n w (suc k) e inv z =
    let u = none_left w.threads z in
    let c = inv.counted in
    let q : w.shared.buffered ≡ suc k = ground arith in
    receiver-Goes w receives
      (record w.shared { buffered = w.shared.buffered - 1; receiver = receiving k }) (ground arith)

receiver_due-Goes :
    (n : ℕ) (w : World Burst Waiter) (r : Receiver)
    → w.shared.receiver ≡ r
    → Inv n w
    → r ≢ returned
    → Goes w
receiver_due-Goes n w before_close e inv h =
    receiver-Goes w closes
      (record w.shared { started = true; receiver = receiving w.shared.capacity }) (ground arith)
receiver_due-Goes n w returned e inv h = absurd (h refl)
receiver_due-Goes n w (receiving k) e inv h = elim (zero_or_more (total left w.threads)) [
  | inr l ↦
      let (i, t, g, q) = total-find left w.threads l in left-Goes n w i t inv (ground arith) g q
  | inl z ↦ last-Goes n w k e inv z
]

-- `runChannelBurst` returns: while it has not returned a move is enabled, and no run has more than
-- `4 * n + 2` moves.
pub run_channel_burst-returns :
    (n : ℕ) (ms : List (PartyMove WaiterMove BurstMove))
    → let w = run_channel_burst n ms in
      (w.shared.receiver ≢ returned → Goes w)
      × (enabled burst_move ms (run_channel_burst n []) ≤ 4 * n + 2)
unfolding energy run_moves
run_channel_burst-returns n ms =
    let w = run_channel_burst n ms in
    (
      λ h. receiver_due-Goes n w w.shared.receiver refl (run_channel_burst-Inv n ms) h,
      let b = enabled-bound burst_move energy burst_move-energy ms (run_channel_burst n []) in
          let r = total-replicate_times waiter_energy n at_start in omega (arith, b, r),
    )
