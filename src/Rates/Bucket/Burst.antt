-- ===== src/Rates/Bucket/Burst.antt =====
-- Bounds and bursts of the token bucket of adv022_rate_limiting/main.go.
use go_daily_learning.Prelude.{
  ℕ, zero, suc, ◌-◌, ◌≤◌, ◌<◌, ◌≡◌, refl, ap, ◌∙◌, Bool, true, false, List, [], ◌∷◌, arith, ltb,
  leb, ◌^◌, if◌then◌else◌, Bool-cases, inl, inr,
}
use go_daily_learning.Prelude.Int.{ℤ, pos, negsuc}
use go_daily_learning.Rates.Bucket.{
  Floats, TokenBucket, new_token_bucket, refill, take_tokens, reserve_n, wait_all, cap_at, elapsed,
}

-- `x` is not less than 0, and not more than `y`; both hold of a NaN.
abbrev NotBelow : (fl : Floats) → fl.F → Type 0
NotBelow fl x = fl.gt (fl.of_int (pos 0)) x ≡ false

abbrev NotAbove : (fl : Floats) → fl.F → fl.F → Type 0
NotAbove fl y x = fl.gt x y ≡ false

-- Laws of all `float64`, infinities and NaN included; a comparison with a NaN is false.
pub record IsOrdered (fl : Floats) : Type 0 where
  pub int_not_above : (a b : ℕ) → a ≤ b → NotAbove fl (fl.of_int (pos b)) (fl.of_int (pos a))
  pub seconds_nonneg : (n : ℕ) → NotBelow fl (fl.seconds n)
  pub add_nonneg : (x y : fl.F) → NotBelow fl x → NotBelow fl y → NotBelow fl (fl.add x y)
  pub mul_nonneg : (x y : fl.F) → NotBelow fl x → NotBelow fl y → NotBelow fl (fl.mul x y)
  pub sub_nonneg : (x y : fl.F) → fl.ge x y ≡ true → NotBelow fl (fl.sub x y)
  pub sub_not_above :
      (b n : ℕ) (x : fl.F)
      → NotAbove fl (fl.of_int (pos b)) x
      → NotAbove fl (fl.of_int (pos b)) (fl.sub x (fl.of_int (pos n)))

-- Whole numbers below 2 ^ 53 are exact.
pub record IsExact (fl : Floats) : Type 0 where
  pub add_nought : (a : ℕ) → fl.add (fl.of_int (pos a)) (fl.of_int (pos 0)) ≡ fl.of_int (pos a)
  pub sub_int :
      (a b : ℕ)
      → b ≤ a
      → a < 2 ^ 53
      → fl.sub (fl.of_int (pos a)) (fl.of_int (pos b)) ≡ fl.of_int (pos (a - b))
  pub gt_int :
      (a b : ℕ) → a < 2 ^ 53 → b < 2 ^ 53 → fl.gt (fl.of_int (pos a)) (fl.of_int (pos b)) ≡ ltb b a
  pub ge_int :
      (a b : ℕ) → a < 2 ^ 53 → b < 2 ^ 53 → fl.ge (fl.of_int (pos a)) (fl.of_int (pos b)) ≡ leb b a

-- No call asks for a negative number of tokens.
abbrev pub none_negative : List (ℕ × ℤ) → Bool
none_negative [] = true
none_negative ((now, pos n) ∷ calls) = none_negative calls
none_negative ((now, negsuc n) ∷ calls) = false

module _ (fl : Floats) where
  open fl use {F, of_int, seconds, add, sub, mul, div, gt, ge, duration}

  -- The tokens are not below 0 and not above `burst`, and the rate is not below 0.
  pub record IsBounded (burst : ℕ) (tb : TokenBucket fl) : Type 0 where
    pub same_burst : tb.burst ≡ pos burst
    pub not_below : gt (of_int (pos 0)) tb.tokens ≡ false
    pub not_above : gt tb.tokens (of_int (pos burst)) ≡ false
    pub rate_nonneg : gt (of_int (pos 0)) tb.rate ≡ false

  module _ (o : IsOrdered fl) where
    elapsed_nonneg :
        (tb : TokenBucket fl) (now : ℕ) → gt (of_int (pos 0)) (elapsed fl tb now) ≡ false
    unfolding elapsed
    elapsed_nonneg tb now = elim (Bool-cases (ltb now tb.last)) [
      | inl b ↦ rw b (o.int_not_above 0 0 (omega arith))
      | inr b ↦ rw b (o.seconds_nonneg (now - tb.last))
    ]

    cap_at_bounds :
        (burst : ℕ) (x : F)
        → gt (of_int (pos 0)) x ≡ false
        → (gt (of_int (pos 0)) (cap_at fl (of_int (pos burst)) x) ≡ false)
          × (gt (cap_at fl (of_int (pos burst)) x) (of_int (pos burst)) ≡ false)
    unfolding cap_at
    cap_at_bounds burst x h = elim (Bool-cases (gt x (of_int (pos burst)))) [
      | inl b ↦ (
        rw b (o.int_not_above 0 burst (omega arith)),
        rw b (o.int_not_above burst burst (omega arith)),
      )
      | inr b ↦ (rw b h, rw b b)
    ]

    refill-IsBounded :
        (burst : ℕ) (tb : TokenBucket fl) (now : ℕ)
        → IsBounded burst tb
        → IsBounded burst (refill fl tb now)
    unfolding refill
    refill-IsBounded burst tb now b =
        let c = cap_at_bounds burst (add tb.tokens (mul (elapsed fl tb now) tb.rate)) (
          o.add_nonneg tb.tokens (mul (elapsed fl tb now) tb.rate) b.not_below
            (o.mul_nonneg (elapsed fl tb now) tb.rate (elapsed_nonneg tb now) b.rate_nonneg)) in
        record {
          same_burst = b.same_burst;
          not_below = rw b.same_burst c.0;
          not_above = rw b.same_burst c.1;
          rate_nonneg = b.rate_nonneg;
        }

    take_tokens-IsBounded :
        (burst : ℕ) (tb : TokenBucket fl) (n : ℕ)
        → IsBounded burst tb
        → IsBounded burst (take_tokens fl tb (pos n)).0
    unfolding take_tokens
    take_tokens-IsBounded burst tb n b = elim (Bool-cases (ge tb.tokens (of_int (pos n)))) [
      | inl e ↦ rw e (record {
        same_burst = b.same_burst;
        not_below = o.sub_nonneg tb.tokens (of_int (pos n)) e;
        not_above = o.sub_not_above burst n tb.tokens b.not_above;
        rate_nonneg = b.rate_nonneg;
      })
      | inr e ↦ rw e (record {
        same_burst = b.same_burst;
        not_below = o.int_not_above 0 0 (omega arith);
        not_above = o.int_not_above 0 burst (omega arith);
        rate_nonneg = b.rate_nonneg;
      })
    ]

    wait_all-keeps :
        (burst : ℕ) (tb : TokenBucket fl) (calls : List (ℕ × ℤ))
        → none_negative calls ≡ true
        → IsBounded burst tb
        → IsBounded burst (wait_all fl tb calls).0
    unfolding wait_all
    wait_all-keeps burst tb [] h b = b
    wait_all-keeps burst tb ((now, negsuc n) ∷ calls) h b = absurd (ground arith)
    wait_all-keeps burst tb ((now, pos n) ∷ calls) h b =
        wait_all-keeps burst (reserve_n fl tb now (pos n)).0 calls h (
          unfold reserve_n in
          take_tokens-IsBounded burst (refill fl tb now) n (refill-IsBounded burst tb now b))

    -- A new bucket with a burst that is not negative and a rate that is not below 0: over every
    -- sequence of calls none of which asks for a negative number of tokens, whatever their times, a
    -- clock that is set back included, the tokens never compare as below 0 or above `burst`.
    pub wait_all-IsBounded :
        (rate : F) (burst now : ℕ) (calls : List (ℕ × ℤ))
        → gt (of_int (pos 0)) rate ≡ false
        → none_negative calls ≡ true
        → IsBounded burst (wait_all fl (new_token_bucket fl rate (pos burst) now) calls).0
    unfolding new_token_bucket
    wait_all-IsBounded rate burst now calls h k =
        wait_all-keeps burst (new_token_bucket fl rate (pos burst) now) calls k (record {
          same_burst = refl;
          not_below = o.int_not_above 0 burst (omega arith);
          not_above = o.int_not_above burst burst (omega arith);
          rate_nonneg = h;
        })

  -- `n` copies in front of a list.
  abbrev pub copies_then : {A : Type 0} → ℕ → A → List A → List A
  copies_then zero a rest = rest
  copies_then (suc n) a rest = a ∷ copies_then n a rest

  module _ (x : IsExact fl) (rate : F) (burst now : ℕ) (small : burst < 2 ^ 53)
      (still : mul (seconds 0) rate ≡ of_int (pos 0)) where
    abbrev holding : ℕ → TokenBucket fl
    holding k = record { tokens = of_int (pos k); rate = rate; burst = pos burst; last = now }

    -- No time has passed, so nothing flows in.
    refill_now : (k : ℕ) → k ≤ burst → refill fl (holding k) now ≡ holding k
    unfolding refill elapsed cap_at
    refill_now k h =
        let at : F → TokenBucket fl =
          λ (f : F). record { tokens = f; rate = rate; burst = pos burst; last = now } in
        let no_time : (if ltb now now then of_int (pos 0) else seconds (now - now)) ≡ seconds 0 =
          ap (λ (b : Bool). if b then of_int (pos 0) else seconds (now - now)) (not_before now)
          ∙ ap seconds (same_time now) in
        let inflow : add (of_int (pos k)) (mul (elapsed fl (holding k) now) rate) ≡ of_int (pos k) =
          ap (λ (f : F). add (of_int (pos k)) (mul f rate)) no_time
          ∙ ap (add (of_int (pos k))) still
          ∙ x.add_nought k in
        let below : gt (of_int (pos k)) (of_int (pos burst)) ≡ false =
          x.gt_int k burst (omega arith) small ∙ not_above_lem k burst h in
        ap (λ (f : F). at (cap_at fl (of_int (pos burst)) f)) inflow
        ∙ ap (λ (b : Bool). at (if b then of_int (pos burst) else of_int (pos k))) below
      where
        not_before : (n : ℕ) → ltb n n ≡ false
        not_before n = ground arith

        same_time : (n : ℕ) → n - n ≡ 0
        same_time n = omega arith

        not_above_lem : (a b : ℕ) → a ≤ b → ltb b a ≡ false
        not_above_lem a b h = ground arith

    take_one :
        (k : ℕ) → suc k ≤ burst → reserve_n fl (holding (suc k)) now (pos 1) ≡ (holding k, pos 0)
    unfolding reserve_n
    take_one k h =
        ap (λ (tb : TokenBucket fl). take_tokens fl tb (pos 1)) (refill_now (suc k) h)
        ∙ unfold take_tokens in
          (ap
              (λ (b : Bool).
                if b
                then one_less (sub (of_int (pos (suc k))) (of_int (pos 1)))
                else to_wait (of_int (pos (suc k))))
              (x.ge_int (suc k) 1 (omega arith) (omega arith) ∙ enough k)
            ∙ ap one_less (
                x.sub_int (suc k) 1 (omega arith) (omega arith)
                ∙ ap (λ (m : ℕ). of_int (pos m)) (less k)))
      where
        enough : (n : ℕ) → leb 1 (suc n) ≡ true
        enough n = ground arith

        less : (n : ℕ) → suc n - 1 ≡ n
        less n = omega arith

        one_less : F → TokenBucket fl × ℤ
        one_less f = (record { tokens = f; rate = rate; burst = pos burst; last = now }, pos 0)

        to_wait : F → TokenBucket fl × ℤ
        to_wait f = (holding 0, duration (div (sub (of_int (pos 1)) f) rate))

    take_none :
        reserve_n fl (holding 0) now (pos 1) ≡ (holding 0, duration (div (of_int (pos 1)) rate))
    unfolding reserve_n
    take_none =
        ap (λ (tb : TokenBucket fl). take_tokens fl tb (pos 1)) (refill_now 0 (omega arith))
        ∙ unfold take_tokens in
          (ap
              (λ (b : Bool).
                if b
                then none_less
                else (holding 0, duration (div (sub (of_int (pos 1)) (of_int (pos 0))) rate)))
              (x.ge_int 0 1 (omega arith) (omega arith))
            ∙ ap (λ (f : F). to_pair (duration (div f rate)))
                (x.sub_int 1 0 (omega arith) (omega arith)))
      where
        none_less : TokenBucket fl × ℤ
        none_less = (
          record {
            tokens = sub (of_int (pos 0)) (of_int (pos 1));
            rate = rate;
            burst = pos burst;
            last = now;
          },
          pos 0,
        )

        to_pair : ℤ → TokenBucket fl × ℤ
        to_pair d = (holding 0, d)

    wait_all-holding :
        (k : ℕ)
        → k ≤ burst
        → (wait_all fl (holding k) (copies_then k (now, pos 1) ((now, pos 1) ∷ []))).1
          ≡ copies_then k (pos 0) (duration (div (of_int (pos 1)) rate) ∷ [])
    unfolding wait_all
    wait_all-holding zero h = ap (λ (r : TokenBucket fl × ℤ). r.1 ∷ []) take_none
    wait_all-holding (suc k) h =
        ap
          (λ (r : TokenBucket fl × ℤ).
            r.1 ∷ (wait_all fl r.0 (copies_then k (now, pos 1) ((now, pos 1) ∷ []))).1)
          (take_one k h)
        ∙ ap (◌∷◌ (pos 0)) (wait_all-holding k (omega arith))

    -- A new bucket grants `burst` requests for one token at the moment of its creation without a
    -- wait, and lets the next one wait for one token, when `burst` is below 2 ^ 53 and no time
    -- brings no tokens.
    pub wait_all-burst :
        (wait_all fl
          (new_token_bucket fl rate (pos burst) now)
          (copies_then burst (now, pos 1) ((now, pos 1) ∷ []))).1
        ≡ copies_then burst (pos 0) (duration (div (of_int (pos 1)) rate) ∷ [])
    unfolding new_token_bucket
    wait_all-burst = wait_all-holding burst (omega arith)
