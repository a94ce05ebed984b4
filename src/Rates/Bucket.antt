-- ===== src/Rates/Bucket.antt =====
-- adv022_rate_limiting/main.go, lines 69 to 127: `tokenBucket`. A call runs under its mutex as one
-- step. Times are nanoseconds; `float64` is a parameter.
pub mod Burst
use go_daily_learning.Prelude.Int.{ℤ, pos}
use go_daily_learning.Prelude.{ℕ, ◌-◌, Bool, List, [], ◌∷◌, ltb, if◌then◌else◌}

-- What the bucket uses of `float64`: `float64(n)`, `Duration.Seconds` of a duration that is not
-- negative, the four operations, `x > y`, `x >= y`, and the duration of so many seconds.
pub record Floats : Type 1 where
  pub F : Type 0
  pub of_int : ℤ → F
  pub seconds : ℕ → F
  pub add : F → F → F
  pub sub : F → F → F
  pub mul : F → F → F
  pub div : F → F → F
  pub gt : F → F → Bool
  pub ge : F → F → Bool
  pub duration : F → ℤ

module _ (fl : Floats) where
  open fl use {F, of_int, seconds, add, sub, mul, div, gt, ge, duration}

  pub record TokenBucket : Type 0 where
    pub tokens : F
    pub rate : F
    pub burst : ℤ
    pub last : ℕ

  -- `now` is the result of `time.Now()`.
  unfoldable pub new_token_bucket : F → ℤ → ℕ → TokenBucket
  new_token_bucket rate burst now = record {
    tokens = of_int burst;
    rate = rate;
    burst = burst;
    last = now;
  }

  -- A clock that was set back counts as no time.
  elapsed : TokenBucket → ℕ → F
  elapsed tb now = if ltb now tb.last then of_int (pos 0) else seconds (now - tb.last)

  -- The first half of `reserveN`: what has flowed in, at most `burst`.
  cap_at : F → F → F
  cap_at most x = if gt x most then most else x

  unfoldable pub refill : TokenBucket → ℕ → TokenBucket
  unfolding elapsed cap_at
  refill tb now = record tb {
    tokens = cap_at (of_int tb.burst) (add tb.tokens (mul (elapsed tb now) tb.rate));
    last = now;
  }

  -- The second half: the bucket afterwards and the time to wait.
  unfoldable pub take_tokens : TokenBucket → ℤ → TokenBucket × ℤ
  take_tokens tb n =
      if ge tb.tokens (of_int n)
      then (record tb { tokens = sub tb.tokens (of_int n) }, pos 0)
      else (
        record tb { tokens = of_int (pos 0) },
        duration (div (sub (of_int n) tb.tokens) tb.rate),
      )

  unfoldable pub reserve_n : TokenBucket → ℕ → ℤ → TokenBucket × ℤ
  unfolding refill take_tokens
  reserve_n tb now n = take_tokens (refill tb now) n

  -- `wait` asks for the time and sleeps; the result is that of `reserveN`. Calls one after another,
  -- each with its time and its number of tokens, and the bucket and the waits that they lead to.
  unfoldable pub wait_all : TokenBucket → List (ℕ × ℤ) → TokenBucket × List ℤ
  unfolding reserve_n
  wait_all tb [] = (tb, [])
  wait_all tb ((now, n) ∷ calls) =
      let (tb', d) = reserve_n tb now n in let (last, ds) = wait_all tb' calls in (last, d ∷ ds)
