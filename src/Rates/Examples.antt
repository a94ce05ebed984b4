-- ===== src/Rates/Examples.antt =====
-- The semaphores of adv022_rate_limiting/main.go under a schedule, and its token bucket over the
-- integers.
use go_daily_learning.Prelude.{
  ℕ, zero, suc, ◌*◌, ◌/◌, ◌<◌, ◌≡◌, refl, Bool, true, false, List, [], ◌∷◌, arith, ltb, not,
}
use go_daily_learning.Prelude.Int.{ℤ, pos, negsuc}
use go_daily_learning.Threads.{total, run}
use go_daily_learning.Rates.{plus, minus, run_with_semaphore}
use go_daily_learning.Rates.Semaphores.{chan_semaphore, weighted_semaphore, semaphores_never_stuck}
use go_daily_learning.Rates.Limit.{unfinished, CanMove}
use go_daily_learning.Rates.Bucket.{Floats, new_token_bucket, wait_all}
use go_daily_learning.Rates.Bucket.Burst.{IsOrdered, IsExact, IsBounded, wait_all-IsBounded}

-- With limit 1 the second goroutine falls asleep, and the third one does after it.
abbrev asleep_turns : List ℕ
asleep_turns = 0 ∷ 1 ∷ 2 ∷ 0 ∷ 0 ∷ 1 ∷ []

semaphores_never_stuck_example :
    (0 < total unfinished (run_with_semaphore chan_semaphore 1 3 asleep_turns).threads
      → CanMove chan_semaphore (run_with_semaphore chan_semaphore 1 3 asleep_turns))
    × (0 < total unfinished (run_with_semaphore weighted_semaphore 1 3 asleep_turns).threads
        → CanMove weighted_semaphore (run_with_semaphore weighted_semaphore 1 3 asleep_turns))
semaphores_never_stuck_example = semaphores_never_stuck 1 3 asleep_turns (omega arith)

some_asleep : 0 < total unfinished (run_with_semaphore weighted_semaphore 1 3 asleep_turns).threads
unfolding run_with_semaphore run
some_asleep = omega arith

abbrev second : ℕ
second = 1000000000

abbrev int_add : ℤ → ℤ → ℤ
int_add a (pos n) = plus a n
int_add a (negsuc n) = minus a (suc n)

abbrev int_sub : ℤ → ℤ → ℤ
int_sub a (pos n) = minus a n
int_sub a (negsuc n) = plus a (suc n)

abbrev negate : ℕ → ℤ
negate zero = pos zero
negate (suc n) = negsuc n

abbrev int_mul : ℤ → ℤ → ℤ
int_mul (pos a) (pos b) = pos (a * b)
int_mul (pos a) (negsuc b) = negate (a * suc b)
int_mul (negsuc a) (pos b) = negate (suc a * b)
int_mul (negsuc a) (negsuc b) = pos (suc a * suc b)

-- Towards 0.
abbrev int_div : ℤ → ℤ → ℤ
int_div (pos a) (pos b) = pos (a / b)
int_div (pos a) (negsuc b) = negate (a / suc b)
int_div (negsuc a) (pos b) = negate (suc a / b)
int_div (negsuc a) (negsuc b) = pos (suc a / suc b)

abbrev int_gt : ℤ → ℤ → Bool
int_gt (pos a) (pos b) = ltb b a
int_gt (pos a) (negsuc b) = true
int_gt (negsuc a) (pos b) = false
int_gt (negsuc a) (negsuc b) = ltb a b

abbrev whole : Floats
whole = record {
  F = ℤ;
  of_int = λ n. n;
  seconds = λ n. pos (n / second);
  add = int_add;
  sub = int_sub;
  mul = int_mul;
  div = int_div;
  gt = int_gt;
  ge = λ x y. not (int_gt y x);
  duration = λ x. int_mul x (pos second);
}

abbrev below_nought : ℤ → Bool
below_nought x = int_gt (pos 0) x

add_lem :
    (x y : ℤ) → below_nought x ≡ false → below_nought y ≡ false → below_nought (int_add x y) ≡ false
add_lem (pos a) (pos b) h k = ground arith
add_lem (pos a) (negsuc b) h k = ground arith
add_lem (negsuc a) y h k = ground arith

mul_lem :
    (x y : ℤ) → below_nought x ≡ false → below_nought y ≡ false → below_nought (int_mul x y) ≡ false
mul_lem (pos a) (pos b) h k = ground arith
mul_lem (pos a) (negsuc b) h k = ground arith
mul_lem (negsuc a) y h k = ground arith

sub_lem : (x y : ℤ) → not (int_gt y x) ≡ true → below_nought (int_sub x y) ≡ false
sub_lem (pos a) (pos b) h = ground arith
sub_lem (pos a) (negsuc b) h = ground arith
sub_lem (negsuc a) (pos b) h = ground arith
sub_lem (negsuc a) (negsuc b) h = ground arith

sub_above_lem :
    (b n : ℕ) (x : ℤ) → int_gt x (pos b) ≡ false → int_gt (int_sub x (pos n)) (pos b) ≡ false
sub_above_lem b n (pos a) h = ground arith
sub_above_lem b n (negsuc a) h = ground arith

whole-IsOrdered : IsOrdered whole
whole-IsOrdered = record {
  int_not_above = λ a b h. ground arith;
  seconds_nonneg = λ n. ground arith;
  add_nonneg = add_lem;
  mul_nonneg = mul_lem;
  sub_nonneg = sub_lem;
  sub_not_above = sub_above_lem;
}

whole-IsExact : IsExact whole
whole-IsExact = record {
  add_nought = λ a. ground arith;
  sub_int = λ a b h k. ground arith;
  gt_int = λ a b h k. refl;
  ge_int = λ a b h k. ground arith;
}

-- Two tokens at once, one after half a second that brings none, and the clock set back.
wait_all-IsBounded_example :
    IsBounded whole 3
      (wait_all whole
        (new_token_bucket whole (pos 2) (pos 3) 0)
        ((0, pos 2) ∷ (500000000, pos 2) ∷ (100, pos 1) ∷ (3000000000, pos 1) ∷ [])).0
wait_all-IsBounded_example =
    wait_all-IsBounded whole whole-IsOrdered (pos 2) 3 0
      ((0, pos 2) ∷ (500000000, pos 2) ∷ (100, pos 1) ∷ (3000000000, pos 1) ∷ []) refl refl

wait_all_runs :
    (wait_all whole
      (new_token_bucket whole (pos 1) (pos 3) 0)
      ((0, pos 2) ∷ (second, pos 2) ∷ (second, pos 1) ∷ [])).1
    ≡ pos 0 ∷ pos 0 ∷ pos second ∷ []
unfolding wait_all new_token_bucket
wait_all_runs = refl

-- A negative number of tokens raises the tokens above `burst`.
negative_request :
    (wait_all whole (new_token_bucket whole (pos 1) (pos 3) 0) ((0, negsuc 4) ∷ [])).0.tokens
    ≡ pos 8
unfolding wait_all new_token_bucket
negative_request = refl
