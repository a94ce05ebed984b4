-- ===== src/WaitGroup/Packed.antt =====
-- Arithmetic on the state word of adv014_waitgroup_once/main.go: neither half disturbs the other.
use go_daily_learning.Prelude.{ℕ, suc, ◌+◌, ◌/◌, ◌%◌, ◌^◌, ◌<◌, ◌≡◌, arith}
use go_daily_learning.Prelude.Int.{ℤ}
use go_daily_learning.WaitGroup.{to_uint64, high32_delta, add_state, counter_of, waiters_of}

-- Adding a shifted delta to the state word leaves the waiters as they are and adds the delta to the
-- upper half, modulo 2 ^ 32.
pub add_delta_halves :
    (state : ℕ) (delta : ℤ)
    → state < 2 ^ 64
    → (waiters_of (add_state state (high32_delta delta)) ≡ waiters_of state)
      × (add_state state (high32_delta delta) / 2 ^ 32
          ≡ (state / 2 ^ 32 + to_uint64 delta) % 2 ^ 32)
add_delta_halves state delta p = omega arith

-- Registering a waiter leaves the counter as it is, up to 2 ^ 32 - 1 waiters.
pub register_waiter :
    (state : ℕ)
    → state < 2 ^ 64
    → suc (waiters_of state) < 2 ^ 32
    → (waiters_of (add_state state 1) ≡ suc (waiters_of state))
      × (counter_of (add_state state 1) ≡ counter_of state)
register_waiter state p q = ground arith
