-- ===== src/Memory.antt =====
-- adv009_memory_model/main.go: a value that one goroutine writes and another returns, behind a
-- channel (`publishWithChannel`, below), a mutex (Memory/Mutex) and a `sync.Once` (Memory/Once).
-- The moves are sequentially consistent, which is what the language gives to these programs.
pub mod Mutex
pub mod Once
pub mod Channel
pub mod Visible
pub mod Exactly
pub mod Ends
mod Examples
use go_daily_learning.Prelude.{ℕ, ◌*◌, ◌%◌, ◌^◌}

-- `n * 2`, as a 64-bit pattern.
unfoldable pub double : ℕ → ℕ
double n = n * 2 % 2 ^ 64
