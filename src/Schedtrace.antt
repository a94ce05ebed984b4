-- ===== src/Schedtrace.antt =====
-- adv008_schedtrace/main.go: the parser of scheduler trace lines (Schedtrace/Line), the worker pool
-- of `runSchedulerDemo` (Schedtrace/Pool), `runCPUWorkers` (Schedtrace/Workers)
-- and `runChannelBurst` (Schedtrace/Burst).
pub mod Pool
pub mod Tasks
pub mod Completed
pub mod Line
pub mod Printed
pub mod Errors
pub mod Burst
pub mod Return
pub mod Workers
pub mod Iterations
pub mod Canceled
mod Examples
mod Rounds
