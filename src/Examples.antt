-- ===== src/Examples.antt =====
-- Runs of the programs at concrete inputs, and the theorems at those inputs.
mod Sequential
mod Concurrent
