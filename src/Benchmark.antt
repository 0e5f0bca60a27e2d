-- ===== src/Benchmark.antt =====
-- internal/benchmark: the scoring of a trial, the assertions on a run of trials, the checks of a
-- configuration, and the faults of a trial.
pub mod Score
pub mod Assertions
pub mod Config
pub mod Fault
mod Tests
