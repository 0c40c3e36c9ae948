-- ===== src/Runner.antt =====
-- turnvector_benchmark/runner.py and driver.py: the runner asks a driver for each plan, compares it with
-- the oracle's, and reports the outcome of every repetition.
pub mod Ledgers
pub mod Messages
pub mod Driver
pub mod Records
pub mod Turn
pub mod Metrics
pub mod Outcomes
pub mod Repetition
pub mod Report
mod Tests
