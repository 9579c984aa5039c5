-- ===== src/Examples.antt =====
-- Tests: the data of concrete runs, and the theorems applied to them.
pub mod Data
mod Selection
mod Decisions
mod Runs
mod Lanes
mod Lifecycle
mod Timeouts
mod Fleet
