-- ===== src/Tests.antt =====
-- A small control plane with one workspace, one worker and one mission, and the theorems at it.
pub mod Data
pub mod Runs
pub mod Restarts
pub mod Steps
pub mod Lines
pub mod Discovery
pub mod Worker
mod Executor
mod Channel
