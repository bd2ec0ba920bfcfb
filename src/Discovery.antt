-- ===== src/Discovery.antt =====
-- database/poc/: the discovery of models at public sources. The sources that are described, the
-- documents that are kept, and the execution of a plan within its budgets.
pub mod Errors
pub mod Specs
pub mod Metadata
pub mod Selection
pub mod Records
pub mod Snapshots
pub mod Changes
pub mod Policy
pub mod Calendar
pub mod Delays
pub mod Runtime
pub mod Waiting
pub mod Execute
pub mod Report
