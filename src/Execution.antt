-- ===== src/Execution.antt =====
-- control_plane/execution.py: tasks and attempts. Leases, the decisions of the owner, the claims of
-- the workers, and the durable outcomes.
pub mod Fence
pub mod Decide
pub mod Plans
pub mod Routed
pub mod Approvals
pub mod Claim
pub mod Finish
pub mod Overview
pub mod Readings
pub mod Outcomes
