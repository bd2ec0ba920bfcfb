-- ===== src/Contracts.antt =====
-- control_plane/contracts.py and the roles of control_plane/auth.py: problems, JSON values, the
-- strict field and text checks, identities, and the states of a mission.
mod Problems
pub mod Values
pub mod Texts
pub mod Lifecycle
pub mod Outcomes
pub mod RoundTrip
pub use Problems.*
