-- ===== src/Lifecycle.antt =====
-- The missions of a database from one request to the next: which rows there are, and along which
-- transitions of control_plane/contracts.py their states move.
pub mod Missions
pub mod Steps
pub mod Reads
pub mod Effects
pub mod Requests
pub mod Final
pub mod Solo
pub mod Linked
pub mod Covered
pub mod Fenced
pub mod History
