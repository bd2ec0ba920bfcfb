-- ===== src/Handlers.antt =====
-- The handlers seen from their statements: what an action that only reads keeps, and which
-- statements the shared actions make.
pub mod Reads
pub mod Writes
pub mod Beside
pub mod Requests
pub mod Plain
