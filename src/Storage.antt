-- ===== src/Storage.antt =====
-- control_plane/storage.py: the rows, the statements, and the transactions that run them.
pub mod Rows
pub mod Responses
pub mod Database
pub mod Actions
