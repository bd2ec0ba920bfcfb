-- ===== src/Service.antt =====
-- control_plane/service.py: the application boundary. Where the source goes on with a row that a
-- query has not found, Python raises, which is answered as `operation_failed`.
pub mod Ledger
pub mod Decimal
pub mod Requests
pub mod Access
pub mod Operate
pub mod Idempotence
pub mod Create
