-- ===== src/Worker.antt =====
-- pepeuch_worker/runner.py, `IndependentRunner`: one task of a worker, with its journal on disk.
--
-- The process may die between any two of its effects (`lives`), and keeps the journal as it was last
-- saved; `save` replaces the journal as a whole. The replies of the server, the executor, the guard of
-- the isolation and the identities drawn are arguments, each by the number of its call. The journal is
-- the one that `run_once` itself saves, so its schema is not read again. Receipts is
-- about pepeuch_worker/verification.py.
pub mod Requests
pub mod Machine
pub mod Runner
pub mod Keeps
pub mod Once
pub mod Receipts
pub mod Executor
pub mod Channel
