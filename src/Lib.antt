-- ===== src/Lib.antt =====
-- The cluster: its control plane (control_plane/), with missions that an owner creates and approves,
-- tasks that workers claim and finish, and the files and results of a workspace; the worker process
-- (pepeuch_worker/); and the discovery of models at public sources (database/poc/).
--
-- A request reaches a handler through `Api` (`API.dispatch` of control_plane/http_api.py, its path
-- already split). The handlers are actions on a `World`: the tables of the SQLite store, the readings
-- of the clock, the identities drawn and the stored objects. An action returns a value or the
-- `Problem` that the source raises. `transaction` restores the tables where the source rolls back.
-- The requests of the owner and the claims of the workers pass through `operate`, which records them;
-- `finish` records its result with the attempt.
--
--   Contracts      control_plane/contracts.py: problems, decoded JSON, texts and identifiers, the
--                  states and `TRANSITIONS`, `ExecutionResult`; RoundTrip is about its encoding
--   Storage        control_plane/storage.py and control_plane/migrations/*.sql: rows, tables, the
--                  statements with their constraints (`apply`), the actions; Keeps and Ensures are
--                  the rules by which the proofs follow an action
--   Capabilities   control_plane/capabilities.py, `FakeCoordinator` of control_plane/demo.py
--   Registry       control_plane/worker_registry.py, `require_role` of control_plane/auth.py
--   Service        control_plane/service.py: ledger, recorded operations, creation, views
--   Workspace      control_plane/workspace.py: files, versions, objects
--   Execution      control_plane/execution.py: recover, expire, approve, cancel, retry, claim, finish;
--                  Overview is `nodes` and the views of service.py that expire attempts first
--   Api            control_plane/http_api.py, `dispatch` for the routes whose handler writes
--   Input          control_plane/http_io.py: the reader of a socket that is bounded by a deadline
--   Worker         pepeuch_worker/runner.py and `validate_request` of control_plane/worker_client.py:
--                  Machine has the effects of the process, Runner is `run_once`, Receipts is
--                  `receipt_errors` of pepeuch_worker/verification.py, Executor is executor.py with
--                  `integer` of contracts.py, Channel is verification_channel.py: itself the frames,
--                  Decision `validate_decision`, Session the checks of `VerificationSession`
--   Discovery      database/poc/: Specs is source_spec_design.py, Metadata is metadata_primitives.py,
--                  Records, Snapshots and Changes are discovery_cache.py, Selection and Policy are
--                  execution_models.py, Errors, Delays, Runtime, Waiting and Execute are
--                  discovery_execution.py, Report is both
--   Handlers       which properties of the tables the handlers keep, in terms of their statements
--   Lifecycle      what holds of the tables over any sequence of requests, and of the attempts that a
--                  restart or a revocation leaves (Fenced)
--   Tests          a small control plane, and the theorems at it
--
-- Parameters (`Env`): the clock, as the n-th reading in microseconds; the identities of `uuid4`; the
-- digest of `hashlib`; the canonical bytes of `json.dumps`; the test for a canonical UUID; the strict
-- decoding of base64; the settings. The coordinator is an argument too. Nothing is assumed of them.
-- `Input` takes a clock and a connection of its own kind (`Socket`). Its `readline` and `read` have
-- fuel, one for each round of the loop: a round that does not end it brings at least one byte, so the
-- rounds are at most one more than the bytes of the limit. All other loops run over the rows of a
-- table or the bytes of a text, but for the attempts of `execute_source`: they have one turn more than
-- the policy's attempts, since every turn that goes on counts one.
--
-- The worker takes the replies of the server, the executor and the guard of its isolation as functions
-- of the number of the effect, and may die before any effect; a save replaces the journal as a whole.
-- The executor takes the n-th look at its clocks and its stop, and a hasher of `hashlib` as a type with
-- its operations: that updates join (`HashesJoined`), and that both sides read bytes, digests and base64
-- alike (`Agrees`) are hypotheses. `receive` of the channel has one round more than the bytes it wants,
-- since every round that goes on brings one; a message is what the n-th `recvmsg` gives.
-- `execute_source` takes its clocks, jitter and waits the same way, and an operation as the tree of
-- its requests. Its times are whole microseconds where the source has floats, and the calendar is the
-- Gregorian one from 1970 on. Snapshots take the canonical text of JSON, the digest and the folding of
-- a key as functions of which nothing is assumed.
--
-- Not modelled: the bytes of HTTP and JSON, the threads and sockets of the server, files and
-- their permissions, locks and the opening of the database, backups, the credential files, the
-- isolation of a worker, the policy and the assessment of its verification, the HTTP of the
-- discovery with the parsing of `Retry-After`, the adapters of the sources, and the registry and
-- the checkpoints of a discovery. Concurrency is the order of the requests: the store serialises
-- transactions (`BEGIN IMMEDIATE`), and Lifecycle takes a sequence of requests. A transaction of
-- a handler that expires attempts first (`expire`) is not interleaved with others.
pub mod Prelude
pub mod Contracts
pub mod Storage
pub mod Capabilities
pub mod Registry
pub mod Service
pub mod Workspace
pub mod Execution
pub mod Handlers
pub mod Lifecycle
pub mod Api
pub mod Input
pub mod Discovery
pub mod Worker
pub mod Tests
