-- ===== src/Execution/Claim.antt =====
-- control_plane/execution.py: `claim` and `state`. A worker with no active attempt is leased the
-- oldest queued task that is its own.
use pepeuchiacluster.Prelude.{
  ℕ, ◌+◌, ◌*◌, Bool, true, false, ◌&&◌, leb, ◌==◌, min, String, same, List, [], ◌∷◌, Option, none,
  some, find, select, any, max_of, order_by, head?, text_le, if◌then◌else◌,
}
use pepeuchiacluster.Contracts.Values.{Value, fields, at}
use pepeuchiacluster.Contracts.Lifecycle.{State, state_eq, queued, running, is_active, Principal}
use pepeuchiacluster.Contracts.Texts.{check_identifier}
use pepeuchiacluster.Capabilities.{spec_of, result_name}
use pepeuchiacluster.Storage.Rows.{MissionRow, TaskRow, AttemptRow, WorkerRow, EpochRow}
use pepeuchiacluster.Storage.Responses.{Response, request}
use pepeuchiacluster.Storage.Database.{
  Db, mission_with, epoch_of, insert_attempt, insert_epoch, set_task_state,
}
use pepeuchiacluster.Storage.Actions.{
  Action, Env, ◌>>=◌, ◌>>◌, pure, lift, query, or_raise, guard, exec, now, new_id, transaction,
}
use pepeuchiacluster.Registry.{require_role, authorize}
use pepeuchiacluster.Service.Access.{view}
use pepeuchiacluster.Service.Operate.{audit, transition, operate}
use pepeuchiacluster.Workspace.Publish.{file_named, latest_version, version_id_of}
use pepeuchiacluster.Execution.Fence.{fence, expire}

-- The clock counts microseconds.
abbrev pub seconds : ℕ → ℕ
seconds n = n * 1000000

abbrev pub has_active : String → Db → Bool
has_active worker_id db = any (λ a. same a.worker_id worker_id && is_active a.state) db.attempts

-- A row of the join of `tasks` and `missions`.
pub record Candidate : Type 0 where
  pub task : TaskRow
  pub mission : MissionRow

abbrev pub join_mission : TaskRow → Option MissionRow → List Candidate → List Candidate
join_mission t none rest = rest
join_mission t (some m) rest =
    if state_eq m.state queued then record { task = t; mission = m } ∷ rest else rest

unfoldable pub candidates : String → List TaskRow → Db → List Candidate
candidates worker_id [] db = []
candidates worker_id (t ∷ ts) db =
    let rest = candidates worker_id ts db in
    if state_eq t.state queued && same t.worker_id worker_id
    then join_mission t (mission_with t.mission_id db) rest
    else rest

abbrev pub older : Candidate → Candidate → Bool
older a b =
    if a.mission.created_at == b.mission.created_at
    then text_le a.mission.id b.mission.id
    else leb a.mission.created_at b.mission.created_at

-- `ORDER BY m.created_at, m.id LIMIT 1`
unfoldable pub next_task : String → Db → Option Candidate
unfolding candidates
next_task worker_id db = head? (order_by older (candidates worker_id db.tasks db))

-- `COALESCE(MAX(number), 0) + 1` over the attempts of the task
abbrev pub next_attempt : String → Db → ℕ
next_attempt task_id db =
    max_of (λ a. a.number) (select (λ a. same a.task_id task_id) db.attempts) + 1

-- the version that is current when the task is leased
abbrev pub current_version : String → Db → Option String
current_version workspace_id db =
    version_id_of (latest_version (file_named workspace_id result_name db) db)

module _ (env : Env) where
  abbrev lease_end : ℕ → WorkerRow → ℕ
  lease_end t w = t + seconds (min env.settings.attempt_seconds w.limits.lease_seconds)

  unfoldable pub lease : Principal → WorkerRow → Candidate → Action Response
  unfolding view
  lease principal row candidate = do
    let task = candidate.task
    let mission = candidate.mission
    expected ← query (current_version mission.workspace_id)
    identity ← new_id env "a"
    generation ← new_id env "g"
    number ← query (next_attempt task.id)
    t ← now env
    exec (
        insert_attempt (record {
          id = identity;
          task_id = task.id;
          number = number;
          worker_id = principal.identity;
          state = running;
          generation = generation;
          started_at = t;
          deadline = lease_end t row;
          expected_version = expected;
          result_sha256 = none;
          error_code = none;
        }))
    epoch ← or_raise principal.credential_epoch "operation_failed" 500
    exec (insert_epoch (record { attempt_id = identity; credential_epoch = epoch }))
    exec (set_task_state task.id running)
    transition env principal mission running none
    audit env principal mission.workspace_id (some mission.id) "attempt_started"
        (("attempt_id", identity) ∷ ("task_id", task.id) ∷ ("worker_id", principal.identity) ∷ [])
    spec ← or_raise (spec_of task.capability) "operation_failed" 500
    seen ← view mission
    pure (
        request (
          some (record {
            attempt_id = identity;
            generation = generation;
            task = record task { state = running };
            simulated = spec.simulated;
            mission_id = mission.id;
            title = mission.title;
            objective = mission.objective;
            authorized_files = seen.mission.authorized_files;
            started_at = t;
            deadline = lease_end t row;
            expected_version = expected;
          })))

  abbrev pub lease_or_idle : Principal → WorkerRow → Option Candidate → Action Response
  lease_or_idle principal row none = pure (request none)
  lease_or_idle principal row (some c) = lease principal row c

  unfoldable pub claim_effect : Principal → Action Response
  unfolding fence authorize lease next_task
  claim_effect principal = do
    row ← authorize env principal
    fence env "attempt_expired" true none
    busy ← query (has_active principal.identity)
    found ← query (next_task principal.identity)
    lease_or_idle principal row (if busy then none else found)

  -- `claim`
  unfoldable pub claim : Principal → Value → Action Response
  unfolding require_role claim_effect
  claim principal payload = do
    require_role principal "worker"
    m ← lift (fields payload ("operation_id" ∷ []) [])
    operation ← lift (at "operation_id" m)
    operate env principal operation "claim" payload (claim_effect principal) "worker"

-- the attempt, if it is the principal's own
abbrev pub own_attempt : String → String → Db → Option AttemptRow
own_attempt identity worker_id db =
    find (λ a. same a.id identity && same a.worker_id worker_id) db.attempts

-- `epoch is None or epoch[0] != principal.credential_epoch`, negated
abbrev pub same_epoch : Option EpochRow → Option ℕ → Bool
same_epoch (some r) (some e) = r.credential_epoch == e
same_epoch _ _ = false

module _ (env : Env) where
  unfoldable pub read_state : Principal → String → Action (State × ℕ)
  read_state principal identity = do
    authorize env principal
    row ← or_raise (← query (own_attempt identity principal.identity)) "not_found" 404
    epoch ← query (epoch_of identity)
    guard (same_epoch epoch principal.credential_epoch) "stale_attempt" 409
    pure (row.state, row.deadline)

  -- `state`
  unfoldable pub state : Principal → String → Action (State × ℕ)
  unfolding require_role read_state
  state principal identity = do
    require_role principal "worker"
    lift (check_identifier identity)
    expire env
    transaction (read_state principal identity)
