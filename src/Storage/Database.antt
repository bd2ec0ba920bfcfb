-- ===== src/Storage/Database.antt =====
-- The database of control_plane/storage.py: its tables, and the statements that change them, each
-- with the constraints of control_plane/migrations/*.sql that SQLite enforces.
use pepeuchiacluster.Prelude.{
  ℕ, ◌+◌, Bool, true, false, ◌&&◌, ◌||◌, not, ◌==◌, String, same, List, [], ◌∷◌, ◌++◌, Option, none,
  some, find, any, update_where, is_some,
}
use pepeuchiacluster.Contracts.Lifecycle.{State, state_eq, interrupted, running}
use pepeuchiacluster.Storage.Responses.{Response}
use pepeuchiacluster.Storage.Rows.{
  WorkspaceRow, MissionRow, TaskRow, AttemptRow, FileRow, VersionRow, ResultRow, EventRow,
  WorkerRow, EpochRow, same_nocase,
}

-- A row of `operations`.
pub record OperationRow : Type 0 where
  pub actor : String
  pub id : String
  pub request_sha256 : String
  pub response : Response

pub record Db : Type 0 where
  pub workspaces : List WorkspaceRow
  pub missions : List MissionRow
  pub tasks : List TaskRow
  pub attempts : List AttemptRow
  pub files : List FileRow
  pub versions : List VersionRow
  pub results : List ResultRow
  pub events : List EventRow
  pub operations : List OperationRow
  pub workers : List WorkerRow
  pub epochs : List EpochRow

pub data Statement : Type 0 where
  insert_mission : MissionRow → Statement
  set_mission_state : String → State → Statement
  insert_task : TaskRow → Statement
  set_task_state : String → State → Statement
  set_mission_tasks : String → State → Statement
  insert_attempt : AttemptRow → Statement
  interrupt_attempt : String → String → Statement
  cancel_attempts : String → State → Statement
  finish_attempt : String → State → String → Option String → Statement
  insert_epoch : EpochRow → Statement
  insert_file : FileRow → Statement
  insert_version : VersionRow → Statement
  insert_result : ResultRow → Statement
  insert_event : EventRow → Statement
  insert_operation : OperationRow → Statement
  insert_worker : WorkerRow → Statement
  set_credential : String → String → ℕ → ℕ → Statement
  revoke_worker : String → ℕ → Statement

unfoldable pub mission_with : String → Db → Option MissionRow
mission_with k db = find (λ r. same r.id k) db.missions

unfoldable pub task_with : String → Db → Option TaskRow
task_with k db = find (λ r. same r.id k) db.tasks

unfoldable pub attempt_with : String → Db → Option AttemptRow
attempt_with k db = find (λ r. same r.id k) db.attempts

unfoldable pub worker_with : String → Db → Option WorkerRow
worker_with k db = find (λ r. same r.id k) db.workers

unfoldable pub epoch_of : String → Db → Option EpochRow
epoch_of k db = find (λ r. same r.attempt_id k) db.epochs

unfoldable pub operation_with : String → String → Db → Option OperationRow
operation_with actor k db = find (λ r. same r.actor actor && same r.id k) db.operations

unfoldable pub is_workspace : String → Db → Bool
is_workspace k db = any (λ r. same r.id k) db.workspaces

abbrev optional {ℓ} : {A : Type ℓ} → (A → Bool) → Option A → Bool
optional p none = true
optional p (some a) = p a

-- `x IN (SELECT id FROM tasks WHERE mission_id = ?)`
unfoldable pub task_of_mission : String → Db → String → Bool
task_of_mission k db t = any (λ r. same r.id t && same r.mission_id k) db.tasks

-- the constraint holds, or the statement fails with an `IntegrityError`
abbrev pub checked : Bool → Db → Option Db
checked true db = some db
checked false db = none

-- One statement: the tables after it, or `none` where a primary key, a `UNIQUE` or a
-- `REFERENCES` constraint is broken (`PRAGMA foreign_keys=ON`).
unfoldable pub apply : Statement → Db → Option Db
unfolding task_of_mission mission_with task_with attempt_with worker_with operation_with
    is_workspace epoch_of
apply (insert_mission r) db =
    checked (not (is_some (mission_with r.id db)) && is_workspace r.workspace_id db)
      (record db { missions = db.missions ++ r ∷ [] })
apply (set_mission_state k s) db = some (record db {
  missions = update_where (λ r. same r.id k) (λ r. record r { state = s }) db.missions;
})
apply (insert_task r) db =
    checked
      (not (is_some (task_with r.id db))
        && not (any (λ t. same t.mission_id r.mission_id) db.tasks)
        && is_some (mission_with r.mission_id db))
      (record db { tasks = db.tasks ++ r ∷ [] })
apply (set_task_state k s) db =
    some
      (record db { tasks = update_where (λ r. same r.id k) (λ r. record r { state = s }) db.tasks })
apply (set_mission_tasks k s) db = some (record db {
  tasks = update_where (λ r. same r.mission_id k) (λ r. record r { state = s }) db.tasks;
})
apply (insert_attempt r) db =
    checked
      (not (is_some (attempt_with r.id db))
        && not (
            any
              (λ a.
                same a.generation r.generation
                || (same a.task_id r.task_id && a.number == r.number))
              db.attempts)
        && is_some (task_with r.task_id db))
      (record db { attempts = db.attempts ++ r ∷ [] })
apply (interrupt_attempt k reason) db = some (record db {
  attempts =
      update_where (λ r. same r.id k)
        (λ r. record r { state = interrupted; error_code = some reason }) db.attempts;
})
apply (cancel_attempts k s) db = some (record db {
  attempts =
      update_where (λ r. task_of_mission k db r.task_id && state_eq r.state running)
        (λ r. record r { state = s }) db.attempts;
})
apply (finish_attempt k s digest error) db = some (record db {
  attempts =
      update_where (λ r. same r.id k)
        (λ r. record r { state = s; result_sha256 = some digest; error_code = error }) db.attempts;
})
apply (insert_epoch r) db =
    checked (not (is_some (epoch_of r.attempt_id db)) && is_some (attempt_with r.attempt_id db))
      (record db { epochs = db.epochs ++ r ∷ [] })
apply (insert_file r) db =
    checked
      (not (
          any
            (λ f.
              same f.id r.id || (same f.workspace_id r.workspace_id && same_nocase f.name r.name))
            db.files)
        && is_workspace r.workspace_id db)
      (record db { files = db.files ++ r ∷ [] })
apply (insert_version r) db =
    checked
      (not (
          any (λ v. same v.id r.id || (same v.file_id r.file_id && v.number == r.number))
            db.versions)
        && any (λ f. same f.id r.file_id) db.files
        && optional (λ m. is_some (mission_with m db)) r.mission_id
        && optional (λ a. is_some (attempt_with a db)) r.attempt_id)
      (record db { versions = db.versions ++ r ∷ [] })
apply (insert_result r) db =
    checked
      (not (any (λ x. same x.id r.id || same x.attempt_id r.attempt_id) db.results)
        && is_some (attempt_with r.attempt_id db)
        && any (λ v. same v.id r.version_id) db.versions)
      (record db { results = db.results ++ r ∷ [] })
apply (insert_event r) db =
    checked
      (not (any (λ e. same e.id r.id) db.events)
        && optional (λ m. is_some (mission_with m db)) r.mission_id
        && is_workspace r.workspace_id db)
      (record db { events = db.events ++ r ∷ [] })
apply (insert_operation r) db =
    checked (not (is_some (operation_with r.actor r.id db)))
      (record db { operations = db.operations ++ r ∷ [] })
apply (insert_worker r) db =
    checked (not (is_some (worker_with r.id db))) (record db { workers = db.workers ++ r ∷ [] })
apply (set_credential k digest epoch stamp) db = some (record db {
  workers =
      update_where (λ r. same r.id k)
        (λ r. record r {
          credential_sha256 = digest;
          credential_epoch = epoch;
          active = true;
          updated_at = stamp;
        })
        db.workers;
})
apply (revoke_worker k stamp) db = some (record db {
  workers =
      update_where (λ r. same r.id k)
        (λ r. record r {
          active = false;
          credential_epoch = r.credential_epoch + 1;
          updated_at = stamp;
        })
        db.workers;
})
