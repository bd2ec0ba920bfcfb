-- ===== src/Execution/Fence.antt =====
-- control_plane/execution.py: `_fence`, `recover`, `expire`, and `revoke_worker` of
-- control_plane/service.py: the active attempts that a restart, a deadline or a revocation interrupts.
use Prim.Native.String.{◌++◌ as concat}
use pepeuchiacluster.Prelude.{
  ℕ, Bool, true, false, ◌&&◌, ltb, String, same, List, [], ◌∷◌, Option, none, some, find,
  if◌then◌else◌,
}
use pepeuchiacluster.Contracts.Values.{Value, fields, at}
use pepeuchiacluster.Contracts.Lifecycle.{interrupted, is_active, Principal, system}
use pepeuchiacluster.Storage.Rows.{TaskRow, AttemptRow, WorkspaceRow}
use pepeuchiacluster.Storage.Responses.{Response, worker}
use pepeuchiacluster.Storage.Database.{
  Db, task_with, mission_with, interrupt_attempt, set_task_state,
}
use pepeuchiacluster.Storage.Actions.{
  Action, Env, ◌>>=◌, ◌>>◌, pure, lift, query, or_raise, exec, each, now, transaction,
}
use pepeuchiacluster.Registry.{revoke}
use pepeuchiacluster.Service.Operate.{audit, transition, operate}

-- A row of the join of `attempts` and `tasks` that `_fence` reads.
pub record ActiveRow : Type 0 where
  pub id : String
  pub task_id : String
  pub deadline : ℕ
  pub mission_id : String

-- `? IS NULL OR a.worker_id = ?`
abbrev pub of_worker : Option String → AttemptRow → Bool
of_worker none a = true
of_worker (some k) a = same a.worker_id k

abbrev pub joined_row : AttemptRow → TaskRow → ActiveRow
joined_row a t = record {
  id = a.id;
  task_id = a.task_id;
  deadline = a.deadline;
  mission_id = t.mission_id;
}

abbrev pub joined : AttemptRow → Option TaskRow → List ActiveRow → List ActiveRow
joined a none rest = rest
joined a (some t) rest = joined_row a t ∷ rest

-- the active attempts, of one worker or of all, with their missions
unfoldable pub active_rows : Option String → List AttemptRow → Db → List ActiveRow
active_rows worker_id [] db = []
active_rows worker_id (a ∷ as') db =
    let rest = active_rows worker_id as' db in
    if is_active a.state && of_worker worker_id a
    then joined a (task_with a.task_id db) rest
    else rest

module _ (env : Env) where
  unfoldable pub interrupt : String → ActiveRow → Action (Unit {0})
  interrupt reason row = do
    exec (interrupt_attempt row.id reason)
    exec (set_task_state row.task_id interrupted)
    mission ← or_raise (← query (mission_with row.mission_id)) "operation_failed" 500
    transition env system mission interrupted (some reason)
    pure tt

  -- one round of the loop of `_fence`: an attempt within its deadline is passed over
  unfoldable pub fence_row : String → Bool → ActiveRow → Action (Unit {0})
  unfolding interrupt
  fence_row reason false row = interrupt reason row
  fence_row reason true row = do
    t ← now env
    if ltb t row.deadline then pure tt else interrupt reason row

  -- `_fence`
  unfoldable pub fence : String → Bool → Option String → Action (Unit {0})
  unfolding fence_row active_rows
  fence reason expired_only worker_id = do
    rows ← query λ db. active_rows worker_id db.attempts db
    each rows (fence_row reason expired_only)

  -- `recover`, when the backend starts
  unfoldable pub recover : Action (Unit {0})
  unfolding fence
  recover = transaction (fence "backend_restart" false none)

  -- `expire`
  unfoldable pub expire : Action (Unit {0})
  unfolding fence
  expire = transaction (fence "attempt_expired" true none)

  abbrev workspace_of : String → Db → Option WorkspaceRow
  workspace_of owner db = find (λ r. same r.owner owner) db.workspaces

  unfoldable pub revoke_effect : Principal → String → Action Response
  unfolding fence
  revoke_effect principal identity = do
    public ← revoke env identity
    fence "worker_revoked" false (some identity)
    workspace ← or_raise (← query (workspace_of principal.identity)) "operation_failed" 500
    audit env principal workspace.id none "worker_revoked" (("worker_id", identity) ∷ [])
    pure (worker public)

  -- `ControlPlane.revoke_worker`
  unfoldable pub revoke_worker : Principal → String → Value → Action Response
  unfolding revoke_effect
  revoke_worker principal identity payload = do
    m ← lift (fields payload ("operation_id" ∷ []) [])
    operation ← lift (at "operation_id" m)
    operate env principal operation (concat "revoke_worker:" identity) payload
        (revoke_effect principal identity) "admin"
