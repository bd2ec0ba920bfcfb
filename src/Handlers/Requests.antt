-- ===== src/Handlers/Requests.antt =====
-- A property of the tables over a sequence of calls, from the transactions of the requests.
use pepeuchiacluster.Prelude.{ℕ, ◌+◌, String, List, [], ◌∷◌, Option, Bool}
use pepeuchiacluster.Contracts.Values.{Value}
use pepeuchiacluster.Contracts.Lifecycle.{Principal}
use pepeuchiacluster.Contracts.Outcomes.{ExecutionResult}
use pepeuchiacluster.Storage.Rows.{Limits, WorkerRow}
use pepeuchiacluster.Storage.Responses.{Response}
use pepeuchiacluster.Storage.Database.{Db, insert_worker, set_credential}
use pepeuchiacluster.Storage.Actions.{World, Action, Env, exec}
use pepeuchiacluster.Storage.Actions.Keeps.{Keeps, Stays, stays_rules}
use pepeuchiacluster.Registry.{
  require_role, policy, check_worker_id, audit_identity, enroll, rotate,
}
use pepeuchiacluster.Service.Operate.{operate, operate_once}
use pepeuchiacluster.Service.Create.{create_effect, create, create_mission, create_cpu_mission}
use pepeuchiacluster.Workspace.Publish.{upload_effect, upload}
use pepeuchiacluster.Workspace.Output.{Output}
use pepeuchiacluster.Execution.Fence.{fence, revoke_effect, recover, expire, revoke_worker}
use pepeuchiacluster.Execution.Overview.{get_mission, list_missions, nodes, dashboard}
use pepeuchiacluster.Execution.Decide.{
  Coordinator, approve_effect, cancel_effect, retry_effect, approve, cancel, retry,
}
use pepeuchiacluster.Execution.Claim.{claim_effect, claim, state}
use pepeuchiacluster.Execution.Finish.{finish_once, finish}
use pepeuchiacluster.Handlers.Reads.{reads_rules, views-Keeps, counted-Keeps}
use pepeuchiacluster.Api.{
  Route, post_claim, post_finish, get_state, get_missions, get_mission_of, get_dashboard, get_nodes,
  post_missions, post_cpu_missions, post_revoke, post_files, post_approve, post_cancel, post_retry,
  Call, request_of, restart, enroll_worker, rotate_worker, dispatch, handle, serve,
}

-- What the requests ask of a property of the tables: that the transaction of each keeps it.
pub record EffectsKeep (P : Db → Type 0) (env : Env) (coordinator : Coordinator) : Type 0 where
  pub enrolling : (r : WorkerRow) → Keeps P (exec (insert_worker r))
  pub rotating :
      (k digest : String) (stamp : ℕ) (row : WorkerRow)
      → Keeps P (exec (set_credential k digest (row.credential_epoch + 1) stamp))
  pub auditing : (k reason : String) → Keeps P (audit_identity env k reason)
  pub fencing :
      (reason : String) (expired_only : Bool) (k : Option String)
      → Keeps P (fence env reason expired_only k)
  pub operating :
      (p : Principal) (role operation hash : String) (effect : Action Response)
      → Keeps P effect
      → Keeps P (operate_once env p role operation hash effect)
  pub creating :
      (p : Principal) (w t o : String) (refs : List String) (c : String)
      → Keeps P (create_effect env p w t o refs c)
  pub uploading : (p : Principal) (w : String) (o : Output) → Keeps P (upload_effect env p w o)
  pub approving : (p : Principal) (k : String) → Keeps P (approve_effect env coordinator p k)
  pub cancelling : (p : Principal) (k : String) → Keeps P (cancel_effect env p k)
  pub retrying : (p : Principal) (k : String) → Keeps P (retry_effect env p k)
  pub revoking : (p : Principal) (k : String) → Keeps P (revoke_effect env p k)
  pub claiming : (p : Principal) → Keeps P (claim_effect env p)
  pub finishing :
      (p : Principal) (k : String) (r : ExecutionResult) (digest : String)
      → Keeps P (finish_once env p k r digest)

module _ {P : Db → Type 0} (env : Env) (c : Coordinator) (keep : EffectsKeep P env c) where
  require_role-Stays : (p : Principal) (r : String) → Stays P (require_role p r)
  unfolding require_role
  require_role-Stays p r = search stays_rules

  operate-Stays :
      (p : Principal) (operation : Value) (action : String) (payload : Value)
      (effect : Action Response) (role : String)
      → Keeps P effect
      → Stays P (operate env p operation action payload effect role)
  unfolding operate
  operate-Stays p operation action payload effect role k =
      search (stays_rules, keep.operating) depth 9

  recover-Stays : Stays P (recover env)
  unfolding recover
  recover-Stays = search (stays_rules, keep.fencing)

  expire-Stays : Stays P (expire env)
  unfolding expire
  expire-Stays = search (stays_rules, keep.fencing)

  create-Stays : (p : Principal) (data_ : Value) (c : String) → Stays P (create env p data_ c)
  unfolding create
  create-Stays p data_ c = search (stays_rules, operate-Stays, keep.creating) depth 20 fits 3000

  create_mission-Stays : (p : Principal) (d : Value) → Stays P (create_mission env p d)
  unfolding create_mission
  create_mission-Stays p d = create-Stays p d _

  create_cpu_mission-Stays : (p : Principal) (d : Value) → Stays P (create_cpu_mission env p d)
  unfolding create_cpu_mission
  create_cpu_mission-Stays p d = create-Stays p d _

  upload-Stays : (p : Principal) (k : String) (data_ : Value) → Stays P (upload env p k data_)
  unfolding upload
  upload-Stays p k data_ =
      search (stays_rules, require_role-Stays, operate-Stays, keep.uploading) depth 12

  approve-Stays : (p : Principal) (k : String) (data_ : Value) → Stays P (approve env c p k data_)
  unfolding approve
  approve-Stays p k data_ = search (stays_rules, operate-Stays, keep.approving) depth 9

  cancel-Stays : (p : Principal) (k : String) (data_ : Value) → Stays P (cancel env p k data_)
  unfolding cancel
  cancel-Stays p k data_ =
      search (stays_rules, require_role-Stays, expire-Stays, operate-Stays, keep.cancelling) depth
        12

  retry-Stays : (p : Principal) (k : String) (data_ : Value) → Stays P (retry env p k data_)
  unfolding retry
  retry-Stays p k data_ =
      search (stays_rules, require_role-Stays, expire-Stays, operate-Stays, keep.retrying) depth 12

  revoke_worker-Stays :
      (p : Principal) (k : String) (data_ : Value) → Stays P (revoke_worker env p k data_)
  unfolding revoke_worker
  revoke_worker-Stays p k data_ = search (stays_rules, operate-Stays, keep.revoking) depth 9

  claim-Stays : (p : Principal) (data_ : Value) → Stays P (claim env p data_)
  unfolding claim
  claim-Stays p data_ =
      search (stays_rules, require_role-Stays, operate-Stays, keep.claiming) depth 9

  finish-Stays : (p : Principal) (k : String) (r : ExecutionResult) → Stays P (finish env p k r)
  unfolding finish
  finish-Stays p k r =
      search (stays_rules, require_role-Stays, expire-Stays, keep.finishing) depth 15

  state-Stays : (p : Principal) (k : String) → Stays P (state env p k)
  unfolding state
  state-Stays p k = search (stays_rules, require_role-Stays, expire-Stays, reads_rules) depth 9

  get_mission-Stays : (p : Principal) (k : String) → Stays P (get_mission env p k)
  unfolding get_mission
  get_mission-Stays p k =
      search (stays_rules, require_role-Stays, expire-Stays, reads_rules) depth 9

  list_missions-Stays : (p : Principal) → Stays P (list_missions env p)
  unfolding list_missions
  list_missions-Stays p =
      search (stays_rules, require_role-Stays, expire-Stays, reads_rules, views-Keeps) depth 9

  nodes-Stays : (p : Principal) → Stays P (nodes env p)
  unfolding nodes
  nodes-Stays p = search (stays_rules, require_role-Stays, expire-Stays, reads_rules) depth 9

  dashboard-Stays : (p : Principal) → Stays P (dashboard env p)
  unfolding dashboard
  dashboard-Stays p =
      search (stays_rules, require_role-Stays, expire-Stays, nodes-Stays, counted-Keeps) depth 9

  enroll-Stays :
      (capabilities : List String) (limits : Limits) (digest : String)
      → Stays P (enroll env capabilities limits digest)
  unfolding enroll policy
  enroll-Stays capabilities limits digest =
      search (stays_rules, reads_rules, keep.enrolling, keep.rotating, keep.auditing) depth 12

  check_worker_id-Stays : (k : String) → Stays P (check_worker_id k)
  unfolding check_worker_id
  check_worker_id-Stays k = search stays_rules

  rotate-Stays :
      (k : String) (reactivate : Bool) (digest : String) → Stays P (rotate env k reactivate digest)
  unfolding rotate
  rotate-Stays k reactivate digest =
      search
        (
          stays_rules, reads_rules, keep.enrolling, keep.rotating, check_worker_id-Stays,
          keep.auditing,
        )
        depth 12

  dispatch-Stays : (p : Principal) (r : Route) → Stays P (dispatch env c p r)
  unfolding dispatch
  dispatch-Stays p (post_claim d) = search (stays_rules, claim-Stays)
  dispatch-Stays p (post_finish k d) = search (stays_rules, finish-Stays)
  dispatch-Stays p (get_state k) = search (stays_rules, state-Stays)
  dispatch-Stays p get_missions = search (stays_rules, list_missions-Stays)
  dispatch-Stays p (get_mission_of k) = search (stays_rules, get_mission-Stays)
  dispatch-Stays p get_dashboard = search (stays_rules, dashboard-Stays)
  dispatch-Stays p get_nodes = search (stays_rules, nodes-Stays)
  dispatch-Stays p (post_missions d) = search (stays_rules, create_mission-Stays)
  dispatch-Stays p (post_cpu_missions d) = search (stays_rules, create_cpu_mission-Stays)
  dispatch-Stays p (post_revoke k d) = search (stays_rules, revoke_worker-Stays)
  dispatch-Stays p (post_files k d) = search (stays_rules, upload-Stays)
  dispatch-Stays p (post_approve k d) = search (stays_rules, approve-Stays)
  dispatch-Stays p (post_cancel k d) = search (stays_rules, cancel-Stays)
  dispatch-Stays p (post_retry k d) = search (stays_rules, retry-Stays)

  handle-Stays : (call : Call) → Stays P (handle env c call)
  unfolding handle
  handle-Stays (request_of p r) = dispatch-Stays p r
  handle-Stays restart = recover-Stays
  handle-Stays (enroll_worker capabilities limits digest) = search (stays_rules, enroll-Stays)
  handle-Stays (rotate_worker k reactivate digest) = search (stays_rules, rotate-Stays)

  pub serve-holds : (calls : List Call) (w : World) → P w.db → P (serve env c calls w).db
  unfolding serve
  serve-holds [] w h = h
  serve-holds (call ∷ calls) w h =
      serve-holds calls (handle env c call w).1 ((handle-Stays call).at w h)
