-- ===== src/Api.antt =====
-- The requests of control_plane/http_api.py (`API.dispatch`) whose handler writes, if only by `expire`,
-- with the state that they read, and the maintenance commands of control_plane/__main__.py. The path
-- of a request is already split into its route and its identities.
use pepeuchiacluster.Prelude.{Bool, String, List, [], ◌∷◌}
use pepeuchiacluster.Contracts.Values.{Value}
use pepeuchiacluster.Contracts.Lifecycle.{Principal}
use pepeuchiacluster.Contracts.Outcomes.{from_dict}
use pepeuchiacluster.Storage.Rows.{Limits}
use pepeuchiacluster.Storage.Actions.{World, Action, Env, ◌>>=◌, ◌>>◌, pure, lift}
use pepeuchiacluster.Registry.{require_role, enroll, rotate}
use pepeuchiacluster.Service.Create.{create_mission, create_cpu_mission}
use pepeuchiacluster.Workspace.Publish.{upload}
use pepeuchiacluster.Execution.Fence.{recover, revoke_worker}
use pepeuchiacluster.Execution.Overview.{get_mission, list_missions, nodes, dashboard}
use pepeuchiacluster.Execution.Decide.{Coordinator, approve, cancel, retry}
use pepeuchiacluster.Execution.Claim.{claim, state}
use pepeuchiacluster.Execution.Finish.{finish}

-- The routes of `dispatch`, with the identity that the path holds and the decoded body.
pub data Route : Type 0 where
  post_claim : Value → Route
  post_finish : String → Value → Route
  get_state : String → Route
  get_missions : Route
  get_mission_of : String → Route
  get_dashboard : Route
  get_nodes : Route
  post_missions : Value → Route
  post_cpu_missions : Value → Route
  post_revoke : String → Value → Route
  post_files : String → Value → Route
  post_approve : String → Value → Route
  post_cancel : String → Value → Route
  post_retry : String → Value → Route

-- What reaches the control plane: a request of an authenticated principal, the start of the
-- backend, and the two commands on worker identities.
pub data Call : Type 0 where
  request_of : Principal → Route → Call
  restart : Call
  enroll_worker : List String → Limits → String → Call
  rotate_worker : String → Bool → String → Call

module _ (env : Env) (coordinator : Coordinator) where
  -- `dispatch`, for these routes; what it answers is dropped
  unfoldable pub dispatch : Principal → Route → Action (Unit {0})
  unfolding require_role
  dispatch p (post_claim data_) = do claim env p data_; pure tt
  dispatch p (post_finish k data_) = do
    require_role p "worker"
    result ← lift (from_dict data_)
    finish env p k result
    pure tt
  dispatch p (get_state k) = do state env p k; pure tt
  dispatch p get_missions = do require_role p "admin"; list_missions env p; pure tt
  dispatch p (get_mission_of k) = do require_role p "admin"; get_mission env p k; pure tt
  dispatch p get_dashboard = do require_role p "admin"; dashboard env p; pure tt
  dispatch p get_nodes = do require_role p "admin"; nodes env p; pure tt
  dispatch p (post_missions data_) = do require_role p "admin"; create_mission env p data_; pure tt
  dispatch p (post_cpu_missions data_) = do
    require_role p "admin"
    create_cpu_mission env p data_
    pure tt
  dispatch p (post_revoke k data_) = do require_role p "admin"; revoke_worker env p k data_; pure tt
  dispatch p (post_files k data_) = do require_role p "admin"; upload env p k data_; pure tt
  dispatch p (post_approve k data_) = do
    require_role p "admin"
    approve env coordinator p k data_
    pure tt
  dispatch p (post_cancel k data_) = do require_role p "admin"; cancel env p k data_; pure tt
  dispatch p (post_retry k data_) = do require_role p "admin"; retry env p k data_; pure tt

  unfoldable pub handle : Call → Action (Unit {0})
  unfolding dispatch
  handle (request_of p r) = dispatch p r
  handle restart = recover env
  handle (enroll_worker capabilities limits digest) = do
    enroll env capabilities limits digest
    pure tt
  handle (rotate_worker k reactivate digest) = do rotate env k reactivate digest; pure tt

  -- one call after another, each whatever the one before it answered
  unfoldable pub serve : List Call → World → World
  unfolding handle
  serve [] w = w
  serve (c ∷ cs) w = serve cs (handle c w).1
