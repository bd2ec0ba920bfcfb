-- ===== src/Handlers/Reads.antt =====
-- The actions of the handlers that only read the tables, under a property of the tables.
use pepeuchiacluster.Prelude.{ℕ, ◌≡◌, arith, String, List, [], ◌∷◌, Option, none, some}
use pepeuchiacluster.Contracts.Lifecycle.{Principal, State}
use pepeuchiacluster.Contracts.Outcomes.{ExecutionResult}
use pepeuchiacluster.Storage.Rows.{MissionRow, Limits, Details}
use pepeuchiacluster.Storage.Database.{Db}
use pepeuchiacluster.Storage.Actions.{World, Env, Settings}
use pepeuchiacluster.Storage.Actions.Keeps.{
  Keeps, Keeps-bind, Keeps-pure, Keeps-untouched, keeps_rules,
}
use pepeuchiacluster.Registry.{require_role, policy, check_worker_id, authorize}
use pepeuchiacluster.Service.Access.{
  workspace_access, owned_mission, decide_contract, required_capability, view,
}
use pepeuchiacluster.Service.Operate.{actor_of, replay}
use pepeuchiacluster.Storage.Database.{OperationRow}
use pepeuchiacluster.Workspace.Output.{put_object}
use pepeuchiacluster.Execution.Decide.{view_response}
use pepeuchiacluster.Execution.Overview.{views, active_mission, counted}
use pepeuchiacluster.Execution.Claim.{read_state}
use pepeuchiacluster.Execution.Finish.{check_cancellation}

db-put_object : (env : Env) (raw : List ℕ) (w : World) → (put_object env raw w).1.db ≡ w.db
unfolding put_object
db-put_object env raw w = ground arith

module _ {P : Db → Type 0} where
  pub require_role-Keeps : (p : Principal) (r : String) → Keeps P (require_role p r)
  unfolding require_role
  require_role-Keeps p r = search keeps_rules

  policy-Keeps : (c : List String) (l : Limits) (s : Settings) → Keeps P (policy c l s)
  unfolding policy
  policy-Keeps c l s = search keeps_rules

  pub check_worker_id-Keeps : (k : String) → Keeps P (check_worker_id k)
  unfolding check_worker_id
  check_worker_id-Keeps k = search keeps_rules

  pub authorize-Keeps : (env : Env) (p : Principal) → Keeps P (authorize env p)
  unfolding authorize
  authorize-Keeps env p = search (keeps_rules, require_role-Keeps, policy-Keeps) depth 9

  pub workspace_access-Keeps : (p : Principal) (k : String) → Keeps P (workspace_access p k)
  unfolding workspace_access
  workspace_access-Keeps p k = search (keeps_rules, require_role-Keeps)

  pub owned_mission-Keeps : (p : Principal) (k : String) → Keeps P (owned_mission p k)
  unfolding owned_mission
  owned_mission-Keeps p k = search (keeps_rules, require_role-Keeps) depth 7

  decide_contract-Keeps : (ds : List Details) → Keeps P (decide_contract ds)
  unfolding decide_contract
  decide_contract-Keeps [] = search keeps_rules
  decide_contract-Keeps (d ∷ []) = search keeps_rules
  decide_contract-Keeps (d ∷ e ∷ ds) = search keeps_rules

  pub required_capability-Keeps : (k : String) → Keeps P (required_capability k)
  unfolding required_capability
  required_capability-Keeps k = search (keeps_rules, decide_contract-Keeps)

  pub view-Keeps : (m : MissionRow) → Keeps P (view m)
  unfolding view
  view-Keeps m = search (keeps_rules, required_capability-Keeps) depth 9

  pub view_response-Keeps : (m : MissionRow) → Keeps P (view_response m)
  unfolding view_response
  view_response-Keeps m = search (keeps_rules, view-Keeps)

  pub actor_of-Keeps : (env : Env) (p : Principal) (r : String) → Keeps P (actor_of env p r)
  unfolding actor_of
  actor_of-Keeps env p r = search (keeps_rules, authorize-Keeps)

  pub replay-Keeps : (env : Env) (h : String) (o : OperationRow) → Keeps P (replay env h o)
  replay-Keeps env h o = search keeps_rules

  pub put_object-Keeps : (env : Env) (raw : List ℕ) → Keeps P (put_object env raw)
  put_object-Keeps env raw = Keeps-untouched (put_object env raw) (db-put_object env raw)

  pub read_state-Keeps : (env : Env) (p : Principal) (k : String) → Keeps P (read_state env p k)
  unfolding read_state
  read_state-Keeps env p k = search (keeps_rules, authorize-Keeps) depth 9

  pub check_cancellation-Keeps :
      (env : Env) (s : State) (r : ExecutionResult) → Keeps P (check_cancellation env s r)
  unfolding check_cancellation
  check_cancellation-Keeps env s r = search keeps_rules

module _ {P : Db → Type 0} where
  pub views-Keeps : (rows : List MissionRow) → Keeps P (views rows)
  unfolding views
  views-Keeps [] = search keeps_rules
  views-Keeps (row ∷ rows) =
      Keeps-bind (view row) _ (view-Keeps row)
        λ v. Keeps-bind (views rows) _ (views-Keeps rows) λ vs. Keeps-pure (v ∷ vs)

  active_mission-Keeps : (o : Option MissionRow) → Keeps P (active_mission o)
  unfolding active_mission
  active_mission-Keeps none = search keeps_rules
  active_mission-Keeps (some row) = search (keeps_rules, required_capability-Keeps)

  pub counted-Keeps : (owner : String) → Keeps P (counted owner)
  unfolding counted
  counted-Keeps owner = search (keeps_rules, active_mission-Keeps) depth 9

pub ruleset reads_rules = (
  tt, keeps_rules, require_role-Keeps, check_worker_id-Keeps, authorize-Keeps,
  workspace_access-Keeps, owned_mission-Keeps, required_capability-Keeps, view-Keeps,
  view_response-Keeps, actor_of-Keeps, replay-Keeps, put_object-Keeps, read_state-Keeps,
  check_cancellation-Keeps,
)
