-- ===== src/Service/Access.antt =====
-- control_plane/service.py: what a caller may see. `_mission`, `_required_capability` and `_view`, and
-- `workspace_access` of control_plane/auth.py.
use pepeuchiacluster.Prelude.{
  ◌&&◌, leb, String, same, List, [], ◌∷◌, map, Option, none, some, select, find, any, all, order_by,
  opt_same, is_some, if◌then◌else◌,
}
use pepeuchiacluster.Contracts.Texts.{check_identifier}
use pepeuchiacluster.Contracts.Lifecycle.{Principal}
use pepeuchiacluster.Capabilities.{demo, cpu_digest, spec_of}
use pepeuchiacluster.Storage.Rows.{
  WorkspaceRow, MissionRow, TaskRow, AttemptRow, VersionRow, Details, Plan,
}
use pepeuchiacluster.Storage.Responses.{MissionView, ResultView}
use pepeuchiacluster.Storage.Database.{Db, task_of_mission}
use pepeuchiacluster.Storage.Actions.{
  Action, ◌>>=◌, ◌>>◌, pure, raise, lift, query, or_raise, guard,
}
use pepeuchiacluster.Registry.{require_role}
use pepeuchiacluster.Service.Ledger.{contract_type, is_contract}

-- `workspace_access` of control_plane/auth.py
unfoldable pub workspace_access : Principal → String → Action WorkspaceRow
unfolding require_role
workspace_access principal workspace_id = do
  require_role principal "admin"
  row ←
      query
        λ db. find (λ r. same r.id workspace_id && same r.owner principal.identity) db.workspaces
  or_raise row "not_found" 404

-- `_mission`
unfoldable pub owned_mission : Principal → String → Action MissionRow
unfolding require_role
owned_mission principal identity = do
  require_role principal "admin"
  lift (check_identifier identity)
  row ← query λ db. find (λ r. same r.id identity && same r.owner principal.identity) db.missions
  or_raise row "not_found" 404

-- the answer of `_required_capability` from the details of the recorded contracts
unfoldable pub decide_contract : List Details → Action String
unfolding is_contract
decide_contract [] = pure demo
decide_contract (d ∷ []) = do guard (is_contract d) "invalid_mission_contract" 409; pure cpu_digest
decide_contract (d ∷ e ∷ ds) = raise "invalid_mission_contract" 409

abbrev pub contracts_of : String → Db → List Details
contracts_of identity db =
    map (λ e. e.details)
      (select (λ e. opt_same e.mission_id (some identity) && same e.type contract_type) db.events)

-- `_required_capability`: the recorded contract of the mission, or the demonstration
unfoldable pub required_capability : String → Action String
unfolding decide_contract
required_capability identity = do decide_contract (← query (contracts_of identity))

abbrev version_file : String → List VersionRow → String
version_file k [] = ""
version_file k (v ∷ vs) = if same v.id k then v.file_id else version_file k vs

-- the join of `results` and `versions` for one mission
abbrev results_of : String → Db → List ResultView
results_of identity db =
    map
      (λ r. record {
        id = r.id;
        attempt_id = r.attempt_id;
        version_id = r.version_id;
        provenance = r.provenance;
        file_id = version_file r.version_id db.versions;
      })
      (select
        (λ r.
          any (λ v. same v.id r.version_id && opt_same v.mission_id (some identity)) db.versions)
        db.results)

abbrev tasks_of : String → Db → List TaskRow
tasks_of identity db = select (λ t. same t.mission_id identity) db.tasks

abbrev attempts_of : String → Db → List AttemptRow
attempts_of identity db =
    order_by (λ a b. leb a.number b.number)
      (select (λ a. task_of_mission identity db a.task_id) db.attempts)

abbrev plan_of : List TaskRow → Option Plan
plan_of [] = none
plan_of (t ∷ ts) = some t.plan

-- `_view`; a task of an unknown capability is a `KeyError`
unfoldable pub view : MissionRow → Action MissionView
unfolding required_capability
view row = do
  tasks ← query (tasks_of row.id)
  guard (all (λ t. is_some (spec_of t.capability)) tasks) "operation_failed" 500
  capability ← required_capability row.id
  attempts ← query (attempts_of row.id)
  results ← query (results_of row.id)
  pure (record {
    mission = row;
    required_capability = capability;
    tasks = tasks;
    plan = plan_of tasks;
    attempts = attempts;
    results = results;
  })
