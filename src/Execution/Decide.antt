-- ===== src/Execution/Decide.antt =====
-- control_plane/execution.py: `approve`, `cancel` and `retry`, the decisions of the owner. The
-- coordinator is an argument, and its plan is checked in full.
use Prim.Native.String.{◌++◌ as concat}
use pepeuchiacluster.Prelude.{
  Bool, true, false, ◌&&◌, ◌||◌, not, String, same, List, [], ◌∷◌, none, some, any, if◌then◌else◌,
}
use pepeuchiacluster.Contracts.{Result}
use pepeuchiacluster.Contracts.Values.{Value, fields, at, contains}
use pepeuchiacluster.Contracts.Lifecycle.{
  State, state_eq, draft, approved, queued, running, failed, interrupted, cancel_requested,
  cancelled, Principal,
}
use pepeuchiacluster.Capabilities.{Spec, spec_of, plan_schema, result_name}
use pepeuchiacluster.Storage.Rows.{MissionRow, Plan}
use pepeuchiacluster.Storage.Responses.{Response, mission_view, MissionView, PublicWorker}
use pepeuchiacluster.Storage.Database.{insert_task, set_mission_tasks, cancel_attempts}
use pepeuchiacluster.Storage.Actions.{
  Action, Env, ◌>>=◌, ◌>>◌, pure, lift, query, or_raise, guard, exec, new_id,
}
use pepeuchiacluster.Registry.{require_role, list}
use pepeuchiacluster.Service.Access.{owned_mission, required_capability, view}
use pepeuchiacluster.Service.Operate.{transition, operate}
use pepeuchiacluster.Execution.Fence.{expire}

abbrev pub Coordinator : Type 0
Coordinator = MissionView → List PublicWorker → Result Plan

abbrev pub same_bool : Bool → Bool → Bool
same_bool true b = b
same_bool false b = not b

abbrev pub only_result : List String → Bool
only_result (name ∷ []) = same name result_name
only_result _ = false

-- the test that `approve` makes of a plan
unfoldable pub is_valid_plan : Plan → String → Spec → List PublicWorker → Bool
is_valid_plan plan capability spec workers =
    same plan.schema plan_schema
    && same plan.capability capability
    && (same plan.role spec.role
        && same plan.instruction spec.instruction
        && same_bool plan.simulated spec.simulated)
    && only_result plan.outputs
    && any (λ w. same w.id plan.worker_id && contains plan.capability w.capabilities) workers

-- the answer of the three handlers
unfoldable pub view_response : MissionRow → Action Response
unfolding view
view_response mission = do v ← view mission; pure (mission_view v)

module _ (env : Env) where
  -- the row that `approve` inserts, between the two transitions
  unfoldable pub queue_task : Principal → MissionRow → Plan → Action Response
  unfolding view_response
  queue_task principal mission plan = do
    after ← transition env principal mission approved none
    task ← new_id env "t"
    exec (
        insert_task (record {
          id = task;
          mission_id = mission.id;
          role = plan.role;
          capability = plan.capability;
          worker_id = plan.worker_id;
          state = queued;
          plan = plan;
        }))
    last ← transition env principal after queued none
    view_response last

  unfoldable pub approve_effect : Coordinator → Principal → String → Action Response
  unfolding owned_mission view required_capability queue_task is_valid_plan
  approve_effect coordinator principal identity = do
    mission ← owned_mission principal identity
    guard (state_eq mission.state draft) "invalid_transition" 409
    workers ← query (list true)
    seen ← view mission
    plan ← lift (coordinator seen workers)
    capability ← required_capability identity
    spec ← or_raise (spec_of capability) "operation_failed" 500
    guard (is_valid_plan plan capability spec workers) "invalid_plan" 409
    queue_task principal mission plan

  -- `approve`
  unfoldable pub approve : Coordinator → Principal → String → Value → Action Response
  unfolding approve_effect
  approve coordinator principal identity payload = do
    m ← lift (fields payload ("operation_id" ∷ []) [])
    operation ← lift (at "operation_id" m)
    operate env principal operation (concat "approve:" identity) payload
        (approve_effect coordinator principal identity) "admin"

  abbrev cancel_target : State → State
  cancel_target s = if state_eq s running then cancel_requested else cancelled

  unfoldable pub cancel_mission : Principal → MissionRow → Action Response
  unfolding view_response
  cancel_mission principal mission = do
    after ← transition env principal mission (cancel_target mission.state) none
    exec (set_mission_tasks mission.id (cancel_target mission.state))
    exec (cancel_attempts mission.id (cancel_target mission.state))
    view_response after

  unfoldable pub cancel_effect : Principal → String → Action Response
  unfolding owned_mission view_response cancel_mission
  cancel_effect principal identity = do
    mission ← owned_mission principal identity
    if state_eq mission.state cancel_requested
        then view_response mission
        else cancel_mission principal mission

  -- `cancel`
  unfoldable pub cancel : Principal → String → Value → Action Response
  unfolding require_role cancel_effect
  cancel principal identity payload = do
    require_role principal "admin"
    m ← lift (fields payload ("operation_id" ∷ []) [])
    expire env
    operation ← lift (at "operation_id" m)
    operate env principal operation (concat "cancel:" identity) payload
        (cancel_effect principal identity) "admin"

  unfoldable pub retry_effect : Principal → String → Action Response
  unfolding owned_mission view_response
  retry_effect principal identity = do
    mission ← owned_mission principal identity
    guard (state_eq mission.state failed || state_eq mission.state interrupted) "invalid_transition"
        409
    after ← transition env principal mission queued (some "explicit_retry")
    exec (set_mission_tasks identity queued)
    view_response after

  -- `retry`
  unfoldable pub retry : Principal → String → Value → Action Response
  unfolding require_role retry_effect
  retry principal identity payload = do
    require_role principal "admin"
    m ← lift (fields payload ("operation_id" ∷ []) [])
    expire env
    operation ← lift (at "operation_id" m)
    operate env principal operation (concat "retry:" identity) payload
        (retry_effect principal identity) "admin"
