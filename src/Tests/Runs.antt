-- ===== src/Tests/Runs.antt =====
-- The theorems at concrete runs of the control plane of the test data.
use pepeuchiacluster.Prelude.{◌≡◌, refl, List, [], ◌∷◌, none, some, arith}
use pepeuchiacluster.Contracts.{Result, ok, err, problem}
use pepeuchiacluster.Contracts.Lifecycle.{draft, completed}
use pepeuchiacluster.Contracts.Texts.{operation_id, check_identifier}
use pepeuchiacluster.Capabilities.{demo, plan}
use pepeuchiacluster.Storage.Responses.{Response, request}
use pepeuchiacluster.Storage.Database.{mission_with, operation_with, apply}
use pepeuchiacluster.Storage.Actions.{
  World, Action, ◌>>=◌, guard, lift, transaction, pure, query, or_raise, each, new_id, now, exec,
}
use pepeuchiacluster.Service.Create.{create_effect}
use pepeuchiacluster.Service.Operate.{audit, operate, operate_once, actor_of, request_hash}
use pepeuchiacluster.Service.Ledger.{is_safe}
use pepeuchiacluster.Service.Access.{view}
use pepeuchiacluster.Api.{Call, request_of, restart, post_approve, post_claim, serve}
use pepeuchiacluster.Lifecycle.Missions.{Evolves}
use pepeuchiacluster.Lifecycle.Requests.{serve-Evolves}
use pepeuchiacluster.Lifecycle.Final.{serve-final}
use pepeuchiacluster.Lifecycle.Solo.{IsSolo, serve-one_active}
use pepeuchiacluster.Lifecycle.History.{Remembers, serve-Remembers}
use pepeuchiacluster.Service.Idempotence.{operate-twice, operate-conflict}
use pepeuchiacluster.Tests.Data.{
  env_example, workspace_id, mission_id, owner, demo_worker, mission_in, world_with, operation,
  body, value_or,
}

-- the owner approves the mission, the worker claims it, the backend starts again
abbrev calls_example : List Call
calls_example =
    request_of owner (post_approve mission_id (body operation))
    ∷ request_of demo_worker (post_claim (body operation))
    ∷ restart
    ∷ []

serve-Evolves_example :
    Evolves
      (world_with (mission_in draft)).db
      (serve env_example plan calls_example (world_with (mission_in draft))).db
serve-Evolves_example =
    serve-Evolves env_example plan calls_example (world_with (mission_in draft)) (refl, tt)

serve-final_example :
    mission_with mission_id
      (serve env_example plan calls_example (world_with (mission_in completed))).db
    ≡ some (mission_in completed)
unfolding mission_with
serve-final_example =
    serve-final env_example plan calls_example (world_with (mission_in completed)) (refl, tt)
      mission_id (mission_in completed) refl refl

serve-one_active_example :
    IsSolo (serve env_example plan calls_example (world_with (mission_in draft))).db
serve-one_active_example =
    serve-one_active env_example plan calls_example (world_with (mission_in draft))
      (λ k. omega arith)

serve-Remembers_example :
    Remembers
      (world_with (mission_in draft)).db
      (serve env_example plan calls_example (world_with (mission_in draft))).db
serve-Remembers_example =
    serve-Remembers env_example plan calls_example (world_with (mission_in draft))

abbrev creation : Action Response
creation = create_effect env_example owner workspace_id "a title" "an objective" [] demo

abbrev first_run : Result Response × World
first_run =
    operate env_example owner operation "create_mission" (body operation) creation "admin"
      (world_with (mission_in draft))

abbrev created : Response
created = value_or (request none) first_run.0

-- the first request is answered
first_run_answers : first_run ≡ (ok created, first_run.1)
unfolding operate ◌>>=◌ guard lift operation_id transaction pure query operation_with create_effect
    or_raise each new_id now exec apply operate_once actor_of mission_with view audit is_safe
    check_identifier
first_run_answers = refl

-- after an approval, a claim and a restart
abbrev afterwards : World
afterwards = serve env_example plan calls_example first_run.1

operate-twice_example :
    operate env_example owner operation "create_mission"
      (body operation)
      creation
      "admin"
      afterwards
    ≡ (ok created, afterwards)
operate-twice_example =
    operate-twice env_example owner operation "create_mission" (body operation) "admin" refl
      creation creation (world_with (mission_in draft)) first_run.1 created first_run_answers plan
      calls_example

operate-conflict_example :
    operate env_example owner operation "create_cpu_mission"
      (body operation)
      creation
      "admin"
      afterwards
    ≡ (err (problem "operation_conflict" 409), afterwards)
unfolding request_hash
operate-conflict_example =
    operate-conflict env_example owner operation "create_mission" "create_cpu_mission"
      (body operation) (body operation) "admin" refl refl creation creation
      (world_with (mission_in draft)) first_run.1 created first_run_answers plan calls_example
