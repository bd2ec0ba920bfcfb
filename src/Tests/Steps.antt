-- ===== src/Tests/Steps.antt =====
-- The theorems at single steps of the control plane of the test data.
use pepeuchiacluster.Prelude.{
  ℕ, ◌≡◌, refl, Bool, true, false, String, List, [], ◌∷◌, ◌++◌, Option, none, some,
}
use pepeuchiacluster.Contracts.{Result, ok, err, problem}
use pepeuchiacluster.Contracts.Values.{fields, at}
use pepeuchiacluster.Contracts.Lifecycle.{allowed, draft, failed, running}
use pepeuchiacluster.Contracts.Texts.{check_identifier, identifier}
use pepeuchiacluster.Contracts.Outcomes.{
  ExecutionResult, from_dict, to_dict, status_of, outputs_of, error_code_of,
}
use pepeuchiacluster.Contracts.RoundTrip.{from_dict-again}
use pepeuchiacluster.Capabilities.{demo, demo_spec, plan, demo_plan, routed, spec_of}
use pepeuchiacluster.Storage.Rows.{AttemptRow, TaskRow}
use pepeuchiacluster.Storage.Responses.{Response, request, Published, MissionView, PublicWorker}
use pepeuchiacluster.Storage.Database.{mission_with, apply, worker_with, task_with, epoch_of}
use pepeuchiacluster.Storage.Actions.{
  World, ◌>>=◌, guard, lift, transaction, pure, query, or_raise, new_id, now, exec,
}
use pepeuchiacluster.Registry.{
  authorize, rotate, revoke, policy, is_supported, require_role, public_worker, check_worker_id,
  audit_identity, revoke_active, list,
}
use pepeuchiacluster.Registry.Epochs.{rotate-authorize, revoke-authorize}
use pepeuchiacluster.Service.Operate.{audit, transition}
use pepeuchiacluster.Service.Access.{view, owned_mission, required_capability, decide_contract}
use pepeuchiacluster.Service.Ledger.{is_safe}
use pepeuchiacluster.Workspace.Output.{put_object}
use pepeuchiacluster.Workspace.Publish.{publish, add_version, file_for}
use pepeuchiacluster.Workspace.Versions.{Added, publish-adds}
use pepeuchiacluster.Execution.Decide.{approve_effect, queue_task, is_valid_plan, view_response}
use pepeuchiacluster.Execution.Approvals.{Queued, approve-queues}
use pepeuchiacluster.Execution.Plans.{plan-is_valid}
use pepeuchiacluster.Execution.Finish.{
  Acknowledgement, finish_once, accept, conclude, check_cancellation, settle_outputs,
}
use pepeuchiacluster.Execution.Outcomes.{Accepted, finish_once-accepts}
use pepeuchiacluster.Tests.Data.{
  env_example, workspace_id, mission_id, owner, demo_worker, mission_in, world_with, value_or,
  worker_row,
}

abbrev start : World
start = world_with (mission_in draft)

-- a first version of a file
abbrev publication : Result Published × World
publication = publish env_example owner workspace_id "notes.txt" (1 ∷ 2 ∷ []) none none none start

abbrev published : Published
published = value_or (record { file_id = ""; version_id = ""; sha256 = ""; size = 0 }) publication.0

publication_succeeds : publication ≡ (ok published, publication.1)
unfolding publish ◌>>=◌ guard pure query add_version file_for put_object new_id now exec apply audit
    is_safe
publication_succeeds = refl

publish-adds_example :
    Added env_example start.db workspace_id "notes.txt"
      (1 ∷ 2 ∷ [])
      none
      none
      none
      published
      publication.1.db
publish-adds_example =
    publish-adds env_example owner workspace_id "notes.txt" (1 ∷ 2 ∷ []) none none none start
      publication.1 published publication_succeeds

abbrev approval : Result Response × World
approval = approve_effect env_example plan owner mission_id start

abbrev approved_view : Response
approved_view = value_or (request none) approval.0

approval_succeeds : approval ≡ (ok approved_view, approval.1)
unfolding approve_effect ◌>>=◌ guard pure query lift or_raise owned_mission check_identifier view
    required_capability decide_contract list plan demo_plan spec_of is_valid_plan queue_task
    transition audit is_safe new_id now exec apply mission_with view_response
    pepeuchiacluster.Prelude.Lists.order_by public_worker allowed
approval_succeeds = refl

approve-queues_example : Queued owner mission_id start.db approval.1.db
approve-queues_example =
    approve-queues env_example plan owner mission_id start approval.1 approved_view
      approval_succeeds

abbrev rotation : Result PublicWorker × World
rotation = rotate env_example "fake-cpu" false "digest" start

abbrev no_worker : PublicWorker
no_worker = record {
  id = "";
  active = false;
  credential_epoch = 0;
  capabilities = [];
  limits = worker_row.limits;
  simulated = false;
}

abbrev rotated : PublicWorker
rotated = value_or no_worker rotation.0

rotation_succeeds : rotation ≡ (ok rotated, rotation.1)
unfolding rotate check_worker_id ◌>>=◌ guard pure query or_raise transaction now exec apply
    worker_with audit_identity new_id public_worker pepeuchiacluster.Prelude.Lists.order_by
rotation_succeeds = refl

rotate-authorize_example :
    authorize env_example demo_worker rotation.1
    ≡ (err (problem "worker_revoked_or_rotated" 403), rotation.1)
unfolding worker_with
rotate-authorize_example =
    rotate-authorize env_example demo_worker worker_row false "digest" start rotation.1 rotated refl
      refl refl rotation_succeeds

abbrev revocation : Result PublicWorker × World
revocation = revoke env_example "fake-cpu" start

abbrev revoked : PublicWorker
revoked = value_or no_worker revocation.0

revocation_succeeds : revocation ≡ (ok revoked, revocation.1)
unfolding revoke check_worker_id ◌>>=◌ guard pure query or_raise now exec apply worker_with
    revoke_active public_worker
revocation_succeeds = refl

revoke-authorize_example :
    authorize env_example demo_worker revocation.1
    ≡ (err (problem "worker_revoked_or_rotated" 403), revocation.1)
unfolding worker_with
revoke-authorize_example =
    revoke-authorize env_example demo_worker worker_row start revocation.1 revoked refl refl refl
      revocation_succeeds

abbrev seen_example : MissionView
seen_example = record {
  mission = mission_in draft;
  required_capability = demo;
  tasks = [];
  plan = none;
  attempts = [];
  results = [];
}

abbrev demo_public : PublicWorker
demo_public = record no_worker { id = "fake-cpu"; active = true; capabilities = demo ∷ [] }

plan-is_valid_example :
    is_valid_plan (routed demo demo_spec "fake-cpu") demo demo_spec (demo_public ∷ []) ≡ true
unfolding plan demo_plan spec_of
plan-is_valid_example =
    plan-is_valid seen_example (demo_public ∷ []) (routed demo demo_spec "fake-cpu") demo_spec refl
      refl

abbrev attempt_id : String
attempt_id = "a_00000000000000000000000000000000"

abbrev generation : String
generation = "g_00000000000000000000000000000000"

abbrev report : ExecutionResult
report = record {
  attempt_id = attempt_id;
  generation = generation;
  status = failed;
  outputs = [];
  error_code = some "simulated_failure";
}

report_decodes : from_dict (to_dict report) ≡ ok report
unfolding from_dict to_dict fields at identifier check_identifier status_of outputs_of error_code_of
report_decodes = refl

from_dict-again_example : from_dict (to_dict report) ≡ ok report
from_dict-again_example = from_dict-again (to_dict report) report report_decodes

-- the mission is running, on an attempt of the worker
abbrev task_example : TaskRow
task_example = record {
  id = "t_00000000000000000000000000000000";
  mission_id = mission_id;
  role = demo_spec.role;
  capability = demo;
  worker_id = "fake-cpu";
  state = running;
  plan = routed demo demo_spec "fake-cpu";
}

abbrev attempt_example : AttemptRow
attempt_example = record {
  id = attempt_id;
  task_id = task_example.id;
  number = 1;
  worker_id = "fake-cpu";
  state = running;
  generation = generation;
  started_at = 0;
  deadline = 60000000;
  expected_version = none;
  result_sha256 = none;
  error_code = none;
}

abbrev running_world : World
running_world =
    let w = world_with (mission_in running) in
    record w {
      db = record w.db {
        tasks = task_example ∷ [];
        attempts = attempt_example ∷ [];
        epochs = record { attempt_id = attempt_id; credential_epoch = 1 } ∷ [];
      };
    }

abbrev ending : Result Acknowledgement × World
ending = finish_once env_example demo_worker attempt_id report "digest" running_world

abbrev ended : Acknowledgement
ended = record { accepted = true; duplicate = false; mission_id = mission_id }

ending_succeeds : ending ≡ (ok ended, ending.1)
unfolding finish_once ◌>>=◌ guard pure query or_raise authorize require_role worker_with policy
    is_supported task_with epoch_of accept check_cancellation settle_outputs conclude now exec apply
    transition audit is_safe new_id mission_with allowed
ending_succeeds = refl

finish_once-accepts_example :
    Accepted env_example demo_worker attempt_id "digest" report running_world.db ended ending.1
finish_once-accepts_example =
    finish_once-accepts env_example demo_worker attempt_id "digest" report running_world ending.1
      ended ending_succeeds
