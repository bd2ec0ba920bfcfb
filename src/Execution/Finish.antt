-- ===== src/Execution/Finish.antt =====
-- control_plane/execution.py: `finish`, the durable outcome of an attempt.
use pepeuchiacluster.Prelude.{
  Bool, true, false, ◌&&◌, ◌||◌, not, ltb, String, same, List, [], ◌∷◌, Option, none, some,
  if◌then◌else◌,
}
use pepeuchiacluster.Contracts.Values.{Value}
use pepeuchiacluster.Contracts.Lifecycle.{
  State, state_eq, completed, failed, interrupted, cancelled, cancel_requested, is_active,
  Principal,
}
use pepeuchiacluster.Contracts.Outcomes.{ExecutionResult, from_dict, to_dict}
use pepeuchiacluster.Contracts.Texts.{check_identifier}
use pepeuchiacluster.Capabilities.{demo}
use pepeuchiacluster.Storage.Rows.{MissionRow, TaskRow, AttemptRow}
use pepeuchiacluster.Storage.Database.{
  task_with, mission_with, epoch_of, finish_attempt, set_task_state,
}
use pepeuchiacluster.Storage.Actions.{
  Action, Env, ◌>>=◌, ◌>>◌, pure, raise, lift, query, or_raise, guard, exec, now, transaction,
}
use pepeuchiacluster.Registry.{require_role, authorize}
use pepeuchiacluster.Service.Operate.{transition}
use pepeuchiacluster.Workspace.Publish.{publish_result}
use pepeuchiacluster.Execution.Fence.{expire}
use pepeuchiacluster.Execution.Claim.{own_attempt, same_epoch}

pub record Acknowledgement : Type 0 where
  pub accepted : Bool
  pub duplicate : Bool
  pub mission_id : String

abbrev is_empty : List Value → Bool
is_empty [] = true
is_empty (_ ∷ _) = false

abbrev is_none : Option String → Bool
is_none none = true
is_none (some _) = false

-- the error codes of a result with no output, for the two capabilities
abbrev pub is_error_of : String → State → Option String → Bool
is_error_of capability s none = state_eq s cancelled
is_error_of capability failed (some e) =
    if same capability demo then same e "simulated_failure" else same e "cpu_execution_failed"
is_error_of capability interrupted (some e) =
    if same capability demo
    then same e "simulated_interruption"
    else same e "cpu_interrupted" || same e "cpu_deadline_exceeded"
is_error_of capability _ (some e) = false

module _ (env : Env) where
  -- the conditions on a cancellation that is pending, and on one that is not
  unfoldable pub check_cancellation : State → ExecutionResult → Action (Unit {0})
  check_cancellation mission_state result =
      if state_eq mission_state cancel_requested
      then guard
          (state_eq result.status cancelled && is_empty result.outputs && is_none result.error_code)
          "cancellation_pending" 409
      else guard (not (state_eq result.status cancelled)) "invalid_transition" 409

  -- a completed result has no error and one output, which is published
  unfoldable pub publish_output :
      Principal → MissionRow → AttemptRow → String → List Value → Action (Unit {0})
  publish_output principal mission attempt capability (output ∷ []) = do
    publish_result env principal mission attempt capability output
    pure tt
  publish_output principal mission attempt capability [] = raise "invalid_outputs" 400
  publish_output principal mission attempt capability (_ ∷ _ ∷ _) = raise "invalid_outputs" 400

  unfoldable pub settle_outputs :
      Principal → MissionRow → AttemptRow → String → ExecutionResult → Action (Unit {0})
  unfolding publish_output
  settle_outputs principal mission attempt capability result =
      if state_eq result.status completed
      then (do
        guard (is_none result.error_code) "invalid_outputs" 400
        publish_output principal mission attempt capability result.outputs)
      else guard (is_empty result.outputs && is_error_of capability result.status result.error_code)
          "invalid_failure_result" 400

  abbrev acknowledged : Bool → String → Acknowledgement
  acknowledged duplicate mission_id = record {
    accepted = true;
    duplicate = duplicate;
    mission_id = mission_id;
  }

  -- the deadline, once more, and the outcome
  unfoldable pub conclude :
      Principal → MissionRow → AttemptRow → ExecutionResult → String → Action Acknowledgement
  conclude principal mission attempt result digest = do
    t ← now env
    guard (ltb t attempt.deadline) "stale_attempt" 409
    exec (finish_attempt attempt.id result.status digest result.error_code)
    exec (set_task_state attempt.task_id result.status)
    transition env principal mission result.status none
    pure (acknowledged false mission.id)

  -- the part of `finish` after the search for a recorded result
  unfoldable pub accept :
      Principal → AttemptRow → TaskRow → ExecutionResult → String → Action Acknowledgement
  unfolding check_cancellation settle_outputs conclude
  accept principal attempt task result digest = do
    mission ← or_raise (← query (mission_with task.mission_id)) "operation_failed" 500
    guard (is_active attempt.state) "stale_attempt" 409
    check_cancellation mission.state result
    settle_outputs principal mission attempt task.capability result
    conclude principal mission attempt result digest

  -- the answer to a repeated result
  abbrev repeated : String → String → String → Action Acknowledgement
  repeated old digest mission_id = do
    guard (same old digest) "result_conflict" 409
    pure (acknowledged true mission_id)

  abbrev pub decide :
      Option String
      → Principal
      → AttemptRow
      → TaskRow
      → ExecutionResult
      → String
      → Action Acknowledgement
  decide none principal attempt task result digest = accept principal attempt task result digest
  decide (some old) principal attempt task result digest = repeated old digest task.mission_id

  -- the transaction of `finish`
  unfoldable pub finish_once :
      Principal → String → ExecutionResult → String → Action Acknowledgement
  unfolding accept
  finish_once principal identity result digest = do
    authorize env principal
    attempt ← or_raise (← query (own_attempt identity principal.identity)) "not_found" 404
    task ← or_raise (← query (task_with attempt.task_id)) "not_found" 404
    guard (same attempt.generation result.generation) "stale_attempt" 409
    epoch ← query (epoch_of identity)
    guard (same_epoch epoch principal.credential_epoch) "stale_attempt" 409
    decide attempt.result_sha256 principal attempt task result digest

  -- `finish`
  unfoldable pub finish : Principal → String → ExecutionResult → Action Acknowledgement
  unfolding require_role finish_once
  finish principal identity reported = do
    require_role principal "worker"
    result ← lift (from_dict (to_dict reported))
    lift (check_identifier identity)
    guard (same result.attempt_id identity) "attempt_mismatch" 409
    expire env
    transaction
        (finish_once principal identity result (env.sha256 (env.canonical (to_dict result))))
