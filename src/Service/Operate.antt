-- ===== src/Service/Operate.antt =====
-- control_plane/service.py: the ledger (`_audit`), the transitions of a mission (`_transition`), and
-- the operations that are recorded so that a repeated request has one effect (`_operate`).
use Prim.Native.String.{◌++◌ as concat}
use pepeuchiacluster.Prelude.{ℕ, String, same, [], ◌∷◌, Option, none, some, if◌then◌else◌}
use pepeuchiacluster.Contracts.Values.{Value, text, object, member, none_left, at}
use pepeuchiacluster.Contracts.Texts.{operation_id}
use pepeuchiacluster.Contracts.Lifecycle.{State, allowed, state_name, Principal}
use pepeuchiacluster.Storage.Rows.{MissionRow, Details}
use pepeuchiacluster.Storage.Responses.{Response}
use pepeuchiacluster.Storage.Database.{
  OperationRow, mission_with, operation_with, set_mission_state, insert_event, insert_operation,
}
use pepeuchiacluster.Storage.Actions.{
  Action, Env, ◌>>=◌, ◌>>◌, pure, lift, query, or_raise, guard, exec, now, new_id, transaction,
}
use pepeuchiacluster.Registry.{require_role, authorize}
use pepeuchiacluster.Service.Ledger.{state_type, is_safe}
use pepeuchiacluster.Service.Decimal.{decimal}

-- the document of which `_operate` takes the digest
abbrev pub request_document : String → Value → Value
request_document action payload =
    object (member "action" (text action) (member "payload" payload none_left))

abbrev pub transition_details : State → Option String → Details
transition_details target none = ("state", state_name target) ∷ []
transition_details target (some reason) = ("state", state_name target) ∷ ("reason", reason) ∷ []

module _ (env : Env) where
  -- `_audit`
  unfoldable pub audit : Principal → String → Option String → String → Details → Action (Unit {0})
  audit principal workspace_id mission_id event_type details = do
    guard (is_safe details) "unsafe_audit_details" 500
    event ← new_id env "e"
    at ← now env
    exec (
        insert_event (record {
          id = event;
          mission_id = mission_id;
          workspace_id = workspace_id;
          actor = principal.identity;
          at = at;
          type = event_type;
          details = details;
        }))

  -- `_transition`
  unfoldable pub transition : Principal → MissionRow → State → Option String → Action MissionRow
  unfolding audit
  transition principal row target reason = do
    guard (allowed row.state target) "invalid_transition" 409
    exec (set_mission_state row.id target)
    audit principal row.workspace_id (some row.id) state_type (transition_details target reason)
    or_raise (← query (mission_with row.id)) "operation_failed" 500

  unfoldable pub request_hash : String → Value → String
  request_hash action payload = env.sha256 (env.canonical (request_document action payload))

  -- `str(principal.credential_epoch)`
  abbrev epoch_text : Option ℕ → String
  epoch_text none = "None"
  epoch_text (some e) = decimal e

  -- the actor under whom `_operate` records: for a worker, its identity and its current epoch
  unfoldable pub actor_of : Principal → String → Action String
  actor_of principal role =
      if same role "worker"
      then (do
        authorize env principal
        pure (concat principal.identity (concat "@" (epoch_text principal.credential_epoch))))
      else pure principal.identity

  abbrev pub replay : String → OperationRow → Action Response
  replay hash old = do
    guard (same old.request_sha256 hash) "operation_conflict" 409
    pure old.response

  abbrev pub perform : String → String → String → Action Response → Action Response
  perform actor operation hash effect = do
    response ← effect
    exec (
        insert_operation
          (record { actor = actor; id = operation; request_sha256 = hash; response = response }))
    pure response

  abbrev pub settle :
      Option OperationRow → String → String → String → Action Response → Action Response
  settle none actor operation hash effect = perform actor operation hash effect
  settle (some old) actor operation hash effect = replay hash old

  -- the transaction of `_operate`
  unfoldable pub operate_once :
      Principal → String → String → String → Action Response → Action Response
  unfolding actor_of
  operate_once principal role operation hash effect = do
    actor ← actor_of principal role
    old ← query (operation_with actor operation)
    settle old actor operation hash effect

  -- `_operate`
  unfoldable pub operate :
      Principal → Value → String → Value → Action Response → String → Action Response
  unfolding require_role operate_once request_hash
  operate principal operation action payload effect role = do
    require_role principal role
    identity ← lift (operation_id env.is_uuid operation)
    transaction (operate_once principal role identity (request_hash action payload) effect)
