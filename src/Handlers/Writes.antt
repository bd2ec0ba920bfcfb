-- ===== src/Handlers/Writes.antt =====
-- The actions that the handlers share, in terms of the statements that they are made of.
use pepeuchiacluster.Prelude.{ℕ, Bool, true, false, String, List, [], ◌∷◌, Option, none, some}
use pepeuchiacluster.Contracts.Values.{Value}
use pepeuchiacluster.Contracts.Lifecycle.{Principal}
use pepeuchiacluster.Contracts.Outcomes.{ExecutionResult}
use pepeuchiacluster.Storage.Rows.{MissionRow, AttemptRow, Details, FileRow}
use pepeuchiacluster.Storage.Responses.{Response}
use pepeuchiacluster.Storage.Database.{
  Db, Statement, OperationRow, insert_event, insert_file, insert_version, insert_result,
  insert_operation, revoke_worker,
}
use pepeuchiacluster.Storage.Actions.{Env, Action, exec}
use pepeuchiacluster.Storage.Actions.Keeps.{Keeps}
use pepeuchiacluster.Registry.{audit_identity, revoke_active, revoke}
use pepeuchiacluster.Service.Operate.{audit, settle, operate_once}
use pepeuchiacluster.Workspace.Output.{Output}
use pepeuchiacluster.Workspace.Publish.{
  file_for, add_version, publish, upload_effect, publish_result,
}
use pepeuchiacluster.Execution.Finish.{publish_output, settle_outputs}
use pepeuchiacluster.Handlers.Reads.{reads_rules}

-- the statements of the shared actions
abbrev pub IsShared : Statement → Type 0
IsShared (insert_event r) = Unit
IsShared (insert_file r) = Unit
IsShared (insert_version r) = Unit
IsShared (insert_result r) = Unit
IsShared (insert_operation r) = Unit
IsShared (revoke_worker k stamp) = Unit
IsShared _ = ⊥

module _ {P : Db → Type 0} (shared : (s : Statement) → IsShared s → Keeps P (exec s))
    (env : Env) where
  pub audit-Keeps :
      (p : Principal) (w : String) (m : Option String) (t : String) (d : Details)
      → Keeps P (audit env p w m t d)
  unfolding audit
  audit-Keeps p w m t d = search (shared, reads_rules) depth 7

  pub audit_identity-Keeps : (k reason : String) → Keeps P (audit_identity env k reason)
  unfolding audit_identity
  audit_identity-Keeps k reason = search (shared, reads_rules) depth 7

  revoke_active-Keeps : (b : Bool) (k : String) → Keeps P (revoke_active env b k)
  unfolding revoke_active
  revoke_active-Keeps true k = search (shared, reads_rules)
  revoke_active-Keeps false k = search reads_rules

  pub revoke-Keeps : (k : String) → Keeps P (revoke env k)
  unfolding revoke
  revoke-Keeps k = search (shared, reads_rules, revoke_active-Keeps) depth 9

  file_for-Keeps : (f : Option FileRow) (w n : String) → Keeps P (file_for env f w n)
  unfolding file_for
  file_for-Keeps none w n = search (shared, reads_rules)
  file_for-Keeps (some f) w n = search reads_rules

  pub publish-Keeps :
      (p : Principal) (w n : String) (raw : List ℕ) (e m a : Option String)
      → Keeps P (publish env p w n raw e m a)
  unfolding publish add_version
  publish-Keeps p w n raw e m a =
      search (shared, reads_rules, file_for-Keeps, audit-Keeps) depth 20 fits 3000

  pub upload_effect-Keeps :
      (p : Principal) (w : String) (o : Output) → Keeps P (upload_effect env p w o)
  unfolding upload_effect
  upload_effect-Keeps p w o = search (reads_rules, publish-Keeps)

  publish_result-Keeps :
      (p : Principal) (m : MissionRow) (a : AttemptRow) (c : String) (o : Value)
      → Keeps P (publish_result env p m a c o)
  unfolding publish_result
  publish_result-Keeps p m a c o = search (shared, reads_rules, publish-Keeps) depth 12

  publish_output-Keeps :
      (p : Principal) (m : MissionRow) (a : AttemptRow) (c : String) (os : List Value)
      → Keeps P (publish_output env p m a c os)
  unfolding publish_output
  publish_output-Keeps p m a c [] = search reads_rules
  publish_output-Keeps p m a c (o ∷ []) = search (reads_rules, publish_result-Keeps)
  publish_output-Keeps p m a c (o ∷ x ∷ os) = search reads_rules

  pub settle_outputs-Keeps :
      (p : Principal) (m : MissionRow) (a : AttemptRow) (c : String) (r : ExecutionResult)
      → Keeps P (settle_outputs env p m a c r)
  unfolding settle_outputs
  settle_outputs-Keeps p m a c r = search (reads_rules, publish_output-Keeps)

  settle-Keeps :
      (old : Option OperationRow) (actor operation hash : String) (effect : Action Response)
      → Keeps P effect
      → Keeps P (settle env old actor operation hash effect)
  settle-Keeps none actor operation hash effect k = search (shared, reads_rules)
  settle-Keeps (some o) actor operation hash effect k = search reads_rules

  -- A recorded operation keeps what its effect keeps.
  pub operate_once-Keeps :
      (p : Principal) (role operation hash : String) (effect : Action Response)
      → Keeps P effect
      → Keeps P (operate_once env p role operation hash effect)
  unfolding operate_once
  operate_once-Keeps p role operation hash effect k = search (reads_rules, settle-Keeps)
