-- ===== src/Discovery/Report.antt =====
-- database/poc/execution_models.py, `SourceResult.to_manifest` and `ExecutionReport`;
-- database/poc/discovery_execution.py, `execute_sources`.
pub mod Sources
use Prim.Native.String.{String, compare as compare_texts}
use Prim.Native.Nat.{Ordering}
use pepeuchiacluster.Prelude.{
  ℕ, Bool, true, false, ◌&&◌, ◌||◌, not, same, List, [], ◌∷◌, Option, none, some, all, any, map,
  leb, select, order_by, text_le, if◌then◌else◌,
}
use pepeuchiacluster.Contracts.Values.{
  Value, null, bool, int, real, text, array, object, Members, none_left, member, contains,
}
use pepeuchiacluster.Contracts.Outcomes.{array_of}
use pepeuchiacluster.Discovery.Errors.{
  Status, status_value, Reason, reason_value, Outcome, threw, done, value_error, key_error, require,
  ◌>>=◌, ◌>>◌,
}
use pepeuchiacluster.Discovery.Metadata.{Library, copy_metadata, object_value, item_value}
use pepeuchiacluster.Discovery.Selection.{ResourceRef, safe_selection}
use pepeuchiacluster.Discovery.Policy.{
  ExecutionPolicy, SourceTask, SourceResult, is_positive, validate_observation, check_task,
}
use pepeuchiacluster.Discovery.Runtime.{ExecutionRuntime, Program}
use pepeuchiacluster.Discovery.Execute.{execute_source}

abbrev reason_or_null : Option Reason → Value
reason_or_null none = null
reason_or_null (some e) = text (reason_value e)

abbrev ref_value : ResourceRef → Value
ref_value ref =
    object (member "source" (text ref.source) (member "source_id" (text ref.source_id) none_left))

abbrev refs_value : List ResourceRef → Value
refs_value refs = array (array_of (map ref_value refs))

-- the order of `ResourceRef`: the source, then the identity
abbrev ref_le : ResourceRef → ResourceRef → Bool
ref_le a b =
    if same a.source b.source then text_le a.source_id b.source_id else text_le a.source b.source

-- `"budget"`; times are floats there
unfoldable pub budget_value : SourceResult → Value
budget_value r = object (
    member "requests_used" (int r.requests) (
      member "max_requests" (int r.policy.max_requests) (
        member "max_attempts" (int r.policy.max_attempts) (
          member "elapsed_seconds" (real r.elapsed) (
            member "total_seconds" (real r.policy.total) (
              member "wait_seconds" (real r.waited) (
                member "overrun" (bool (leb r.policy.total r.elapsed)) (
                  member "max_delay_seconds" (real r.policy.max_delay) (
                    member "backoff_seconds" (real r.policy.backoff) (
                      member "retry_http_statuses"
                        (array (array_of (map int (order_by leb r.policy.retry_http_statuses))))
                        (member "retry_transport_errors" (bool r.policy.retry_transport_errors) (
                          member "resources" (refs_value (order_by ref_le r.policy.resources))
                            none_left))))))))))))

module _ (lib : Library) where
  snapshot_of : SourceResult → Option Value → Outcome (Option Value)
  unfolding validate_observation
  snapshot_of r none = done none
  snapshot_of r (some v) = do
    again ← validate_observation lib r.source r.selection r.resources v
    done (some again)

  -- `snapshot["snapshot_id"]`
  id_of : Option Value → Outcome Value
  unfolding object_value item_value
  id_of none = done null
  id_of (some v) = do m ← object_value v; item_value "snapshot_id" m

  -- `SourceResult.to_manifest`
  unfoldable pub to_manifest : SourceResult → Outcome Value
  unfolding snapshot_of id_of safe_selection budget_value copy_metadata
  to_manifest r = do
    snapshot ← snapshot_of r r.snapshot
    selection ← safe_selection lib r.source (object r.selection)
    id ← id_of snapshot
    copy_metadata lib (
        object (
          member "source" (text r.source) (
            member "selection" (object selection) (
              member "status" (text (status_value r.status)) (
                member "complete" (bool r.complete) (
                  member "synthetic" (bool r.synthetic) (
                    member "idempotent" (bool r.idempotent) (
                      member "requested_resources" (refs_value r.resources) (
                        member "attempts" (int r.attempts) (
                          member "reason" (reason_or_null r.reason) (
                            member "last_error" (reason_or_null r.last_error) (
                              member "snapshot_id" id
                                (member "budget" (budget_value r) none_left)))))))))))))

  unfoldable pub manifests : List SourceResult → Outcome (List Value)
  unfolding to_manifest
  manifests [] = done []
  manifests (r ∷ rs) = do first ← to_manifest r; rest ← manifests rs; done (first ∷ rest)

abbrev pub distinct : List String → Bool
distinct [] = true
distinct (x ∷ xs) = not (contains x xs) && distinct xs

abbrev pub is_some_list : List String → Bool
is_some_list [] = false
is_some_list (x ∷ xs) = true

abbrev pub result_sources : List SourceResult → List String
result_sources = map (λ r. r.source)

-- `ExecutionReport.__post_init__`
unfoldable pub check_report : List SourceResult → Outcome (List SourceResult)
check_report results = do
  require (is_some_list (result_sources results) && distinct (result_sources results))
  done results

-- the kind of the data
unfoldable pub data_kind : List SourceResult → String
data_kind results =
    if all (λ r. r.synthetic) results && is_some_list (result_sources results)
    then "synthetic"
    else if all (λ r. not r.synthetic) results && is_some_list (result_sources results)
    then "real"
    else "mixed"

-- `all(result.complete for result in self.results)`
unfoldable pub all_complete : List SourceResult → Bool
all_complete = all (λ r. r.complete)

-- `ExecutionReport.to_manifest`
unfoldable pub report_manifest : Library → List SourceResult → Outcome Value
unfolding manifests data_kind all_complete
report_manifest lib results = do
  sources ← manifests lib results
  done (
      object (
        member "format" (text "pepeuch-ai.discovery-execution/v1") (
          member "data_kind" (text (data_kind results)) (
            member "requested_sources" (array (array_of (map text (result_sources results)))) (
              member "complete" (bool (all_complete results))
                (member "sources" (array (array_of sources)) none_left))))))

-- `ExecutionReport.successful_snapshots`
unfoldable pub successful_snapshots :
    Library → List SourceResult → Outcome (List (String × Option Value))
unfolding snapshot_of
successful_snapshots lib [] = done []
successful_snapshots lib (r ∷ rs) = elim (is_positive r.status) [
  | false ↦ successful_snapshots lib rs
  | true ↦ (do
    snapshot ← snapshot_of lib r r.snapshot
    rest ← successful_snapshots lib rs
    done ((r.source, snapshot) ∷ rest))
]

-- A task with its operation, and the runtime as it stands when the source's turn comes.
pub record Planned : Type 0 where
  pub task : SourceTask
  pub operation : ℕ → Program
  pub runtime : ExecutionRuntime

abbrev pub task_sources : List Planned → List String
task_sources = map (λ p. p.task.source)

-- `replace(task) for task in tasks`
unfoldable pub check_tasks : Library → List Planned → Outcome (List Planned)
unfolding check_task
check_tasks lib [] = done []
check_tasks lib (p ∷ ps) = do
  own ← check_task lib p.task
  rest ← check_tasks lib ps
  done (record p { task = own } ∷ rest)

unfoldable pub execute_each : Library → List Planned → Outcome (List SourceResult)
unfolding execute_source
execute_each lib [] = done []
execute_each lib (p ∷ ps) = do
  result ← (execute_source lib p.runtime p.task p.operation).0
  rest ← execute_each lib ps
  done (result ∷ rest)

-- `execute_sources`
unfoldable pub execute_sources : Library → List Planned → Outcome (List SourceResult)
unfolding check_tasks execute_each check_report
execute_sources lib tasks = do
  require (is_some_list (task_sources tasks) && distinct (task_sources tasks))
  own ← check_tasks lib tasks
  results ← execute_each lib own
  check_report results
