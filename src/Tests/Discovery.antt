-- ===== src/Tests/Discovery.antt =====
-- A task of database/poc/discovery_execution.py, its snapshot, a clock, and what an execution does.
use Prim.Native.String.{◌++◌ as concat}
use pepeuchiacluster.Prelude.{
  ℕ, zero, suc, ◌≡◌, refl, ◌⊎◌, true, false, String, List, [], ◌∷◌, Option, none, some, All, all,
  arith, min, ◌*◌, ◌^◌, ◌-◌,
}
use pepeuchiacluster.Prelude.Lists.{order_by}
use pepeuchiacluster.Discovery.Changes.{Changes, Observed, rows_of, index, compare_snapshots}
use pepeuchiacluster.Discovery.Changes.Classified.{Classifies, compare_snapshots-Classifies}
use pepeuchiacluster.Discovery.Snapshots.{validate_snapshot}
use pepeuchiacluster.Discovery.Metadata.{same_value, get_value}
use pepeuchiacluster.Contracts.Values.{
  Value, null, text, array, object, nil, cons, Members, none_left, member,
}
use pepeuchiacluster.Discovery.Errors.{
  ◌>>=◌, Status, Raised, http_status, seconds, Outcome, threw, done, success, classify_error,
}
use pepeuchiacluster.Discovery.Errors.Transient.{IsTransport, IsListed}
use pepeuchiacluster.Discovery.Metadata.{Library}
use pepeuchiacluster.Discovery.Selection.{ResourceRef, safe_selection}
use pepeuchiacluster.Discovery.Policy.{
  ExecutionPolicy, SourceTask, SourceResult, check_policy, is_positive, check_task,
  validate_observation,
}
use pepeuchiacluster.Discovery.Delays.{backoff_delay}
use pepeuchiacluster.Discovery.Runtime.{
  Run, ExecutionRuntime, observation, Program, returns, raises, calls,
}
use pepeuchiacluster.Discovery.Execute.{execute_source}
use pepeuchiacluster.Discovery.Delays.Doubling.{backoff_delay_lem}
use pepeuchiacluster.Discovery.Policy.Retried.{classify_error-retryable}
use pepeuchiacluster.Discovery.Execute.Honest.{Describes, IsHonest}
use pepeuchiacluster.Discovery.Execute.Budgets.{
  KeepsLimits, execute_source-KeepsLimits, execute_source-IsHonest,
}
use pepeuchiacluster.Discovery.Execute.Prompt.{IsSteady}
use pepeuchiacluster.Discovery.Execute.Prompt.Success.{execute_source-IsPrompt}
use pepeuchiacluster.Discovery.Report.{
  Planned, task_sources, result_sources, all_complete, execute_sources,
}
use pepeuchiacluster.Discovery.Report.Sources.{execute_sources-Answers}

abbrev zeros : String
zeros = "0000000000000000000000000000000000000000000000000000000000000000"

abbrev lib : Library
lib = record {
  folded = λ s. s;
  canonical_json = λ v. "json";
  sha256 = λ s. zeros;
  is_timestamp = λ s. true;
  now = "2026-01-01T00:00:00+00:00";
}

abbrev selection : Members
selection =
    member "mode" (text "exact_ids") (member "ids" (array (cons (text "org/model") nil)) none_left)

abbrev model : ResourceRef
model = record { source = "huggingface"; source_id = "org/model" }

abbrev policy : ExecutionPolicy
policy = record {
  max_requests = 2;
  max_attempts = 3;
  total = 60_000_000;
  max_delay = 10_000_000;
  backoff = 1_000_000;
  resources = model ∷ [];
  retry_http_statuses = 429 ∷ 503 ∷ [];
  retry_transport_errors = false;
}

abbrev task : SourceTask
task = record {
  source = "huggingface";
  selection = selection;
  resources = model ∷ [];
  policy = policy;
  idempotent = true;
  synthetic = true;
}

task_planned : check_task lib task ≡ done task
unfolding check_task safe_selection ◌>>=◌
task_planned = refl

abbrev entry : Value
entry = object (
    member "record_key" (text (concat "d_" zeros)) (
      member "payload_sha256" (text zeros) (
        member "source" (text "huggingface") (
          member "entity_type" (text "model_artifact") (
            member "source_id" (text "org/model") (
              member "source_revision" null (
                member "display_name" (text "Model") (
                  member "attributes" (object none_left) (
                    member "relationships" (array nil)
                      (member "raw_metadata" (object none_left) none_left))))))))))

abbrev snapshot : Value
snapshot = object (
    member "format" (text "pepeuch-ai.discovery-cache/v1") (
      member "snapshot_id" (text (concat "s_" zeros)) (
        member "captured_at" (text "2026-01-01T00:00:00+00:00") (
          member "scope" (object (member "huggingface" (object selection) none_left))
            (member "records" (array (cons entry nil)) none_left)))))

snapshot_valid :
    validate_observation lib "huggingface" selection (model ∷ []) snapshot ≡ done snapshot
unfolding validate_observation ◌>>=◌ order_by
snapshot_valid = refl

-- A busy server in the first attempt, which asks for two seconds; then one request that answers.
abbrev operation : ℕ → Program
operation (suc zero) = raises (http_status (some 429) (some (some (seconds 2))))
operation n = calls true model (λ left. done null) (λ o. returns (observation snapshot true))

-- Every reading is three seconds later; nothing is added at random.
abbrev clock : ℕ → ℕ
clock n = 3_000_000 * n

abbrev running : ExecutionRuntime
running = record {
  monotonic = λ n. some (clock n);
  wall_time = λ n. some 0;
  jitter = λ n base. some 0;
  sleep = λ before delay. true;
}

abbrev counters : Outcome SourceResult × Run → Option (Status × ℕ × ℕ × List ℕ)
counters (threw e, b) = none
counters (done r, b) = some (r.status, r.attempts, r.requests, b.sleeps)

-- the wait that the server asks for, and a second attempt that succeeds
busy_succeeds :
    counters (execute_source lib running task operation) ≡ some (success, 2, 1, 2_000_000 ∷ [])
unfolding execute_source ◌>>=◌ order_by
busy_succeeds = refl

execute_source-KeepsLimits_example :
    (r : SourceResult) × ((execute_source lib running task operation).0 ≡ done r)
    × KeepsLimits task r (execute_source lib running task operation).1
execute_source-KeepsLimits_example =
    execute_source-KeepsLimits lib running task operation task_planned

execute_source-IsHonest_example :
    (r : SourceResult) × ((execute_source lib running task operation).0 ≡ done r)
    × Describes task r
    × IsHonest lib r
execute_source-IsHonest_example = execute_source-IsHonest lib running task operation task_planned

-- a clock that stands still
abbrev still : ExecutionRuntime
still = record running { monotonic = λ n. some 5 }

-- an operation that makes its request at once
abbrev direct : ℕ → Program
direct n = calls true model (λ left. done null) (λ o. returns (observation snapshot true))

still-IsSteady : IsSteady still 60_000_000 (λ n. 5)
still-IsSteady = record {
  reads = λ n. refl;
  forward = λ n. omega arith;
  in_total = λ n. omega arith;
}

execute_source-IsPrompt_example :
    (r : SourceResult) × ((execute_source lib still task direct).0 ≡ done r)
    × (r.status ≡ success)
    × (r.attempts ≡ 1)
execute_source-IsPrompt_example =
    execute_source-IsPrompt lib still task direct (λ n. 5) 1 task_planned refl (omega arith)
      still-IsSteady (omega arith) ((refl, refl), (λ left. (null, refl)), (λ a. snapshot_valid))

backoff_delay_lem_example : backoff_delay 10 1 3 ≡ min (1 * 2 ^ (3 - 1)) 10
backoff_delay_lem_example = backoff_delay_lem 10 1 3 (omega arith)

abbrev busy : Raised
busy = http_status (some 429) (some none)

policy_checked : check_policy policy ≡ done tt
unfolding check_policy ◌>>=◌
policy_checked = refl

busy_retryable :
    (classify_error "huggingface" policy.retry_http_statuses policy.retry_transport_errors
      busy).retryable
    ≡ true
unfolding classify_error
busy_retryable = refl

classify_error-retryable_example :
    ((policy.retry_transport_errors ≡ true) × IsTransport busy)
    ⊎ IsListed policy.retry_http_statuses busy
classify_error-retryable_example =
    classify_error-retryable policy "huggingface" busy policy_checked busy_retryable

abbrev plan : List Planned
plan = record { task = task; operation = direct; runtime = still } ∷ []

execute_sources-Answers_example :
    (rs : List SourceResult) × (execute_sources lib plan ≡ done rs)
    × (result_sources rs ≡ task_sources plan)
    × All (IsHonest lib) rs
    × (all_complete rs ≡ all (λ r. is_positive r.status) rs)
execute_sources-Answers_example = execute_sources-Answers lib plan (task_planned, tt) refl refl

abbrev unchanged : Changes
unchanged = record { added = []; changed = []; not_observed = []; unchanged_count = 1 }

snapshot_unchanged : compare_snapshots lib snapshot snapshot ≡ done unchanged
unfolding compare_snapshots ◌>>=◌ order_by
snapshot_unchanged = refl

compare_snapshots-Classifies_example :
    (first : Members) × (second : Members) × (old : List Observed) × (new : List Observed)
    × (validate_snapshot lib snapshot ≡ done first)
    × (validate_snapshot lib snapshot ≡ done second)
    × (rows_of first ≡ done old)
    × (rows_of second ≡ done new)
    × (same_value (get_value "scope" first) (get_value "scope" second) ≡ true)
    × Classifies (index old) (index new) unchanged
compare_snapshots-Classifies_example =
    compare_snapshots-Classifies lib snapshot snapshot unchanged snapshot_unchanged
