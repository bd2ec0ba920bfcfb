-- ===== src/Discovery/Execute.antt =====
-- database/poc/discovery_execution.py: `execute_source`, the attempts at one source within its
-- budgets of attempts, requests and time.
pub mod Waits
pub mod Turns
pub mod Honest
pub mod Results
pub mod Loop
pub mod Budgets
pub mod Prompt
use pepeuchiacluster.Prelude.{
  ℕ, zero, suc, ◌+◌, ◌-◌, min, max, Bool, true, false, ◌&&◌, ◌||◌, not, List, [], ◌∷◌, Option, none,
  some, leb, ltb, ◌==◌, if◌then◌else◌,
}
use pepeuchiacluster.Contracts.Values.{Value}
use pepeuchiacluster.Discovery.Errors.{
  Status, success, unchanged, deferred, failed, Reason, runtime, selection, request_budget,
  attempt_budget, time_budget, incomplete, invalid_schema, retry_after_budget, delay_limit,
  wait_interrupted, retry_after_extreme, Raised, execution_error, other_error, Outcome, threw, done,
  ClassifiedError, classify_error, is_time_budget, RetryAfter, not_before, legacy_date,
}
use pepeuchiacluster.Discovery.Metadata.{Library}
use pepeuchiacluster.Discovery.Policy.{
  SourceTask, SourceResult, is_positive, refs_within, validate_observation, check_result,
  check_task,
}
use pepeuchiacluster.Discovery.Delays.{Wait, wait, refused, backoff_delay, server_delay}
use pepeuchiacluster.Discovery.Waiting.{
  Ending, after_error, defer, defers, ending_reason, ending_status, fail,
}
use pepeuchiacluster.Discovery.Runtime.{
  ExecutionRuntime, Run, new_run, Action, ◌>>=◌, ◌>>◌, pure, raise_for, lift, caught, read, update,
  sample, check_time, Observation, observation, no_observation, Program, operate,
}

module _ (lib : Library) (rt : ExecutionRuntime) (task : SourceTask) (operation : ℕ → Program) where
  open task use {policy}

  -- The result that `finish` builds.
  unfoldable pub result_of : Status → Option Reason → Option Value → Run → SourceResult
  result_of status_ reason_ snapshot_ b = record {
    source = task.source;
    selection = task.selection;
    resources = task.resources;
    status = status_;
    reason = reason_;
    last_error = b.last_error;
    attempts = b.attempts;
    requests = b.requests;
    elapsed = b.elapsed;
    waited = b.waited;
    policy = task.policy;
    idempotent = task.idempotent;
    synthetic = task.synthetic;
    complete = is_positive status_;
    snapshot = snapshot_;
  }

  -- `finish` without a snapshot
  unfoldable pub finish : Ending → Action SourceResult
  unfolding result_of check_result
  finish e b = (check_result lib (result_of (ending_status e) (some (ending_reason e)) none b), b)

  -- `finish` with a snapshot
  unfoldable pub finish_success : Value → Action SourceResult
  unfolding result_of check_result check_time read lift pure ◌>>=◌
  finish_success snapshot_ = do
    built ← read (result_of success none (some snapshot_))
    result ← lift (check_result lib built)
    _ ← check_time rt policy.total
    read (λ b. record result { elapsed = b.elapsed })

  unfoldable pub checked_observation : Observation → Outcome Value
  unfolding validate_observation
  checked_observation no_observation = threw (execution_error invalid_schema)
  checked_observation (observation v false) = threw (execution_error incomplete)
  checked_observation (observation v true) =
      validate_observation lib task.source task.selection task.resources v

  -- the body of the inner `try`
  unfoldable pub attempt : Action Value
  unfolding operate checked_observation check_time read lift pure ◌>>=◌
  attempt = do
    n ← read (λ b. b.attempts)
    observed ← operate rt task (operation n)
    snapshot ← lift (checked_observation observed)
    _ ← check_time rt policy.total
    pure snapshot

  unfoldable pub classify : Raised → ClassifiedError
  unfolding classify_error
  classify = classify_error task.source policy.retry_http_statuses policy.retry_transport_errors

  unfoldable pub ended_by : Option Ending → Action (Option SourceResult)
  unfolding finish pure ◌>>=◌
  ended_by none = pure none
  ended_by (some e) = do result ← finish e; pure (some result)

  -- what follows the inner `try`
  unfoldable pub after_attempt : Outcome Value → Action (Option SourceResult)
  unfolding finish_success after_error classify ended_by pure ◌>>=◌
  after_attempt (done snapshot) = do result ← finish_success snapshot; pure (some result)
  after_attempt (threw e) = (after_error lib rt task operation) (classify e) >>= ended_by

  -- one turn of the loop: the result, or `none` for another turn
  unfoldable pub turn : Action (Option SourceResult)
  unfolding check_time update caught attempt after_attempt ◌>>=◌
  turn = do
    _ ← check_time rt policy.total
    _ ← update (λ b. record b { attempts = b.attempts + 1 })
    o ← caught attempt
    after_attempt o

  abbrev pub again :
      Action SourceResult → Outcome (Option SourceResult) × Run → Outcome SourceResult × Run
  again rest (done (some r), b) = (done r, b)
  again rest (done none, b) = rest b
  again rest (threw e, b) = (threw e, b)

  -- `while budget.attempts < task.policy.max_attempts`, and what follows it
  unfoldable pub while_left : Action SourceResult → Bool → Action SourceResult
  unfolding turn finish
  while_left rest true b = again rest (turn b)
  while_left rest false b = finish (defer attempt_budget) b

  -- The loop, with the turns that may be left; the last turn that is left only finishes.
  unfoldable pub loop : ℕ → Action SourceResult
  unfolding while_left
  loop zero b = (threw other_error, b)
  loop (suc n) b = while_left (loop n) (ltb b.attempts policy.max_attempts) b

  unfoldable pub body_if : Bool → Action SourceResult
  unfolding loop finish
  body_if true = loop (suc policy.max_attempts)
  body_if false = finish (fail selection)

  -- the outer `try`, after the budget is made
  unfoldable pub body : Action SourceResult
  unfolding body_if
  body = body_if (refs_within task.resources policy.resources)

  abbrev pub ending_for : Reason → Ending
  ending_for e = if defers e then defer e else fail e

  -- `except ExecutionError`; what the last measurement raises is passed over
  unfoldable pub handled : Outcome SourceResult × Run → Outcome SourceResult × Run
  unfolding sample finish
  handled (done r, b) = (done r, b)
  handled (threw (execution_error e), b) =
      finish (ending_for e) (if is_time_budget e then b else (sample rt policy.total b).1)
  handled (threw e, b) = (threw e, b)

  unfoldable pub run_from : Option ℕ → Outcome SourceResult × Run
  unfolding new_run finish body handled
  run_from none = finish (ending_for runtime) (new_run 0)
  run_from (some now) = handled (body (new_run now))

  -- `execute_source` after its plan is its own; where the first reading fails there is no budget
  unfoldable pub run_source : Outcome SourceResult × Run
  unfolding run_from
  run_source = run_from (rt.monotonic 0)

unfoldable pub execute_own :
    Library → ExecutionRuntime → (ℕ → Program) → Outcome SourceTask → Outcome SourceResult × Run
unfolding new_run run_source
execute_own lib rt operation (threw e) = (threw e, new_run 0)
execute_own lib rt operation (done own) = run_source lib rt own operation

-- `execute_source`: `replace(task)` checks the task again
unfoldable pub execute_source :
    Library → ExecutionRuntime → SourceTask → (ℕ → Program) → Outcome SourceResult × Run
unfolding check_task execute_own
execute_source lib rt task operation = execute_own lib rt operation (check_task lib task)
