-- ===== src/Discovery/Execute/Budgets.antt =====
-- What `execute_source` of database/poc/discovery_execution.py returns, whatever the operation, the
-- clocks and the waits do.
use pepeuchiacluster.Prelude.{ℕ, ◌≤◌, ◌≡◌, sym, subst, false, length, All}
use pepeuchiacluster.Discovery.Errors.{done}
use pepeuchiacluster.Discovery.Metadata.{Library}
use pepeuchiacluster.Discovery.Policy.{SourceTask, SourceResult, check_task}
use pepeuchiacluster.Discovery.Policy.Rechecked.{IsPlanned, check_task-IsPlanned}
use pepeuchiacluster.Discovery.Runtime.{ExecutionRuntime, Run, Program}
use pepeuchiacluster.Discovery.Runtime.Keeps.{IsAllowed}
use pepeuchiacluster.Discovery.Execute.{execute_source, execute_own}
use pepeuchiacluster.Discovery.Execute.Honest.{Describes, IsHonest, Finished}
use pepeuchiacluster.Discovery.Execute.Loop.{Returns, run_source-Returns}

module _ (lib : Library) (rt : ExecutionRuntime) (t : SourceTask) (operation : ℕ → Program)
    (planned : check_task lib t ≡ done t) where
  pub plan : IsPlanned lib t
  plan = ((check_task-IsPlanned lib t).gives t planned).0

  -- the run of the execution of a task that passes its check
  pub execute_source-Returns : Returns lib rt t operation plan (execute_source lib rt t operation)
  unfolding execute_source execute_own
  execute_source-Returns =
      subst (λ o. Returns lib rt t operation plan (execute_own lib rt operation o)) (sym planned)
        (run_source-Returns lib rt t operation plan)

-- The limits that an execution keeps, seen from its result and from the calls that it made.
pub record KeepsLimits (t : SourceTask) (r : SourceResult) (b : Run) : Type 0 where
  pub attempts_bound : r.attempts ≤ t.policy.max_attempts
  pub once : t.idempotent ≡ false → r.attempts ≤ 1
  pub requests_bound : r.requests ≤ t.policy.max_requests
  pub all_counted : length b.dispatched ≡ r.requests
  pub all_allowed : All (IsAllowed t) b.dispatched
  pub sleeps_bound : All (λ d. d ≤ t.policy.max_delay) b.sleeps
  pub waited_bound : r.waited ≤ r.elapsed

Finished-KeepsLimits :
    (lib : Library) (t : SourceTask) (r : SourceResult) (b : Run)
    → Finished lib t r b
    → KeepsLimits t r b
Finished-KeepsLimits lib t r b f = record {
  attempts_bound = rw f.counts.attempts_are f.budgeted.attempts_bound;
  once = λ e. rw f.counts.attempts_are (f.budgeted.once e);
  requests_bound = rw f.counts.requests_are f.budgeted.within.requests_bound;
  all_counted = rw f.counts.requests_are f.budgeted.within.all_counted;
  all_allowed = f.budgeted.within.all_allowed;
  sleeps_bound = f.budgeted.within.sleeps_bound;
  waited_bound = rw (f.counts.waited_is, f.elapsed_is) f.budgeted.within.waited_bound;
}

-- The execution of a task that passes its check returns a result, whatever the operation, the clocks
-- and the waits do. The result has at most the policy's attempts, and one where the task is not
-- idempotent; as many requests as callbacks ran, and at most the policy's; every callback was for a
-- resource that the task plans and the policy allows; no wait that was asked for is longer than the
-- policy's; and the time that was waited is within the time that has passed.
pub execute_source-KeepsLimits :
    (lib : Library) (rt : ExecutionRuntime) (t : SourceTask) (operation : ℕ → Program)
    → check_task lib t ≡ done t
    → (r : SourceResult) × ((execute_source lib rt t operation).0 ≡ done r)
      × KeepsLimits t r (execute_source lib rt t operation).1
execute_source-KeepsLimits lib rt t operation planned =
    let (r, returned, f) = execute_source-Returns lib rt t operation planned in
    (r, returned, Finished-KeepsLimits lib t r _ f)

-- The execution of a task that passes its check returns a result for the task's source, selection,
-- resources and policy. A positive one is complete, has no reason, has used less than the total time,
-- and publishes a snapshot that passes the validation for the task's resources, all of which the
-- policy allows. Any other has a reason, is not complete, and publishes no snapshot.
pub execute_source-IsHonest :
    (lib : Library) (rt : ExecutionRuntime) (t : SourceTask) (operation : ℕ → Program)
    → check_task lib t ≡ done t
    → (r : SourceResult) × ((execute_source lib rt t operation).0 ≡ done r)
      × Describes t r
      × IsHonest lib r
execute_source-IsHonest lib rt t operation planned =
    let (r, returned, f) = execute_source-Returns lib rt t operation planned in
    (r, returned, f.describes, f.honest)
