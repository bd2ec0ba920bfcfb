-- ===== src/Discovery/Execute/Honest.antt =====
-- What the results of database/poc/discovery_execution.py say of their run, and of the snapshot that
-- they publish.
use pepeuchiacluster.Prelude.{◌≤◌, ◌<◌, ◌≡◌, true, false, none, some}
use pepeuchiacluster.Contracts.Values.{Value}
use pepeuchiacluster.Discovery.Errors.{Reason, done}
use pepeuchiacluster.Discovery.Metadata.{Library}
use pepeuchiacluster.Discovery.Policy.{
  SourceTask, SourceResult, is_positive, refs_within, validate_observation,
}
use pepeuchiacluster.Discovery.Runtime.{Run}
use pepeuchiacluster.Discovery.Runtime.Keeps.{Within}

-- A run within the budgets of its task.
pub record Budgeted (task : SourceTask) (b : Run) : Type 0 where
  pub within : Within task b.attempts b
  pub attempts_bound : b.attempts ≤ task.policy.max_attempts
  pub once : task.idempotent ≡ false → b.attempts ≤ 1

-- A result names the plan of its task.
pub record Describes (task : SourceTask) (r : SourceResult) : Type 0 where
  pub source_is : r.source ≡ task.source
  pub selection_is : r.selection ≡ task.selection
  pub resources_are : r.resources ≡ task.resources
  pub policy_is : r.policy ≡ task.policy
  pub idempotent_is : r.idempotent ≡ task.idempotent
  pub synthetic_is : r.synthetic ≡ task.synthetic

-- A result has the counters of its run.
pub record Counts (r : SourceResult) (b : Run) : Type 0 where
  pub attempts_are : r.attempts ≡ b.attempts
  pub requests_are : r.requests ≡ b.requests
  pub waited_is : r.waited ≡ b.waited
  pub last_error_is : r.last_error ≡ b.last_error

-- A positive result publishes a snapshot that is valid for its resources, all of them allowed, in
-- time and without a reason; another result has a reason, and no snapshot.
abbrev pub Publishes : Library → SourceResult → Value → Type 0
Publishes lib r v =
    (r.snapshot ≡ some v)
    × (r.complete ≡ true)
    × (r.reason ≡ none)
    × (validate_observation lib r.source r.selection r.resources v ≡ done v)
    × (refs_within r.resources r.policy.resources ≡ true)
    × (r.elapsed < r.policy.total)

abbrev pub Withholds : SourceResult → Reason → Type 0
Withholds r e = (r.reason ≡ some e) × (r.complete ≡ false) × (r.snapshot ≡ none)

pub record IsHonest (lib : Library) (r : SourceResult) : Type 0 where
  pub positive : is_positive r.status ≡ true → (v : Value) × Publishes lib r v
  pub negative : is_positive r.status ≡ false → (e : Reason) × Withholds r e

pub record Finished (lib : Library) (task : SourceTask) (r : SourceResult) (b : Run) : Type 0 where
  pub budgeted : Budgeted task b
  pub describes : Describes task r
  pub counts : Counts r b
  pub elapsed_is : r.elapsed ≡ b.elapsed
  pub honest : IsHonest lib r
