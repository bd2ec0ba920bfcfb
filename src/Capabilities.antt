-- ===== src/Capabilities.antt =====
-- control_plane/capabilities.py and `FakeCoordinator` of control_plane/demo.py: the closed set of
-- capabilities, and the fixed routing of a mission to the first worker that declares its own.
use pepeuchiacluster.Prelude.{
  Bool, true, false, String, same, List, [], ◌∷◌, Option, none, some, find, if◌then◌else◌,
}
use pepeuchiacluster.Contracts.{Result, ok, err, problem}
use pepeuchiacluster.Contracts.Values.{contains}
use pepeuchiacluster.Storage.Rows.{Plan}
use pepeuchiacluster.Storage.Responses.{MissionView, PublicWorker}

abbrev pub demo : String
demo = "demo.report.v1"

abbrev pub cpu_digest : String
cpu_digest = "cpu.text.sha256.v1"

pub record Spec : Type 0 where
  pub role : String
  pub instruction : String
  pub simulated : Bool

-- `SPECS`
abbrev pub demo_spec : Spec
demo_spec = record {
  role = "demo-report";
  instruction = "produce_deterministic_report";
  simulated = true;
}

abbrev pub cpu_spec : Spec
cpu_spec = record {
  role = "cpu-text-digest";
  instruction = "hash_authorized_objective_utf8";
  simulated = false;
}

-- `SPECS[capability]`; `none` is a `KeyError`
unfoldable pub spec_of : String → Option Spec
spec_of c =
    if same c demo then some demo_spec else if same c cpu_digest then some cpu_spec else none

abbrev pub plan_schema : String
plan_schema = "pepeuch.control-plane/plan/v1"

abbrev pub result_name : String
result_name = "resultat.md"

-- The plan that routes work of a specification to a worker.
abbrev pub routed : String → Spec → String → Plan
routed capability spec worker = record {
  schema = plan_schema;
  simulated = spec.simulated;
  role = spec.role;
  capability = capability;
  worker_id = worker;
  instruction = spec.instruction;
  outputs = result_name ∷ [];
}

-- `next((w for w in workers if capability in w["capabilities"]), None)`
abbrev pub first_able : String → List PublicWorker → Option PublicWorker
first_able capability = find (λ w. contains capability w.capabilities)

abbrev pub route : String → Spec → Option PublicWorker → Result Plan
route capability spec none = err (problem "no_declared_capability" 409)
route capability spec (some w) = ok (routed capability spec w.id)

-- `FakeCoordinator.plan`
unfoldable pub demo_plan : List PublicWorker → Result Plan
demo_plan workers = route demo demo_spec (first_able demo workers)

abbrev pub no_files : List String → Bool
no_files [] = true
no_files (_ ∷ _) = false

-- `CapabilityCoordinator.plan`
unfoldable pub plan : MissionView → List PublicWorker → Result Plan
unfolding demo_plan
plan view workers =
    if same view.required_capability demo
    then demo_plan workers
    else if same view.required_capability cpu_digest
    then (if no_files view.mission.authorized_files
        then route cpu_digest cpu_spec (first_able cpu_digest workers)
        else err (problem "unsupported_cpu_inputs" 409))
    else err (problem "unsupported_cpu_inputs" 409)
