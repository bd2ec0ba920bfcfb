-- ===== src/Tests/Data.antt =====
-- Test data: an environment, and the tables of a control plane with one workspace, the demonstration
-- worker and one mission in draft.
use Prim.Native.String.{◌++◌ as concat}
use pepeuchiacluster.Prelude.{
  ℕ, ◌*◌, ◌%◌, ◌==◌, true, String, List, [], ◌∷◌, none, some, length, if◌then◌else◌,
}
use pepeuchiacluster.Contracts.{Result, ok, err}
use pepeuchiacluster.Contracts.Values.{Value, text, object, member, none_left}
use pepeuchiacluster.Contracts.Texts.{codes}
use pepeuchiacluster.Contracts.Lifecycle.{State, Principal}
use pepeuchiacluster.Capabilities.{demo}
use pepeuchiacluster.Storage.Rows.{MissionRow, WorkerRow, Limits}
use pepeuchiacluster.Storage.Database.{Db}
use pepeuchiacluster.Storage.Actions.{World, Env}

abbrev zeros_31 : String
zeros_31 = "0000000000000000000000000000000"

abbrev digit : ℕ → String
digit n =
    if n == 0
    then "0"
    else if n == 1
    then "1"
    else if n == 2
    then "2"
    else if n == 3
    then "3"
    else if n == 4
    then "4"
    else if n == 5
    then "5"
    else if n == 6
    then "6"
    else if n == 7
    then "7"
    else if n == 8
    then "8"
    else if n == 9
    then "9"
    else if n == 10
    then "a"
    else "b"

-- the codes of the texts of a document, in order, of its first levels
abbrev written_text : Value → List ℕ
written_text (text s) = codes s
written_text _ = []

abbrev first_text : Value → List ℕ
first_text (object (member k v rest)) = written_text v
first_text _ = []

abbrev pub env_example : Env
env_example = record {
  clock = λ n. n * 1000000;
  uuid = λ n. concat zeros_31 (digit n);
  sha256 = λ raw. concat zeros_31 (concat zeros_31 (concat "0" (digit (length raw % 12))));
  canonical = first_text;
  is_uuid = λ s. true;
  decode_base64 = λ s. some (codes s);
  settings = record { max_file_bytes = 1000; quota_bytes = 10000; attempt_seconds = 60 };
}

abbrev pub workspace_id : String
workspace_id = "w_00000000000000000000000000000000"

abbrev pub mission_id : String
mission_id = "m_00000000000000000000000000000000"

abbrev pub owner : Principal
owner = record { identity = "local-admin"; role = "admin"; credential_epoch = none }

abbrev pub demo_worker : Principal
demo_worker = record { identity = "fake-cpu"; role = "worker"; credential_epoch = some 1 }

abbrev pub limits_example : Limits
limits_example = record { max_concurrent_tasks = 1; lease_seconds = 60; max_output_bytes = 1000 }

abbrev pub worker_row : WorkerRow
worker_row = record {
  id = "fake-cpu";
  active = true;
  credential_sha256 = "";
  credential_epoch = 1;
  capabilities = demo ∷ [];
  limits = limits_example;
  created_at = 0;
  updated_at = 0;
}

abbrev pub mission_in : State → MissionRow
mission_in s = record {
  id = mission_id;
  owner = "local-admin";
  project = "pepeuch";
  workspace_id = workspace_id;
  title = "a report";
  objective = "write a report";
  state = s;
  created_at = 0;
  authorized_files = [];
}

abbrev pub db_with : MissionRow → Db
db_with m = record {
  workspaces = record { id = workspace_id; owner = "local-admin"; project = "pepeuch" } ∷ [];
  missions = m ∷ [];
  tasks = [];
  attempts = [];
  files = [];
  versions = [];
  results = [];
  events = [];
  operations = [];
  workers = worker_row ∷ [];
  epochs = [];
}

abbrev pub world_with : MissionRow → World
world_with m = record { db = db_with m; readings = 0; draws = 1; objects = [] }

abbrev pub operation : Value
operation = text "11111111-1111-4111-8111-111111111111"

abbrev pub other_operation : Value
other_operation = text "22222222-2222-4222-8222-222222222222"

abbrev pub body : Value → Value
body k = object (member "operation_id" k none_left)

-- the value of a result that has one
abbrev pub value_or {ℓ} : {A : Type ℓ} → A → Result A → A
value_or d (ok a) = a
value_or d (err p) = d
