-- ===== src/Service/Ledger.antt =====
-- The ledger of events of control_plane/service.py: the types and the details that are written.
use pepeuchiacluster.Prelude.{Bool, false, ◌&&◌, String, same, List, [], ◌∷◌, all}
use pepeuchiacluster.Contracts.Values.{contains}
use pepeuchiacluster.Capabilities.{cpu_digest}
use pepeuchiacluster.Storage.Rows.{Details}

abbrev pub contract_type : String
contract_type = "mission_execution_contract_v1"

abbrev pub state_type : String
state_type = "mission_state"

-- `details != {"capability": CPU_DIGEST}`
unfoldable pub is_contract : Details → Bool
is_contract ((k, v) ∷ []) = same k "capability" && same v cpu_digest
is_contract _ = false

-- the keys that `_audit` lets through
abbrev pub detail_keys : List String
detail_keys =
    "state" ∷ "reason" ∷ "file_id" ∷ "version_id" ∷ "task_id" ∷ "attempt_id" ∷ "worker_id"
    ∷ "capability" ∷ []

unfoldable pub is_safe : Details → Bool
is_safe = all (λ d. contains d.0 detail_keys)
