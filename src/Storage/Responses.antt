-- ===== src/Storage/Responses.antt =====
-- The views that the control plane answers with, and that `operations.response` records.
use pepeuchiacluster.Prelude.{ℕ, Bool, String, List, Option}
use pepeuchiacluster.Storage.Rows.{MissionRow, Plan, TaskRow, AttemptRow, Limits}

pub record ResultView : Type 0 where
  pub id : String
  pub attempt_id : String
  pub version_id : String
  pub provenance : String
  pub file_id : String

-- `ControlPlane._view`
pub record MissionView : Type 0 where
  pub mission : MissionRow
  pub required_capability : String
  pub tasks : List TaskRow
  pub plan : Option Plan
  pub attempts : List AttemptRow
  pub results : List ResultView

-- `WorkspaceManager._publish`
pub record Published : Type 0 where
  pub file_id : String
  pub version_id : String
  pub sha256 : String
  pub size : ℕ

-- `ExecutionManager.claim`
pub record ExecutionRequest : Type 0 where
  pub attempt_id : String
  pub generation : String
  pub task : TaskRow
  pub simulated : Bool
  pub mission_id : String
  pub title : String
  pub objective : String
  pub authorized_files : List String
  pub started_at : ℕ
  pub deadline : ℕ
  pub expected_version : Option String

-- `public_worker`
pub record PublicWorker : Type 0 where
  pub id : String
  pub active : Bool
  pub credential_epoch : ℕ
  pub capabilities : List String
  pub limits : Limits
  pub simulated : Bool

pub data Response : Type 0 where
  mission_view : MissionView → Response
  published : Published → Response
  request : Option ExecutionRequest → Response
  worker : PublicWorker → Response
