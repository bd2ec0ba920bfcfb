-- ===== src/Storage/Rows.antt =====
-- control_plane/migrations/*.sql: the tables, a record for each row. A column that holds canonical
-- JSON holds the decoded value here, and times are numbers of the clock's unit.
use pepeuchiacluster.Prelude.{ℕ, Bool, true, false, ◌&&◌, ◌==◌, String, List, [], ◌∷◌, Option}
use pepeuchiacluster.Contracts.Lifecycle.{State}
use pepeuchiacluster.Contracts.Texts.{codes, upper}

pub record WorkspaceRow : Type 0 where
  pub id : String
  pub owner : String
  pub project : String

pub record MissionRow : Type 0 where
  pub id : String
  pub owner : String
  pub project : String
  pub workspace_id : String
  pub title : String
  pub objective : String
  pub state : State
  pub created_at : ℕ
  pub authorized_files : List String

-- The plan of control_plane/capabilities.py.
pub record Plan : Type 0 where
  pub schema : String
  pub simulated : Bool
  pub role : String
  pub capability : String
  pub worker_id : String
  pub instruction : String
  pub outputs : List String

pub record TaskRow : Type 0 where
  pub id : String
  pub mission_id : String
  pub role : String
  pub capability : String
  pub worker_id : String
  pub state : State
  pub plan : Plan

pub record AttemptRow : Type 0 where
  pub id : String
  pub task_id : String
  pub number : ℕ
  pub worker_id : String
  pub state : State
  pub generation : String
  pub started_at : ℕ
  pub deadline : ℕ
  pub expected_version : Option String
  pub result_sha256 : Option String
  pub error_code : Option String

pub record FileRow : Type 0 where
  pub id : String
  pub workspace_id : String
  pub name : String

pub record VersionRow : Type 0 where
  pub id : String
  pub file_id : String
  pub number : ℕ
  pub size : ℕ
  pub sha256 : String
  pub created_at : ℕ
  pub mission_id : Option String
  pub attempt_id : Option String

pub record ResultRow : Type 0 where
  pub id : String
  pub attempt_id : String
  pub version_id : String
  pub provenance : String

abbrev pub Details : Type 0
Details = List (String × String)

-- The column `sequence` is the position in the table.
pub record EventRow : Type 0 where
  pub id : String
  pub mission_id : Option String
  pub workspace_id : String
  pub actor : String
  pub at : ℕ
  pub type : String
  pub details : Details

pub record Limits : Type 0 where
  pub max_concurrent_tasks : ℕ
  pub lease_seconds : ℕ
  pub max_output_bytes : ℕ

pub record WorkerRow : Type 0 where
  pub id : String
  pub active : Bool
  pub credential_sha256 : String
  pub credential_epoch : ℕ
  pub capabilities : List String
  pub limits : Limits
  pub created_at : ℕ
  pub updated_at : ℕ

pub record EpochRow : Type 0 where
  pub attempt_id : String
  pub credential_epoch : ℕ

abbrev same_folded : List ℕ → List ℕ → Bool
same_folded [] [] = true
same_folded (c ∷ cs) (d ∷ ds) = upper c == upper d && same_folded cs ds
same_folded _ _ = false

-- The collation NOCASE of `files.name`: ASCII letters compare without their case.
pub same_nocase : String → String → Bool
same_nocase a b = same_folded (codes a) (codes b)
