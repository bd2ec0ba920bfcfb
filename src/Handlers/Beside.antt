-- ===== src/Handlers/Beside.antt =====
-- The statements of `_transition` and of the ledger of control_plane/service.py, which leave the
-- attempts and the tasks alone.
use pepeuchiacluster.Prelude.{◌≡◌, sym, subst, String, List, Option, some, arith}
use pepeuchiacluster.Contracts.Lifecycle.{State, Principal}
use pepeuchiacluster.Storage.Rows.{AttemptRow, TaskRow, MissionRow}
use pepeuchiacluster.Storage.Database.{Db, Statement, apply, set_mission_state}
use pepeuchiacluster.Storage.Actions.{Env, exec}
use pepeuchiacluster.Storage.Actions.Keeps.{Keeps, Keeps-exec}
use pepeuchiacluster.Service.Operate.{transition}
use pepeuchiacluster.Handlers.Reads.{reads_rules}
use pepeuchiacluster.Handlers.Writes.{IsShared, audit-Keeps}

abbrev IsBeside : Statement → Type 0
IsBeside (set_mission_state k s) = Unit
IsBeside s = IsShared s

IsShared-IsBeside : (s : Statement) → IsShared s → IsBeside s
IsShared-IsBeside (set_mission_state k s) q = tt
IsShared-IsBeside s q = q

beside-tables :
    (s : Statement)
    → IsBeside s
    → (db db' : Db) → apply s db ≡ some db'
    → (db'.attempts ≡ db.attempts) × (db'.tasks ≡ db.tasks)
unfolding apply
beside-tables s q db db' e = (ground arith, ground arith)

module _ (P : List AttemptRow → List TaskRow → Type 0) where
  beside-Keeps : (s : Statement) → IsBeside s → Keeps (λ db. P db.attempts db.tasks) (exec s)
  beside-Keeps s q = Keeps-exec s λ db db' e h.
      (let (attempts, tasks) = beside-tables s q db db' e in
        subst (λ xs. P xs db'.tasks) (sym attempts) (subst (P db.attempts) (sym tasks) h))

  pub shared-beside : (s : Statement) → IsShared s → Keeps (λ db. P db.attempts db.tasks) (exec s)
  shared-beside s q = beside-Keeps s (IsShared-IsBeside s q)

  pub transition-beside :
      (env : Env) (p : Principal) (row : MissionRow) (target : State) (reason : Option String)
      → Keeps (λ db. P db.attempts db.tasks) (transition env p row target reason)
  unfolding transition
  transition-beside env p row target reason =
      search (beside-Keeps, reads_rules, audit-Keeps shared-beside env) depth 9
