-- ===== src/Execution/Overview.antt =====
-- The requests of the owner that only look, after `expire`: `get_mission`, `list_missions` and
-- `dashboard` of control_plane/service.py, and `nodes` of control_plane/execution.py.
use pepeuchiacluster.Prelude.{
  ℕ, Bool, false, ◌&&◌, ◌||◌, not, ◌==◌, leb, ltb, String, same, List, [], ◌∷◌, Option, none, some,
  map, select, any, find, length, order_by, take, text_le, opt_same, if◌then◌else◌,
}
use pepeuchiacluster.Contracts.Lifecycle.{
  State, state_eq, queued, completed, running, cancel_requested, is_active, Principal,
}
use pepeuchiacluster.Capabilities.{demo}
use pepeuchiacluster.Storage.Rows.{MissionRow}
use pepeuchiacluster.Storage.Responses.{MissionView, PublicWorker}
use pepeuchiacluster.Storage.Database.{Db}
use pepeuchiacluster.Storage.Actions.{Action, Env, ◌>>=◌, ◌>>◌, pure, query, transaction}
use pepeuchiacluster.Registry.{require_role, list}
use pepeuchiacluster.Service.Access.{owned_mission, required_capability, view}
use pepeuchiacluster.Service.Ledger.{contract_type}
use pepeuchiacluster.Execution.Fence.{expire}

-- An entry of `nodes`; `accepted_cpu_results` is there for a worker that is not simulated.
pub record Node : Type 0 where
  pub worker : PublicWorker
  pub state : String
  pub verified_simulated_executions : ℕ
  pub accepted_cpu_results : Option ℕ

-- the active attempts of a worker, and the results of its attempts
abbrev active_of : String → Db → ℕ
active_of k db = length (select (λ a. same a.worker_id k && is_active a.state) db.attempts)

abbrev results_by : String → Db → ℕ
results_by k db =
    length
      (select (λ r. any (λ a. same a.id r.attempt_id && same a.worker_id k) db.attempts) db.results)

abbrev node_state : PublicWorker → ℕ → String
node_state w active =
    if not w.active
    then "revoked"
    else if ltb 0 active
    then (if w.simulated then "simulated_busy" else "cpu_busy")
    else "manual_idle"

abbrev node_of : Db → PublicWorker → Node
node_of db w = record {
  worker = w;
  state = node_state w (active_of w.id db);
  verified_simulated_executions = if w.simulated then results_by w.id db else 0;
  accepted_cpu_results = if w.simulated then none else some (results_by w.id db);
}

abbrev nodes_of : Db → List Node
nodes_of db = map (node_of db) (list false db)

-- `ORDER BY created_at DESC, id DESC`
abbrev newest_first : MissionRow → MissionRow → Bool
newest_first a b =
    if a.created_at == b.created_at then text_le b.id a.id else leb b.created_at a.created_at

abbrev owned_by : String → Db → List MissionRow
owned_by owner db = select (λ r. same r.owner owner) db.missions

unfoldable pub views : List MissionRow → Action (List MissionView)
unfolding pure
views [] = pure []
views (row ∷ rows) = do v ← view row; vs ← views rows; pure (v ∷ vs)

pub record ActiveMission : Type 0 where
  pub id : String
  pub title : String
  pub state : State
  pub required_capability : Option String

pub record Dashboard : Type 0 where
  pub mission_count : ℕ
  pub queued_tasks : ℕ
  pub completed_tasks : ℕ
  pub active_mission : Option ActiveMission
  pub nodes : List Node
  pub simulation_only : Bool

abbrev count_in : State → List MissionRow → ℕ
count_in s rows = length (select (λ r. state_eq r.state s) rows)

-- one of the owner's missions has a recorded contract
abbrev cpu_present : String → Db → Bool
cpu_present owner db =
    any
      (λ e.
        same e.type contract_type
        && any (λ m. opt_same e.mission_id (some m.id) && same m.owner owner) db.missions)
      db.events

abbrev find_active : String → Db → Option MissionRow
find_active owner db =
    find
      (λ r. same r.owner owner && (state_eq r.state running || state_eq r.state cancel_requested))
      db.missions

unfoldable pub active_mission : Option MissionRow → Action (Option ActiveMission)
active_mission none = pure none
active_mission (some row) = do
  capability ← required_capability row.id
  pure (
      some (record {
        id = row.id;
        title = row.title;
        state = row.state;
        required_capability = if same capability demo then none else some capability;
      }))

-- the transaction of `dashboard`: the missions of the owner, the active one, and `cpu_present`
unfoldable pub counted : String → Action (List MissionRow × Option ActiveMission × Bool)
unfolding active_mission
counted owner = do
  rows ← query (owned_by owner)
  active ← active_mission (← query (find_active owner))
  cpu ← query (cpu_present owner)
  pure (rows, active, cpu)

module _ (env : Env) where
  -- `get_mission`
  unfoldable pub get_mission : Principal → String → Action MissionView
  unfolding require_role expire owned_mission
  get_mission principal identity = do
    require_role principal "admin"
    expire env
    transaction do row ← owned_mission principal identity; view row

  -- `list_missions`
  unfoldable pub list_missions : Principal → Action (List MissionView)
  unfolding require_role expire views
  list_missions principal = do
    require_role principal "admin"
    expire env
    transaction do
      rows ← query λ db. take 200 (order_by newest_first (owned_by principal.identity db))
      views rows

  -- `nodes`
  unfoldable pub nodes : Principal → Action (List Node)
  unfolding require_role expire
  nodes principal = do require_role principal "admin"; expire env; transaction (query nodes_of)

  -- `dashboard`
  unfoldable pub dashboard : Principal → Action Dashboard
  unfolding require_role expire counted nodes
  dashboard principal = do
    require_role principal "admin"
    expire env
    found ← transaction (counted principal.identity)
    entries ← nodes principal
    pure (record {
      mission_count = length found.0;
      queued_tasks = count_in queued found.0;
      completed_tasks = count_in completed found.0;
      active_mission = found.1;
      nodes = entries;
      simulation_only = not found.2;
    })
