-- ===== src/Service/Create.antt =====
-- control_plane/service.py: `_create_mission` for the two kinds of mission.
use pepeuchiacluster.Prelude.{
  Bool, ◌&&◌, ◌||◌, not, String, same, List, [], ◌∷◌, some, any, if◌then◌else◌,
}
use pepeuchiacluster.Contracts.Values.{Value, fields, at, get}
use pepeuchiacluster.Contracts.Lifecycle.{draft, state_name, Principal}
use pepeuchiacluster.Capabilities.{demo, cpu_digest, no_files}
use pepeuchiacluster.Storage.Rows.{Details}
use pepeuchiacluster.Storage.Responses.{Response, mission_view}
use pepeuchiacluster.Storage.Database.{Db, insert_mission}
use pepeuchiacluster.Storage.Actions.{
  Action, Env, ◌>>=◌, ◌>>◌, pure, lift, query, guard, exec, each, now, new_id,
}
use pepeuchiacluster.Service.Ledger.{contract_type}
use pepeuchiacluster.Service.Requests.{text_at, identifier_at, references}
use pepeuchiacluster.Service.Access.{workspace_access, owned_mission, view}
use pepeuchiacluster.Service.Operate.{audit, operate}

module _ (env : Env) where
  abbrev pub created_details : Details
  created_details = ("state", state_name draft) ∷ []

  -- `SELECT 1 FROM versions v JOIN files f … WHERE v.id=? AND f.workspace_id=?`
  abbrev holds_version : String → String → Db → Bool
  holds_version workspace_id reference db =
      any
        (λ v.
          same v.id reference
          && any (λ f. same f.id v.file_id && same f.workspace_id workspace_id) db.files)
        db.versions

  -- the effect of `_create_mission`
  unfoldable pub create_effect :
      Principal → String → String → String → List String → String → Action Response
  unfolding workspace_access owned_mission view
  create_effect principal workspace_id title objective refs capability = do
    workspace ← workspace_access principal workspace_id
    each refs λ reference. do guard (← query (holds_version workspace.id reference)) "not_found" 404
    identity ← new_id env "m"
    at ← now env
    exec (
        insert_mission (record {
          id = identity;
          owner = principal.identity;
          project = workspace.project;
          workspace_id = workspace.id;
          title = title;
          objective = objective;
          state = draft;
          created_at = at;
          authorized_files = refs;
        }))
    audit env principal workspace.id (some identity) "mission_created" created_details
    (if same capability demo
        then pure tt
        else audit env principal workspace.id (some identity) contract_type
            (("capability", capability) ∷ []))
    row ← owned_mission principal identity
    seen ← view row
    pure (mission_view seen)

  -- `_create_mission`
  unfoldable pub create : Principal → Value → String → Action Response
  unfolding create_effect references
  create principal payload capability = do
    m ← lift (
        fields payload ("operation_id" ∷ "title" ∷ "objective" ∷ "workspace_id" ∷ [])
          ("authorized_files" ∷ []))
    title ← lift (text_at 160 "title" m)
    objective ← lift (text_at 4000 "objective" m)
    workspace_id ← lift (identifier_at "workspace_id" m)
    refs ← lift (references (get "authorized_files" m))
    guard (not (same capability cpu_digest) || no_files refs) "unsupported_cpu_inputs" 400
    operation ← lift (at "operation_id" m)
    operate env principal operation
        (if same capability demo then "create_mission" else "create_cpu_mission") payload
        (create_effect principal workspace_id title objective refs capability) "admin"

  -- `create_mission` and `create_cpu_mission`
  unfoldable pub create_mission : Principal → Value → Action Response
  create_mission principal payload = create principal payload demo

  unfoldable pub create_cpu_mission : Principal → Value → Action Response
  create_cpu_mission principal payload = create principal payload cpu_digest
