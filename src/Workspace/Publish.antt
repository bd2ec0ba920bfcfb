-- ===== src/Workspace/Publish.antt =====
-- control_plane/workspace.py: `_publish`, `upload`, `publish_result` and `download`.
use Prim.Native.String.{◌++◌ as concat}
use pepeuchiacluster.Prelude.{
  ℕ, ◌+◌, Bool, true, ◌&&◌, not, ◌==◌, leb, ltb, min, String, same, List, [], ◌∷◌, Option, none,
  some, length, find, select, any, latest, sum_of, opt_same, if◌then◌else◌,
}
use pepeuchiacluster.Contracts.{Result, ok, err, problem}
use pepeuchiacluster.Contracts.Values.{Value, object, Members, member, none_left, fields, at}
use pepeuchiacluster.Contracts.Texts.{check_identifier, is_digest}
use pepeuchiacluster.Contracts.Lifecycle.{Principal}
use pepeuchiacluster.Capabilities.{demo, result_name}
use pepeuchiacluster.Storage.Rows.{MissionRow, AttemptRow, FileRow, VersionRow, same_nocase}
use pepeuchiacluster.Storage.Responses.{Response, published, Published}
use pepeuchiacluster.Storage.Database.{Db, insert_file, insert_version, insert_result}
use pepeuchiacluster.Storage.Actions.{
  Action, Env, ◌>>=◌, ◌>>◌, pure, lift, query, or_raise, guard, exec, now, new_id, transaction,
}
use pepeuchiacluster.Registry.{require_role, authorize}
use pepeuchiacluster.Service.Access.{workspace_access}
use pepeuchiacluster.Service.Operate.{audit, operate}
use pepeuchiacluster.Workspace.Output.{Output, output_data, put_object, stored}

-- `SELECT * FROM files WHERE workspace_id=? AND name=?`
abbrev pub file_named : String → String → Db → Option FileRow
file_named workspace_id name db =
    find (λ f. same f.workspace_id workspace_id && same_nocase f.name name) db.files

-- `SELECT * FROM versions WHERE file_id=? ORDER BY number DESC LIMIT 1`
abbrev pub latest_version : Option FileRow → Db → Option VersionRow
latest_version none db = none
latest_version (some f) db = latest (λ v. v.number) (select (λ v. same v.file_id f.id) db.versions)

abbrev pub version_id_of : Option VersionRow → Option String
version_id_of none = none
version_id_of (some v) = some v.id

abbrev pub in_workspace : String → Db → VersionRow → Bool
in_workspace workspace_id db v =
    any (λ f. same f.id v.file_id && same f.workspace_id workspace_id) db.files

-- `COALESCE(SUM(v.size), 0)` over the versions of the workspace
abbrev pub used_bytes : String → Db → ℕ
used_bytes workspace_id db =
    sum_of (λ v. v.size) (select (in_workspace workspace_id db) db.versions)

abbrev pub file_count : String → Db → ℕ
file_count workspace_id db = length (select (λ f. same f.workspace_id workspace_id) db.files)

-- `file is not None or count < 100`
abbrev pub room_for_file : Option FileRow → ℕ → Bool
room_for_file none count = ltb count 100
room_for_file (some f) count = true

-- `previous is None or previous["number"] < 100`
abbrev pub room_for_version : Option VersionRow → Bool
room_for_version none = true
room_for_version (some v) = ltb v.number 100

abbrev pub next_number : Option VersionRow → ℕ
next_number none = 1
next_number (some v) = v.number + 1

module _ (env : Env) where
  -- the row of the file, inserted where there was none
  unfoldable pub file_for : Option FileRow → String → String → Action String
  file_for none workspace_id name = do
    k ← new_id env "f"
    exec (insert_file (record { id = k; workspace_id = workspace_id; name = name }))
    pure k
  file_for (some f) workspace_id name = pure f.id

  -- the part of `_publish` that writes
  unfoldable pub add_version :
      Principal
      → String
      → String
      → List ℕ
      → Option String
      → Option String
      → Option FileRow
      → ℕ
      → Action Published
  unfolding file_for
  add_version principal workspace_id name raw mission_id attempt_id file number = do
    identity ← put_object env raw
    file_id ← file_for file workspace_id name
    version_id ← new_id env "v"
    at ← now env
    exec (
        insert_version (record {
          id = version_id;
          file_id = file_id;
          number = number;
          size = length raw;
          sha256 = identity;
          created_at = at;
          mission_id = mission_id;
          attempt_id = attempt_id;
        }))
    audit env principal workspace_id mission_id "file_published"
        (("file_id", file_id) ∷ ("version_id", version_id) ∷ [])
    pure (record {
      file_id = file_id;
      version_id = version_id;
      sha256 = identity;
      size = length raw;
    })

  -- `_publish`
  unfoldable pub publish :
      Principal
      → String
      → String
      → List ℕ
      → Option String
      → Option String
      → Option String
      → Action Published
  unfolding add_version
  publish principal workspace_id name raw expected mission_id attempt_id = do
    file ← query (file_named workspace_id name)
    previous ← query (latest_version file)
    guard (opt_same expected (version_id_of previous)) "version_conflict" 409
    used ← query (used_bytes workspace_id)
    guard (leb (used + length raw) env.settings.quota_bytes) "workspace_quota_exceeded" 413
    count ← query (file_count workspace_id)
    guard (room_for_file file count) "file_count_limit" 413
    guard (room_for_version previous) "version_count_limit" 413
    add_version principal workspace_id name raw mission_id attempt_id file (next_number previous)

  -- the effect of `upload`
  unfoldable pub upload_effect : Principal → String → Output → Action Response
  unfolding publish
  upload_effect principal workspace_id output = do
    workspace_access principal workspace_id
    p ← publish principal workspace_id output.name output.raw output.expected none none
    pure (published p)

  -- `{key: value for key, value in data.items() if key != "operation_id"}`
  abbrev pub without_operation : Members → Members
  without_operation none_left = none_left
  without_operation (member k v rest) =
      let others = without_operation rest in
      if same k "operation_id" then others else member k v others

  -- `upload`
  unfoldable pub upload : Principal → String → Value → Action Response
  unfolding upload_effect
  upload principal workspace_id payload = do
    require_role principal "admin"
    m ← lift (
        fields payload
          ("operation_id" ∷ "name" ∷ "content_base64" ∷ "size" ∷ "sha256" ∷ "expected_version" ∷ [])
          [])
    output ← lift (output_data env (object (without_operation m)) env.settings.max_file_bytes)
    operation ← lift (at "operation_id" m)
    operate env principal operation (concat "upload:" workspace_id) payload
        (upload_effect principal workspace_id output) "admin"

  -- the texts that `results.provenance` holds
  abbrev provenance_of : String → String
  provenance_of capability =
      if same capability demo then "deterministic_demo_only" else "worker_reported_cpu_digest"

  -- `publish_result`, inside the transaction of `finish`; the capability is that of the task
  unfoldable pub publish_result :
      Principal → MissionRow → AttemptRow → String → Value → Action Published
  unfolding publish
  publish_result principal mission attempt capability output = do
    require_role principal "worker"
    guard (same principal.identity attempt.worker_id) "access_denied" 403
    worker ← authorize env principal
    let limit = min (min 65536 env.settings.max_file_bytes) worker.limits.max_output_bytes
    checked ← lift (output_data env output limit)
    guard (same checked.name result_name && opt_same checked.expected attempt.expected_version)
        "result_contract_mismatch" 409
    p ←
        publish principal mission.workspace_id checked.name checked.raw attempt.expected_version
          (some mission.id) (some attempt.id)
    result ← new_id env "r"
    exec (
        insert_result (record {
          id = result;
          attempt_id = attempt.id;
          version_id = p.version_id;
          provenance = provenance_of capability;
        }))
    pure p

-- `(? IS NULL OR id=?)`
abbrev wanted : Option String → String → Bool
wanted none k = true
wanted (some v) k = same k v

abbrev check_optional : Option String → Action (Unit {0})
check_optional none = pure tt
check_optional (some k) = lift (check_identifier k) >> pure tt

module _ (env : Env) where
  abbrev verified : Option (List ℕ) → VersionRow → Result (List ℕ)
  verified none v = err (problem "operation_failed" 500)
  verified (some raw) v =
      if not (leb (length raw) env.settings.max_file_bytes)
      then err (problem "unsafe_local_file" 500)
      else if length raw == v.size && same (env.sha256 raw) v.sha256
      then ok raw
      else err (problem "object_corrupted" 500)

  -- the bytes of an object, or the refusal of a missing or altered one
  unfoldable pub read_object : VersionRow → Action (List ℕ)
  read_object v w = (verified (stored v.sha256 w.objects) v, w)

  -- `download`
  unfoldable pub download :
      Principal → String → String → Option String → Action (List ℕ × String × String)
  unfolding read_object workspace_access
  download principal workspace_id file_id version_id = do
    lift (check_identifier file_id)
    check_optional version_id
    transaction do
      workspace_access principal workspace_id
      found ← query λ db. find (λ f. same f.id file_id && same f.workspace_id workspace_id) db.files
      file ← or_raise found "not_found" 404
      row ← query λ db.
          latest (λ v. v.number)
            (select (λ v. same v.file_id file_id && wanted version_id v.id) db.versions)
      version ← or_raise row "not_found" 404
      guard (is_digest version.sha256) "object_corrupted" 500
      raw ← read_object version
      pure (raw, file.name, version.sha256)
