-- ===== src/Workspace/Versions.antt =====
-- The versions that `_publish` of control_plane/workspace.py adds: compare-and-swap on the current
-- version, the quota of the workspace, and the numbers.
use pepeuchiacluster.Prelude.{
  ℕ, ◌+◌, ◌≤◌, ◌≡◌, ◌⊎◌, inl, inr, refl, sym, ap, ◌∙◌, subst, true, leb, String, List, [], ◌∷◌,
  ◌++◌, Option, none, some, arith, opt_same, length,
}
use pepeuchiacluster.Contracts.{ok}
use pepeuchiacluster.Contracts.Lifecycle.{Principal}
use pepeuchiacluster.Storage.Rows.{VersionRow, FileRow, EventRow, Details}
use pepeuchiacluster.Storage.Responses.{Published}
use pepeuchiacluster.Storage.Database.{Db, apply, insert_file, insert_version, insert_event}
use pepeuchiacluster.Storage.Actions.{World, Env, exec, pure, now, new_id}
use pepeuchiacluster.Storage.Actions.Keeps.{Keeps, Keeps-exec, keeps_rules}
use pepeuchiacluster.Storage.Actions.Ensures.{
  Ensures, Ensures-bind, Ensures-at, Ensures-exec, Ensures-test, Ensures-keep, Ensures-ok,
  Ensures-return,
}
use pepeuchiacluster.Service.Operate.{audit}
use pepeuchiacluster.Handlers.Reads.{put_object-Keeps}
use pepeuchiacluster.Workspace.Output.{put_object}
use pepeuchiacluster.Workspace.Publish.{
  file_named, latest_version, version_id_of, used_bytes, room_for_file, room_for_version,
  file_count, next_number, file_for, add_version, publish,
}

-- The file of that identity is the one of the name in the workspace: it was there, or it is a new row
-- after the others.
abbrev pub Placed : Db → String → String → String → List FileRow → Type 0
Placed db0 workspace name k files =
    (file : FileRow) × (file.id ≡ k)
    × (((file_named workspace name db0 ≡ some file) × (files ≡ db0.files))
        ⊎ ((file_named workspace name db0 ≡ none)
            × (files ≡ db0.files ++ file ∷ [])
            × (file.workspace_id ≡ workspace)
            × (file.name ≡ name)))

-- What a publication adds, and what was checked of the tables before it.
pub record Added (env : Env) (db0 : Db) (workspace name : String) (raw : List ℕ)
    (expected mission attempt : Option String) (p : Published) (db : Db) : Type 0 where
  pub version : VersionRow
  pub versions : db.versions ≡ db0.versions ++ version ∷ []
  pub named : (version.id ≡ p.version_id) × (version.file_id ≡ p.file_id)
  pub placed : Placed db0 workspace name version.file_id db.files
  pub current :
      opt_same expected (version_id_of (latest_version (file_named workspace name db0) db0)) ≡ true
  pub number : version.number ≡ next_number (latest_version (file_named workspace name db0) db0)
  pub bounded : version.number ≤ 100
  pub size : version.size ≡ length raw
  pub within : used_bytes workspace db0 + version.size ≤ env.settings.quota_bytes
  pub from : (version.mission_id ≡ mission) × (version.attempt_id ≡ attempt)

number_bound : (v : Option VersionRow) → room_for_version v ≡ true → next_number v ≤ 100
number_bound none e = omega arith
number_bound (some v) e = ground arith

leb_le : (a b : ℕ) → leb a b ≡ true → a ≤ b
leb_le a b e = ground arith

insert_file-tables :
    (r : FileRow) (db db' : Db)
    → apply (insert_file r) db ≡ some db'
    → (db'.versions ≡ db.versions) × (db'.files ≡ db.files ++ r ∷ [])
unfolding apply
insert_file-tables r db db' e = (ground arith, ground arith)

insert_event-tables :
    (r : EventRow) (db db' : Db)
    → apply (insert_event r) db ≡ some db'
    → (db'.versions ≡ db.versions) × (db'.files ≡ db.files)
unfolding apply
insert_event-tables r db db' e = (ground arith, ground arith)

insert_version-tables :
    (r : VersionRow) (db db' : Db)
    → apply (insert_version r) db ≡ some db'
    → (db'.versions ≡ db.versions ++ r ∷ []) × (db'.files ≡ db.files)
unfolding apply
insert_version-tables r db db' e = (ground arith, ground arith)

module _ (env : Env) (P : List VersionRow → List FileRow → Type 0) where
  event-Keeps : (r : EventRow) → Keeps (λ db. P db.versions db.files) (exec (insert_event r))
  event-Keeps r = Keeps-exec (insert_event r) λ db db' e h.
      (let (versions, files) = insert_event-tables r db db' e in
        subst (λ vs. P vs db'.files) (sym versions) (subst (P db.versions) (sym files) h))

  audit-Keeps :
      (p : Principal) (w : String) (m : Option String) (t : String) (d : Details)
      → Keeps (λ db. P db.versions db.files) (audit env p w m t d)
  unfolding audit
  audit-Keeps p w m t d = search (keeps_rules, event-Keeps) depth 9

module _ (env : Env) (db0 : Db) (workspace name : String) where
  file_for-Placed :
      (f : Option FileRow)
      → file_named workspace name db0 ≡ f
      → Ensures
          (λ db. db ≡ db0)
          (file_for env f workspace name)
          (λ k db. (db.versions ≡ db0.versions) × Placed db0 workspace name k db.files)
  unfolding file_for pure
  file_for-Placed (some f) e = record {
    at = λ w h. (ap (λ x. x.versions) h, (f, refl, inl (e, ap (λ x. x.files) h)));
  }
  file_for-Placed none e = Ensures-keep (new_id env "f") _ (search keeps_rules) λ k.
      let row : FileRow = record { id = k; workspace_id = workspace; name = name } in
      Ensures-bind (exec (insert_file row)) _
        (Ensures-exec
          {Q = λ db. (db.versions ≡ db0.versions) × Placed db0 workspace name k db.files}
          (insert_file row)
          λ db db' run h.
            (let (versions, files) = insert_file-tables row db db' run in
              (
                versions ∙ ap (λ x. x.versions) h,
                (row, refl, inr (e, files ∙ ap (λ x. x.files ++ row ∷ []) h, refl, refl)),
              )))
        λ _. Ensures-return k

module _ (env : Env) (db0 : Db) (p : Principal) (workspace name : String) (raw : List ℕ)
    (expected mission attempt : Option String) where
  abbrev Start : Db → Type 0
  Start db = db ≡ db0

  abbrev Adds : Published → Db → Type 0
  Adds = Added env db0 workspace name raw expected mission attempt

  abbrev file : Option FileRow
  file = file_named workspace name db0

  abbrev previous : Option VersionRow
  previous = latest_version file db0

  abbrev IsAdded : VersionRow → String → List VersionRow → List FileRow → Type 0
  IsAdded v file_id vs fs = (vs ≡ db0.versions ++ v ∷ []) × Placed db0 workspace name file_id fs

  adding :
      opt_same expected (version_id_of previous) ≡ true
      → leb (used_bytes workspace db0 + length raw) env.settings.quota_bytes ≡ true
      → room_for_version previous ≡ true
      → Ensures Start
          (add_version env p workspace name raw mission attempt file (next_number previous))
          Adds
  unfolding add_version pure
  adding current within room =
      Ensures-keep (put_object env raw) _ (put_object-Keeps env raw) λ digest.
        Ensures-bind (file_for env file workspace name) _
          (file_for-Placed env db0 workspace name file refl)
          λ file_id. Ensures-keep (new_id env "v") _ (search keeps_rules) λ version_id.
            Ensures-keep (now env) _ (search keeps_rules) λ at.
              let v : VersionRow = record {
                id = version_id;
                file_id = file_id;
                number = next_number previous;
                size = length raw;
                sha256 = digest;
                created_at = at;
                mission_id = mission;
                attempt_id = attempt;
              } in
              Ensures-bind (exec (insert_version v)) _
                (Ensures-exec {Q = λ db. IsAdded v file_id db.versions db.files} (insert_version v)
                  λ db db' e h.
                    (let (versions, files) = insert_version-tables v db db' e in
                      (
                        versions ∙ ap (λ vs. vs ++ v ∷ []) h.0,
                        subst (Placed db0 workspace name file_id) (sym files) h.1,
                      )))
                λ _.
                  Ensures-keep (audit env p workspace mission _ _) _
                    (audit-Keeps env (IsAdded v file_id) p workspace mission _ _)
                    λ _. record {
                      at = λ w h. record {
                        version = v;
                        versions = h.0;
                        placed = h.1;
                        named = (refl, refl);
                        current = current;
                        number = refl;
                        bounded = number_bound previous room;
                        size = refl;
                        within = leb_le _ _ within;
                        from = (refl, refl);
                      };
                    }

  publish-Added : Ensures Start (publish env p workspace name raw expected mission attempt) Adds
  unfolding publish
  publish-Added = Ensures-at (file_named workspace name) _ (
      Ensures-at (latest_version file) _ (
        Ensures-test (opt_same expected (version_id_of previous)) _ _ _ λ current.
          Ensures-at (used_bytes workspace) _ (
            Ensures-test (leb (used_bytes workspace db0 + length raw) _) _ _ _ λ within.
              Ensures-at (file_count workspace) _ (
                Ensures-test (room_for_file file _) _ _ _ λ _.
                  Ensures-test (room_for_version previous) _ _ _
                    λ room. adding current within room))))

-- A publication that succeeds adds one version after the ones that there were. The version is of the
-- file that has the name in the workspace, or, where there is none, of a new file of that name, which
-- is the only file that is added. It does so only if the version that the caller expects is the current one (none for a new
-- file); the number is the next one and at most 100, and the bytes of the workspace stay within its
-- quota.
pub publish-adds :
    (env : Env) (p : Principal) (workspace name : String) (raw : List ℕ)
    (expected mission attempt : Option String) (w w' : World) (answer : Published)
    → publish env p workspace name raw expected mission attempt w ≡ (ok answer, w')
    → Added env w.db workspace name raw expected mission attempt answer w'.db
publish-adds env p workspace name raw expected mission attempt w w' answer run =
    Ensures-ok (publish env p workspace name raw expected mission attempt)
      (publish-Added env w.db p workspace name raw expected mission attempt) w refl answer w' run
