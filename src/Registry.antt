-- ===== src/Registry.antt =====
-- control_plane/worker_registry.py: the policy of a worker, its authorization by the current
-- credential epoch, and its enrollment, rotation and revocation; `require_role` of
-- control_plane/auth.py. The credential files are outside the model: `digest` is the digest of the
-- credential that `_credential` has written.
pub mod Epochs
use pepeuchiacluster.Prelude.{
  ℕ, ◌+◌, Bool, true, false, ◌&&◌, ◌||◌, not, ◌==◌, leb, min, String, same, List, [], ◌∷◌, map,
  Option, none, some, select, order_by, head?, text_le, if◌then◌else◌,
}
use pepeuchiacluster.Contracts.Lifecycle.{Principal}
use pepeuchiacluster.Contracts.Texts.{codes, is_identifier}
use pepeuchiacluster.Capabilities.{demo, cpu_digest}
use pepeuchiacluster.Storage.Rows.{WorkspaceRow, WorkerRow, Limits}
use pepeuchiacluster.Storage.Responses.{PublicWorker}
use pepeuchiacluster.Storage.Database.{
  Db, worker_with, insert_worker, set_credential, revoke_worker, insert_event,
}
use pepeuchiacluster.Storage.Actions.{
  Action, Env, Settings, ◌>>=◌, ◌>>◌, pure, query, or_raise, guard, exec, now, new_id, transaction,
}

-- `require_role`
unfoldable pub require_role : Principal → String → Action (Unit {0})
require_role principal role = guard (same principal.role role) "access_denied" 403

abbrev is_only : String → List String → Bool
is_only c (d ∷ []) = same c d
is_only c _ = false

-- `default_limits`
unfoldable pub default_limits : Settings → Limits
default_limits s = record {
  max_concurrent_tasks = 1;
  lease_seconds = s.attempt_seconds;
  max_output_bytes = min s.max_file_bytes 65536;
}

-- the limits that `policy` supports
unfoldable pub is_supported : Limits → Settings → Bool
is_supported l s =
    l.max_concurrent_tasks == 1
    && (leb 1 l.lease_seconds && leb l.lease_seconds s.attempt_seconds)
    && (leb 1 l.max_output_bytes && leb l.max_output_bytes (min 65536 s.max_file_bytes))

-- `policy`
unfoldable pub policy : List String → Limits → Settings → Action (Unit {0})
unfolding is_supported
policy capabilities limits settings = do
  guard (is_only demo capabilities || is_only cpu_digest capabilities)
      "unsupported_worker_capabilities" 400
  guard (is_supported limits settings) "unsupported_worker_limits" 400

-- `worker_id`: the demonstration worker, or an identifier that begins with `n_`
abbrev starts_n : List ℕ → Bool
starts_n (a ∷ b ∷ _) = a == b'n' && b == b'_'
starts_n _ = false

unfoldable pub check_worker_id : String → Action (Unit {0})
check_worker_id s = if same s "fake-cpu" then pure tt else do
  guard (is_identifier (codes s)) "invalid_identifier" 400
  guard (starts_n (codes s)) "invalid_worker_id" 400

-- `public_worker`
unfoldable pub public_worker : WorkerRow → PublicWorker
public_worker r = record {
  id = r.id;
  active = r.active;
  credential_epoch = r.credential_epoch;
  capabilities = r.capabilities;
  limits = r.limits;
  simulated = is_only demo r.capabilities;
}

abbrev pub created_before : WorkerRow → WorkerRow → Bool
created_before a b =
    if a.created_at == b.created_at then text_le a.id b.id else leb a.created_at b.created_at

-- `WorkerRegistry.list`
unfoldable pub list : Bool → Db → List PublicWorker
list active_only db =
    map public_worker
      (select (λ r. not active_only || r.active) (order_by created_before db.workers))

abbrev epoch_matches : Option ℕ → ℕ → Bool
epoch_matches none e = false
epoch_matches (some p) e = p == e

-- the row is active, and the principal has its current epoch
abbrev is_current : Principal → WorkerRow → Bool
is_current p r = r.active && epoch_matches p.credential_epoch r.credential_epoch

-- `ORDER BY id LIMIT 1`
abbrev first_workspace : Db → Option WorkspaceRow
first_workspace db = head? (order_by (λ a b. text_le a.id b.id) db.workspaces)

module _ (env : Env) where
  -- `WorkerRegistry.authorize`
  unfoldable pub authorize : Principal → Action WorkerRow
  unfolding require_role policy
  authorize principal = do
    require_role principal "worker"
    row ← or_raise (← query (worker_with principal.identity)) "worker_revoked_or_rotated" 403
    guard (is_current principal row) "worker_revoked_or_rotated" 403
    policy row.capabilities row.limits env.settings
    pure row

  -- `WorkerRegistry._audit`
  unfoldable pub audit_identity : String → String → Action (Unit {0})
  audit_identity identity reason = do
    workspace ← or_raise (← query first_workspace) "operation_failed" 500
    event ← new_id env "e"
    at ← now env
    exec (
        insert_event (record {
          id = event;
          mission_id = none;
          workspace_id = workspace.id;
          actor = "local-maintenance";
          at = at;
          type = "worker_identity";
          details = ("worker_id", identity) ∷ ("reason", reason) ∷ [];
        }))

  -- `WorkerRegistry.enroll`
  unfoldable pub enroll : List String → Limits → String → Action PublicWorker
  unfolding policy audit_identity
  enroll capabilities limits digest = do
    policy capabilities limits env.settings
    identity ← new_id env "n"
    transaction do
      stamp ← now env
      exec (
          insert_worker (record {
            id = identity;
            active = true;
            credential_sha256 = digest;
            credential_epoch = 1;
            capabilities = capabilities;
            limits = limits;
            created_at = stamp;
            updated_at = stamp;
          }))
      audit_identity identity "explicit_enrollment"
      row ← or_raise (← query (worker_with identity)) "operation_failed" 500
      pure (public_worker row)

  -- `WorkerRegistry.rotate`
  unfoldable pub rotate : String → Bool → String → Action PublicWorker
  unfolding check_worker_id audit_identity
  rotate identity reactivate digest = do
    check_worker_id identity
    transaction do
      row ← or_raise (← query (worker_with identity)) "not_found" 404
      guard (row.active || reactivate) "explicit_reactivation_required" 409
      stamp ← now env
      exec (set_credential identity digest (row.credential_epoch + 1) stamp)
      audit_identity identity
          (if reactivate then "explicit_reactivation" else "credential_rotation")
      after ← or_raise (← query (worker_with identity)) "operation_failed" 500
      pure (public_worker after)

  -- an active worker only
  unfoldable pub revoke_active : Bool → String → Action (Unit {0})
  revoke_active true k = do stamp ← now env; exec (revoke_worker k stamp)
  revoke_active false k = pure tt

  -- `WorkerRegistry.revoke`, inside the caller's transaction
  unfoldable pub revoke : String → Action PublicWorker
  unfolding check_worker_id revoke_active
  revoke identity = do
    check_worker_id identity
    row ← or_raise (← query (worker_with identity)) "not_found" 404
    revoke_active row.active identity
    after ← or_raise (← query (worker_with identity)) "operation_failed" 500
    pure (public_worker after)
