-- ===== src/Lifecycle/Requests.antt =====
-- The missions under every call, and under any sequence of calls.
use pepeuchiacluster.Prelude.{List, Keyed}
use pepeuchiacluster.Storage.Database.{Db, insert_worker, set_credential}
use pepeuchiacluster.Storage.Actions.{World, Env}
use pepeuchiacluster.Execution.Decide.{Coordinator}
use pepeuchiacluster.Api.{Call, serve}
use pepeuchiacluster.Handlers.Writes.{upload_effect-Keeps, operate_once-Keeps, audit_identity-Keeps}
use pepeuchiacluster.Handlers.Requests.{EffectsKeep, serve-holds}
use pepeuchiacluster.Lifecycle.Missions.{Evolves, Evolves-refl, mission_key}
use pepeuchiacluster.Lifecycle.Steps.{Keeps-quiet, Keeps-shared}
use pepeuchiacluster.Lifecycle.Effects.{
  fence-Evolves, revoke_effect-Evolves, create_effect-Evolves, approve_effect-Evolves,
  cancel_effect-Evolves, retry_effect-Evolves, claim_effect-Evolves, finish_once-Evolves,
}

effects-Evolve : (db0 : Db) (env : Env) (c : Coordinator) → EffectsKeep (Evolves db0) env c
effects-Evolve db0 env c = record {
  enrolling = λ r. Keeps-quiet db0 (insert_worker r) tt;
  rotating = λ k digest stamp row. Keeps-quiet db0 (set_credential k digest _ stamp) tt;
  auditing = audit_identity-Keeps (Keeps-shared db0) env;
  fencing = fence-Evolves env;
  operating = operate_once-Keeps (Keeps-shared db0) env;
  creating = create_effect-Evolves env;
  uploading = upload_effect-Keeps (Keeps-shared db0) env;
  approving = approve_effect-Evolves env c;
  cancelling = cancel_effect-Evolves env;
  retrying = retry_effect-Evolves env;
  revoking = revoke_effect-Evolves env;
  claiming = claim_effect-Evolves env;
  finishing = finish_once-Evolves env;
}

-- Whatever calls a control plane serves, from a database whose missions have different identities,
-- in whatever order and with whatever answers: the identities stay different, every mission is still
-- there, its owner, workspace, texts and files are the same, and its state has moved along
-- `TRANSITIONS` only.
pub serve-Evolves :
    (env : Env) (c : Coordinator) (calls : List Call) (w : World)
    → Keyed mission_key w.db.missions
    → Evolves w.db (serve env c calls w).db
serve-Evolves env c calls w keyed =
    serve-holds env c (effects-Evolve w.db env c) calls w (Evolves-refl w.db keyed)
