-- ===== src/Registry/Epochs.antt =====
-- The credential epochs of control_plane/worker_registry.py, under rotation and revocation, and what
-- `authorize` makes of them.
use mathlib.Core.Option.{some-injective}
use pepeuchiacluster.Prelude.{
  ℕ, ◌+◌, ◌≡◌, refl, sym, ap, ◌∙◌, subst, Bool, true, false, String, some, arith, with_key,
  with_key-own_update,
}
use pepeuchiacluster.Contracts.{ok, err, problem}
use pepeuchiacluster.Contracts.Lifecycle.{Principal}
use pepeuchiacluster.Storage.Rows.{WorkerRow, EventRow}
use pepeuchiacluster.Storage.Responses.{PublicWorker}
use pepeuchiacluster.Storage.Database.{
  Db, apply, worker_with, set_credential, revoke_worker, insert_event,
}
use pepeuchiacluster.Storage.Actions.{World, Env, ◌>>=◌, exec, query, or_raise, guard, pure, now}
use pepeuchiacluster.Storage.Actions.Keeps.{Keeps, Keeps-exec, keeps_rules}
use pepeuchiacluster.Storage.Actions.Ensures.{
  Ensures, Ensures-bind, Ensures-exec, Ensures-ok, Ensures-transaction, Keeps-Ensures, Ensures-read,
  Ensures-keep,
}
use pepeuchiacluster.Registry.{
  require_role, check_worker_id, authorize, audit_identity, rotate, revoke_active, revoke,
  is_current,
}

abbrev worker_key : WorkerRow → String
worker_key r = r.id

-- The row of the worker is one that no credential of the epoch `e` is current for.
abbrev pub IsPast : String → ℕ → Db → Type 0
IsPast k e db =
    (r : WorkerRow) × (worker_with k db ≡ some r)
    × ((p : Principal) → p.credential_epoch ≡ some e → is_current p r ≡ false)

later_epoch :
    (p : Principal) (r : WorkerRow) (e : ℕ)
    → r.credential_epoch ≡ e + 1
    → p.credential_epoch ≡ some e
    → is_current p r ≡ false
later_epoch p r e later own = ground arith

inactive_row : (p : Principal) (r : WorkerRow) → r.active ≡ false → is_current p r ≡ false
inactive_row p r idle = ground arith

set_credential-IsPast :
    (k digest : String) (stamp : ℕ) (row : WorkerRow) (db db' : Db)
    → apply (set_credential k digest (row.credential_epoch + 1) stamp) db ≡ some db'
    → worker_with k db ≡ some row
    → IsPast k row.credential_epoch db'
unfolding apply worker_with
set_credential-IsPast k digest stamp row db db' e found =
    let renew : WorkerRow → WorkerRow = λ r. record r {
      credential_sha256 = digest;
      credential_epoch = row.credential_epoch + 1;
      active = true;
      updated_at = stamp;
    } in
    subst (IsPast k row.credential_epoch) (some-injective _ _ e) (
      renew row,
      with_key-own_update worker_key renew (λ r. refl) k db.workers row found,
      λ p own. later_epoch p (renew row) row.credential_epoch refl own,
    )

revoke_worker-IsPast :
    (k : String) (stamp : ℕ) (row : WorkerRow) (db db' : Db)
    → apply (revoke_worker k stamp) db ≡ some db'
    → worker_with k db ≡ some row
    → IsPast k row.credential_epoch db'
unfolding apply worker_with
revoke_worker-IsPast k stamp row db db' e found =
    let drop : WorkerRow → WorkerRow = λ r. record r {
      active = false;
      credential_epoch = r.credential_epoch + 1;
      updated_at = stamp;
    } in
    subst (IsPast k row.credential_epoch) (some-injective _ _ e) (
      drop row,
      with_key-own_update worker_key drop (λ r. refl) k db.workers row found,
      λ p own. inactive_row p (drop row) refl,
    )

event-workers :
    (r : EventRow) (db db' : Db) → apply (insert_event r) db ≡ some db' → db'.workers ≡ db.workers
unfolding apply
event-workers r db db' e = ground arith

event-IsPast : (k : String) (e : ℕ) (r : EventRow) → Keeps (IsPast k e) (exec (insert_event r))
unfolding worker_with
event-IsPast k e r = Keeps-exec (insert_event r) λ db db' run (row, found, past).
    (row, ap (with_key worker_key k) (event-workers r db db' run) ∙ found, past)

-- A principal whose epoch is past is refused, and the tables stay.
authorize-past :
    (env : Env) (p : Principal) (e : ℕ) (w : World)
    → p.role ≡ "worker"
    → p.credential_epoch ≡ some e
    → IsPast p.identity e w.db
    → authorize env p w ≡ (err (problem "worker_revoked_or_rotated" 403), w)
unfolding authorize require_role guard query or_raise ◌>>=◌
authorize-past env p e w worker own (row, found, past) = rw worker (rw found (rw (past p own) refl))

-- the row of the worker that a step reads is the one that the table holds
same_worker :
    (k : String) (a b : WorkerRow) (db : Db)
    → worker_with k db ≡ some a
    → worker_with k db ≡ some b
    → b ≡ a
same_worker k a b db e f = some-injective b a (sym f ∙ e)

module _ (env : Env) (k : String) (row : WorkerRow) where
  abbrev Holds : Db → Type 0
  Holds db = worker_with k db ≡ some row

  audited-IsPast :
      (reason : String) → Keeps (IsPast k row.credential_epoch) (audit_identity env k reason)
  unfolding audit_identity
  audited-IsPast reason = search (keeps_rules, event-IsPast) depth 7

  -- the row is read again, and the epoch of that row is what the statement counts up
  abbrev HoldsRead : WorkerRow → Db → Type 0
  HoldsRead r db = Holds db × (worker_with k db ≡ some r)

  rotating-IsPast :
      (digest : String) (stamp : ℕ) (r : WorkerRow)
      → Ensures
          (HoldsRead r)
          (exec (set_credential k digest (r.credential_epoch + 1) stamp))
          (λ _. IsPast k row.credential_epoch)
  rotating-IsPast digest stamp r =
      Ensures-exec (set_credential k digest (r.credential_epoch + 1) stamp) λ db db' run h.
        subst (λ x. IsPast k x.credential_epoch db') (same_worker k row r db h.0 h.1)
          (set_credential-IsPast k digest stamp r db db' run h.1)

  pub rotate-IsPast :
      (reactivate : Bool) (digest : String)
      → Ensures Holds (rotate env k reactivate digest) (λ _. IsPast k row.credential_epoch)
  unfolding rotate check_worker_id
  rotate-IsPast reactivate digest = Ensures-keep (check_worker_id k) _ (search keeps_rules) λ _.
      Ensures-transaction _ (
        Ensures-read (worker_with k) "not_found" 404 _ λ r.
          Ensures-keep (guard _ "explicit_reactivation_required" 409) _ (search keeps_rules) λ _.
            Ensures-keep (now env) _ (search keeps_rules) λ stamp.
              Ensures-bind (exec _) _ (rotating-IsPast digest stamp r)
                λ _. Keeps-Ensures _ (search (keeps_rules, audited-IsPast) depth 9))

  revoking-IsPast :
      (b : Bool) (r : WorkerRow)
      → r.active ≡ b
      → Ensures (HoldsRead r) (revoke_active env b k) (λ _. IsPast k row.credential_epoch)
  unfolding revoke_active pure
  revoking-IsPast true r e = Ensures-keep (now env) _ (search keeps_rules) λ stamp.
      Ensures-exec (revoke_worker k stamp)
        λ db db' run h. revoke_worker-IsPast k stamp row db db' run h.0
  revoking-IsPast false r e = record { at = λ w h. (r, h.1, λ p own. inactive_row p r e) }

  pub revoke-IsPast : Ensures Holds (revoke env k) (λ _. IsPast k row.credential_epoch)
  unfolding revoke check_worker_id
  revoke-IsPast = Ensures-keep (check_worker_id k) _ (search keeps_rules) λ _.
      Ensures-read (worker_with k) "not_found" 404 _ λ r.
        Ensures-bind (revoke_active env r.active k) _ (revoking-IsPast r.active r refl)
          λ _. Keeps-Ensures _ (search keeps_rules)

-- After a rotation of its credential, a worker that presents the epoch from before is refused as
-- revoked or rotated, and nothing changes.
pub rotate-authorize :
    (env : Env) (p : Principal) (row : WorkerRow) (reactivate : Bool) (digest : String)
    (w w' : World) (answer : PublicWorker)
    → p.role ≡ "worker"
    → worker_with p.identity w.db ≡ some row
    → p.credential_epoch ≡ some row.credential_epoch
    → rotate env p.identity reactivate digest w ≡ (ok answer, w')
    → authorize env p w' ≡ (err (problem "worker_revoked_or_rotated" 403), w')
rotate-authorize env p row reactivate digest w w' answer worker found own run =
    authorize-past env p row.credential_epoch w' worker own (
      Ensures-ok (rotate env p.identity reactivate digest)
        (rotate-IsPast env p.identity row reactivate digest) w found answer w' run)

-- After its revocation, a worker that presents the epoch from before is refused as revoked or
-- rotated, whether it was active or not, and nothing changes.
pub revoke-authorize :
    (env : Env) (p : Principal) (row : WorkerRow) (w w' : World) (answer : PublicWorker)
    → p.role ≡ "worker"
    → worker_with p.identity w.db ≡ some row
    → p.credential_epoch ≡ some row.credential_epoch
    → revoke env p.identity w ≡ (ok answer, w')
    → authorize env p w' ≡ (err (problem "worker_revoked_or_rotated" 403), w')
revoke-authorize env p row w w' answer worker found own run =
    authorize-past env p row.credential_epoch w' worker own
      (Ensures-ok (revoke env p.identity) (revoke-IsPast env p.identity row) w found answer w' run)
