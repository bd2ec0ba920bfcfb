-- ===== src/Service/Idempotence.antt =====
-- The recorded operations of control_plane/service.py (`_operate`), when a request is repeated.
use pepeuchiacluster.Prelude.{
  ◌≡◌, refl, sym, ◌∙◌, Bool, true, false, ◌&&◌, String, same, same_refl, same_iff, [], ◌∷◌, ◌++◌,
  Option, none, some, arith, find, find-append_none, find-append_some, ℕ, List,
}
use pepeuchiacluster.Contracts.{Result, ok, err, problem}
use pepeuchiacluster.Contracts.Texts.{operation_id}
use pepeuchiacluster.Contracts.Values.{Value}
use pepeuchiacluster.Contracts.Lifecycle.{Principal}
use pepeuchiacluster.Storage.Responses.{Response}
use pepeuchiacluster.Storage.Database.{Db, OperationRow, operation_with, insert_operation, apply}
use pepeuchiacluster.Storage.Actions.{World, Env, Action, ◌>>=◌, pure, query, exec, guard, lift}
use pepeuchiacluster.Storage.Actions.Ensures.{
  Ensures, Ensures-bind, Ensures-exec, Ensures-return, Ensures-any, Ensures-ok, Ensures-guard,
  Ensures-weaken,
}
use pepeuchiacluster.Storage.Actions.Committed.{committed_run, committed_back}
use pepeuchiacluster.Service.Operate.{
  actor_of, perform, replay, settle, operate_once, operate, request_hash,
}
use pepeuchiacluster.Registry.{require_role}
use pepeuchiacluster.Execution.Decide.{Coordinator}
use pepeuchiacluster.Api.{Call, serve}
use pepeuchiacluster.Lifecycle.History.{serve-Remembers}

-- The tables hold the operation, with the digest of its request and its response.
pub record Recorded (actor operation hash : String) (r : Response) (db : Db) : Type 0 where
  pub row : OperationRow
  pub found : operation_with actor operation db ≡ some row
  pub hashed : row.request_sha256 ≡ hash
  pub answered : row.response ≡ r

inserted :
    (row : OperationRow) (db db' : Db)
    → apply (insert_operation row) db ≡ some db'
    → (operation_with row.actor row.id db ≡ none) × (db'.operations ≡ db.operations ++ row ∷ [])
unfolding apply operation_with
inserted row db db' e = ground arith

found_last :
    (row : OperationRow)
    → find (λ r. same r.actor row.actor && same r.id row.id) (row ∷ []) ≡ some row
found_last row = rw (same_refl row.actor) (rw (same_refl row.id) refl)

Recorded-insert :
    (row : OperationRow) (db db' : Db)
    → apply (insert_operation row) db ≡ some db'
    → Recorded row.actor row.id row.request_sha256 row.response db'
unfolding operation_with
Recorded-insert row db db' e =
    let (fresh, rows) = inserted row db db' e in
    record {
      row = row;
      found = rw rows (find-append_none _ db.operations (row ∷ []) fresh ∙ found_last row);
      hashed = refl;
      answered = refl;
    }

module _ (env : Env) (actor operation hash : String) where
  perform-Recorded :
      (effect : Action Response)
      → Ensures
          (λ _. Unit {0})
          (perform env actor operation hash effect)
          (Recorded actor operation hash)
  perform-Recorded effect = Ensures-bind effect _ (Ensures-any effect) λ r.
      Ensures-bind (exec (insert_operation _)) _
        (Ensures-exec (insert_operation _) λ db db' e _. Recorded-insert _ db db' e)
        λ _. Ensures-return r

  replay-Recorded :
      (row : OperationRow)
      → Ensures
          (λ db. operation_with actor operation db ≡ some row)
          (replay env hash row)
          (Recorded actor operation hash)
  unfolding pure
  replay-Recorded row =
      Ensures-bind (guard (same row.request_sha256 hash) "operation_conflict" 409) _
        (Ensures-guard (same row.request_sha256 hash) "operation_conflict" 409)
        λ _. record {
          at = λ w h. record {
            row = row;
            found = h.0;
            hashed = (same_iff row.request_sha256 hash).0 h.1;
            answered = refl;
          };
        }

  settle-Recorded :
      (effect : Action Response) (old : Option OperationRow)
      → Ensures
          (λ db. operation_with actor operation db ≡ old)
          (settle env old actor operation hash effect)
          (Recorded actor operation hash)
  settle-Recorded effect none =
      Ensures-weaken (perform env actor operation hash effect) (λ db h. tt)
        (perform-Recorded effect)
  settle-Recorded effect (some row) = replay-Recorded row

  -- the rest of `_operate` on an operation that is recorded
  settle-again :
      (effect : Action Response) (r : Response) (w : World)
      → Recorded actor operation hash r w.db
      → settle env (operation_with actor operation w.db) actor operation hash effect w ≡ (ok r, w)
  unfolding guard pure ◌>>=◌
  settle-again effect r w rec =
      rw rec.found (rw rec.hashed (rw (same_refl hash) (rw rec.answered refl)))

  settle-conflict :
      (effect : Action Response) (r : Response) (other : String) (w : World)
      → Recorded actor operation other r w.db
      → same other hash ≡ false
      → settle env (operation_with actor operation w.db) actor operation hash effect w
        ≡ (err (problem "operation_conflict" 409), w)
  unfolding guard pure ◌>>=◌
  settle-conflict effect r other w rec differ = rw rec.found (rw rec.hashed (rw differ refl))

-- The steps of `_operate` before its transaction, committed, of a run that has succeeded.
opened :
    (b : Bool) (c : String) (s : ℕ) (q : Result String) (t : String → Action Response) (w : World)
    (r : Response) (w' : World)
    → (guard b c s >>= λ _. lift q >>= t) w ≡ (ok r, w')
    → (b ≡ true) × ((k : String) × (q ≡ ok k) × (t k w ≡ (ok r, w')))
unfolding guard lift ◌>>=◌
opened true c s (ok k) t w r w' e = (refl, (k, refl, e))
opened true c s (err p) t w r w' e = ground arith
opened false c s q t w r w' e = ground arith

-- and of one that starts alike
reopened :
    (b : Bool) (c : String) (s : ℕ) (q : Result String) (t : String → Action Response) (w : World)
    (k : String)
    → b ≡ true
    → q ≡ ok k
    → (guard b c s >>= λ _. lift q >>= t) w ≡ t k w
unfolding guard lift ◌>>=◌
reopened b c s q t w k eb eq = rw eb (rw eq refl)

-- `operate_once` for a principal that is not a worker
operate_once-settle :
    (env : Env) (p : Principal) (role k hash : String) (effect : Action Response) (w : World)
    → same role "worker" ≡ false
    → operate_once env p role k hash effect w
      ≡ settle env (operation_with p.identity k w.db) p.identity k hash effect w
unfolding operate_once actor_of query pure ◌>>=◌
operate_once-settle env p role k hash effect w owner = rw owner refl

module _ (env : Env) (p : Principal) (operation : Value) (action : String) (payload : Value)
    (role : String) (owner : same role "worker" ≡ false) where
  operate-once :
      (effect : Action Response) (w w' : World) (r : Response)
      → operate env p operation action payload effect role w ≡ (ok r, w')
      → (same p.role role ≡ true)
        × ((k : String) × (operation_id env.is_uuid operation ≡ ok k)
            × Recorded p.identity k (request_hash env action payload) r w'.db)
  unfolding operate require_role request_hash
  operate-once effect w w' r e =
      let (allowed, (k, is_id, run)) = opened (same p.role role) _ _ _ _ w r w' e in
      let hash = request_hash env action payload in
      let settled =
        sym (operate_once-settle env p role k hash effect w owner)
        ∙ committed_run (operate_once env p role k hash effect) w r w' run in
      let recorded =
        Ensures-ok _
          (settle-Recorded env p.identity k hash effect (operation_with p.identity k w.db)) w refl r
          w' settled in
      (allowed, (k, is_id, recorded))

-- a recorded operation stays recorded, whatever is served
serve-Recorded :
    (env : Env) (c : Coordinator) (calls : List Call) (actor operation hash : String) (r : Response)
    (w : World)
    → Recorded actor operation hash r w.db
    → Recorded actor operation hash r (serve env c calls w).db
unfolding operation_with
serve-Recorded env c calls actor operation hash r w rec =
    let (more, rows) = (serve-Remembers env c calls w).operations in
    record {
      row = rec.row;
      found = rw rows (find-append_some _ w.db.operations more rec.row rec.found);
      hashed = rec.hashed;
      answered = rec.answered;
    }

-- What `_operate` has answered, for another role than the worker's, it answers again when it is called
-- with the same operation identity, action and payload after any sequence of calls, and it changes
-- nothing then, whatever its effect would be. (`cancel` and `retry` run `expire` before they call it.)
pub operate-twice :
    (env : Env) (p : Principal) (operation : Value) (action : String) (payload : Value)
    (role : String)
    → same role "worker" ≡ false
    → (effect again : Action Response) (w w' : World) (r : Response)
    → operate env p operation action payload effect role w ≡ (ok r, w')
    → (c : Coordinator) (calls : List Call)
    → operate env p operation action payload again role (serve env c calls w')
      ≡ (ok r, serve env c calls w')
unfolding operate require_role request_hash
operate-twice env p operation action payload role owner effect again w w' r e c calls =
    let (allowed, (k, is_id, rec)) =
      operate-once env p operation action payload role owner effect w w' r e in
    let hash = request_hash env action payload in
    let later = serve env c calls w' in
    let still = serve-Recorded env c calls p.identity k hash r w' rec in
    reopened (same p.role role) _ _ (operation_id env.is_uuid operation) _ later k allowed is_id
    ∙ committed_back (operate_once env p role k hash again) later (ok r) (
        operate_once-settle env p role k hash again later owner
        ∙ settle-again env p.identity k hash again r later still)

-- Where `_operate` has answered, for another role than the worker's, the same principal's call of it
-- with the same operation identity, but with an action and a payload of another digest, is refused as
-- a conflict after any sequence of calls, and changes nothing. (`cancel` and `retry` run `expire`
-- before they call it.)
pub operate-conflict :
    (env : Env) (p : Principal) (operation : Value) (action other : String)
    (payload changed : Value) (role : String)
    → same role "worker" ≡ false
    → same (request_hash env action payload) (request_hash env other changed) ≡ false
    → (effect again : Action Response) (w w' : World) (r : Response)
    → operate env p operation action payload effect role w ≡ (ok r, w')
    → (c : Coordinator) (calls : List Call)
    → operate env p operation other changed again role (serve env c calls w')
      ≡ (err (problem "operation_conflict" 409), serve env c calls w')
unfolding operate require_role request_hash
operate-conflict env p operation action other payload changed role owner differ effect again w w' r
      e c calls =
    let (allowed, (k, is_id, rec)) =
      operate-once env p operation action payload role owner effect w w' r e in
    let hash = request_hash env other changed in
    let before = request_hash env action payload in
    let later = serve env c calls w' in
    let still = serve-Recorded env c calls p.identity k before r w' rec in
    reopened (same p.role role) _ _ (operation_id env.is_uuid operation) _ later k allowed is_id
    ∙ committed_back (operate_once env p role k hash again) later
        (err (problem "operation_conflict" 409))
        (operate_once-settle env p role k hash again later owner
          ∙ settle-conflict env p.identity k hash again r before later still differ)
