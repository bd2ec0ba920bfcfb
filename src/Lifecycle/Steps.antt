-- ===== src/Lifecycle/Steps.antt =====
-- The parts of the handlers under `Evolves`: a statement that leaves the missions alone, an entry in
-- the ledger, and a transition of a row that has just been read.
use pepeuchiacluster.Prelude.{
  ℕ, ◌≡◌, sym, ap, ◌∙◌, subst, String, Option, some, with_key, with_key-key,
}
use pepeuchiacluster.Contracts.Lifecycle.{State, allowed, Principal}
use pepeuchiacluster.Storage.Rows.{MissionRow, Details}
use pepeuchiacluster.Storage.Database.{
  Db, Statement, mission_with, set_mission_state, insert_event, insert_file, insert_version,
  insert_result, insert_operation, revoke_worker,
}
use pepeuchiacluster.Storage.Actions.{Env, Action, ◌>>=◌, exec, query, or_raise}
use pepeuchiacluster.Storage.Actions.Keeps.{Keeps, Keeps-exec, keeps_rules}
use pepeuchiacluster.Storage.Actions.Ensures.{
  Ensures, Ensures-weaken, Ensures-Keeps, Ensures-fetch, Ensures-bind, Ensures-test, Ensures-exec,
  Ensures-weaken, Ensures-query, Ensures-or_raise, Keeps-Ensures, Ensures-Keeps,
}
use pepeuchiacluster.Service.Operate.{audit, transition}
use pepeuchiacluster.Handlers.Writes.{IsShared}
use pepeuchiacluster.Lifecycle.Missions.{
  Evolves, Evolves-quiet, Evolves-move, IsQuiet, missions-apply, mission_key,
}

-- The row is the one that the table holds.
abbrev pub Current : MissionRow → Db → Type 0
Current row db = mission_with row.id db ≡ some row

pub Current-of_read :
    (k : String) (row : MissionRow) (db : Db) → mission_with k db ≡ some row → Current row db
unfolding mission_with
Current-of_read k row db e =
    subst (λ j. with_key mission_key j db.missions ≡ some row)
      (sym (with_key-key mission_key k db.missions row e)) e

IsShared-IsQuiet : (s : Statement) → IsShared s → IsQuiet s
IsShared-IsQuiet (insert_event r) q = tt
IsShared-IsQuiet (insert_file r) q = tt
IsShared-IsQuiet (insert_version r) q = tt
IsShared-IsQuiet (insert_result r) q = tt
IsShared-IsQuiet (insert_operation r) q = tt
IsShared-IsQuiet (revoke_worker k stamp) q = tt
IsShared-IsQuiet _ q = absurd q

module _ (db0 : Db) where
  abbrev pub EvolvesAt : MissionRow → Db → Type 0
  EvolvesAt row db = Evolves db0 db × Current row db

  pub Keeps-quiet : (s : Statement) → IsQuiet s → Keeps (Evolves db0) (exec s)
  Keeps-quiet s q = Keeps-exec s (Evolves-quiet s q)

  pub Keeps-quiet_at :
      (row : MissionRow) (s : Statement) → IsQuiet s → Keeps (EvolvesAt row) (exec s)
  unfolding mission_with
  Keeps-quiet_at row s q = Keeps-exec s λ db db' e h. (
    Evolves-quiet s q db db' e h.0,
    ap (with_key mission_key row.id) (missions-apply s db db' q e) ∙ h.1,
  )

  pub Keeps-shared : (s : Statement) → IsShared s → Keeps (Evolves db0) (exec s)
  Keeps-shared s q = Keeps-quiet s (IsShared-IsQuiet s q)

  pub Keeps-shared_at :
      (row : MissionRow) (s : Statement) → IsShared s → Keeps (EvolvesAt row) (exec s)
  Keeps-shared_at row s q = Keeps-quiet_at row s (IsShared-IsQuiet s q)

  pub audit-Evolves :
      (env : Env) (p : Principal) (w : String) (m : Option String) (t : String) (d : Details)
      → Keeps (Evolves db0) (audit env p w m t d)
  unfolding audit
  audit-Evolves env p w m t d = search (keeps_rules, Keeps-quiet)

  pub audit-EvolvesAt :
      (row : MissionRow) (env : Env) (p : Principal) (w : String) (m : Option String) (t : String)
      (d : Details)
      → Keeps (EvolvesAt row) (audit env p w m t d)
  unfolding audit
  audit-EvolvesAt row env p w m t d = search (keeps_rules, Keeps-quiet_at)

  -- A transition of the current row moves it along `TRANSITIONS`, and answers with the new row.
  pub transition-EvolvesAt :
      (env : Env) (p : Principal) (row : MissionRow) (target : State) (reason : Option String)
      → Ensures (EvolvesAt row) (transition env p row target reason) EvolvesAt
  unfolding transition
  transition-EvolvesAt env p row target reason =
      Ensures-test (allowed row.state target) "invalid_transition" 409 _ λ allow.
        Ensures-bind (exec (set_mission_state row.id target)) _
          (Ensures-exec (set_mission_state row.id target) (Evolves-move row target allow))
          λ _.
            Ensures-bind (audit env p _ _ _ _) _
              (Keeps-Ensures (audit env p _ _ _ _) (audit-Evolves env p _ _ _ _))
              λ _.
                Ensures-fetch (mission_with row.id) "operation_failed" 500
                  λ after db h e. (h, Current-of_read row.id after db e)

-- The rules by which a handler keeps the missions: of the current row `row` it may make a transition.
module _ {db0 : Db} {B : Type 0} where
  pub Moves-done :
      (row : MissionRow) (m : Action B)
      → Keeps (Evolves db0) m
      → Ensures (EvolvesAt db0 row) m (λ _. Evolves db0)
  Moves-done row m k = Ensures-weaken m (λ db h. h.0) (Keeps-Ensures m k)

  pub Moves-transition :
      (env : Env) (p : Principal) (row : MissionRow) (target : State) (reason : Option String)
      (f : MissionRow → Action B)
      → ((after : MissionRow) → Ensures (EvolvesAt db0 after) (f after) (λ _. Evolves db0))
      → Ensures (EvolvesAt db0 row) (transition env p row target reason >>= f) (λ _. Evolves db0)
  Moves-transition env p row target reason f e =
      Ensures-bind (transition env p row target reason) f
        (transition-EvolvesAt db0 env p row target reason) e

  pub Moves-bind :
      {A : Type 0} (row : MissionRow) (m : Action A) (f : A → Action B)
      → Keeps (EvolvesAt db0 row) m
      → ((a : A) → Ensures (EvolvesAt db0 row) (f a) (λ _. Evolves db0))
      → Ensures (EvolvesAt db0 row) (m >>= f) (λ _. Evolves db0)
  Moves-bind row m f k e = Ensures-bind m f (Keeps-Ensures m k) e

  -- the row is read, and there must be one
  pub Moves-query :
      (k : String) (f : Option MissionRow → Action B)
      → ((q : Option MissionRow)
          → Ensures (λ db. Evolves db0 db × (mission_with k db ≡ q)) (f q) (λ _. Evolves db0))
      → Keeps (Evolves db0) (query (mission_with k) >>= f)
  Moves-query k f e =
      Ensures-Keeps (query (mission_with k) >>= f)
        (Ensures-bind (query (mission_with k)) f (Ensures-query (mission_with k)) e)

  pub Moves-found :
      (k : String) (q : Option MissionRow) (c : String) (s : ℕ) (f : MissionRow → Action B)
      → ((row : MissionRow) → Ensures (EvolvesAt db0 row) (f row) (λ _. Evolves db0))
      → Ensures
          (λ db. Evolves db0 db × (mission_with k db ≡ q))
          (or_raise q c s >>= f)
          (λ _. Evolves db0)
  Moves-found k q c s f e = Ensures-bind (or_raise q c s) f (Ensures-or_raise q c s) λ row.
      Ensures-weaken (f row) (λ db h. (h.0.0, Current-of_read k row db (h.0.1 ∙ h.1))) (e row)

pub ruleset moves_rules = (
  tt, keeps_rules, Keeps-quiet, Keeps-quiet_at, audit-Evolves, audit-EvolvesAt, Moves-done,
  Moves-transition, Moves-bind, Moves-query, Moves-found,
)
