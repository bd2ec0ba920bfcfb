-- ===== src/Execution/Outcomes.antt =====
-- The outcome that `finish` of control_plane/execution.py accepts, and the attempt that it is
-- recorded with.
use mathlib.Core.Option.{some-injective}
use pepeuchiacluster.Prelude.{
  ◌≡◌, refl, sym, ap, ◌∙◌, subst, Bool, true, false, ◌&&◌, ltb, String, same, same_iff, List, [],
  ◌∷◌, Option, none, some, arith, find, find_holds, update_where, if◌then◌else◌,
}
use pepeuchiacluster.Contracts.{ok}
use pepeuchiacluster.Contracts.Lifecycle.{State, is_active, Principal}
use pepeuchiacluster.Contracts.Outcomes.{ExecutionResult}
use pepeuchiacluster.Storage.Rows.{AttemptRow, MissionRow, TaskRow}
use pepeuchiacluster.Storage.Database.{
  Db, apply, epoch_of, task_with, mission_with, finish_attempt, set_task_state,
}
use pepeuchiacluster.Storage.Actions.{World, Env, exec, or_raise, pure, now, guard}
use pepeuchiacluster.Storage.Actions.Keeps.{Keeps, Keeps-exec, keeps_rules}
use pepeuchiacluster.Storage.Actions.Ensures.{
  Ensures, Ensures-bind, Ensures-at, Ensures-exec, Ensures-test, Ensures-keep, Ensures-then,
  Ensures-found, Ensures-ok, Ensures-weaken,
}
use pepeuchiacluster.Service.Operate.{transition}
use pepeuchiacluster.Registry.{authorize}
use pepeuchiacluster.Handlers.Reads.{authorize-Keeps, check_cancellation-Keeps}
use pepeuchiacluster.Handlers.Writes.{settle_outputs-Keeps}
use pepeuchiacluster.Handlers.Beside.{shared-beside, transition-beside}
use pepeuchiacluster.Execution.Readings.{InTime, finish_once-InTime}
use pepeuchiacluster.Execution.Claim.{own_attempt, same_epoch}
use pepeuchiacluster.Execution.Finish.{
  Acknowledgement, check_cancellation, settle_outputs, conclude, accept, decide, finish_once,
}

-- the outcome is recorded for the first time, with the attempt
pub record Registered (k worker digest : String) (a : AttemptRow) (db : Db) : Type 0 where
  pub unsettled : a.result_sha256 ≡ none
  pub active : is_active a.state ≡ true
  pub recorded :
      (b : AttemptRow) × (own_attempt k worker db ≡ some b) × (b.result_sha256 ≡ some digest)

-- the same outcome was recorded before
pub record Repeated (digest : String) (a : AttemptRow) (db0 db : Db) : Type 0 where
  pub settled : a.result_sha256 ≡ some digest
  pub kept : db ≡ db0

abbrev pub Outcome : String → String → String → AttemptRow → Db → Acknowledgement → Db → Type 0
Outcome k worker digest a db0 answer db =
    (if answer.duplicate then Repeated digest a db0 db else Registered k worker digest a db)

pub record Matched (p : Principal) (k digest : String) (r : ExecutionResult) (db0 : Db)
    (answer : Acknowledgement) (db : Db) : Type 0 where
  pub attempt : AttemptRow
  pub own : own_attempt k p.identity db0 ≡ some attempt
  pub generation : attempt.generation ≡ r.generation
  pub epoch : same_epoch (epoch_of k db0) p.credential_epoch ≡ true
  pub outcome : Outcome k p.identity digest attempt db0 answer db

-- if not repeated, in time
abbrev pub Timely : Env → AttemptRow → Bool → World → Type 0
Timely env a repeated w' = (if repeated then Unit else InTime env a w')

-- the tables of an accepted result, and the clock at its end
pub record Accepted (env : Env) (p : Principal) (k digest : String) (r : ExecutionResult) (db0 : Db)
    (answer : Acknowledgement) (w' : World) : Type 0 where
  pub matched : Matched p k digest r db0 answer w'.db
  pub in_time : Timely env matched.attempt answer.duplicate w'

task-attempts :
    (k : String) (s : State) (db db' : Db)
    → apply (set_task_state k s) db ≡ some db'
    → db'.attempts ≡ db.attempts
unfolding apply
task-attempts k s db db' e = ground arith

-- the attempt that an end is recorded for, where the search is by identity and worker
settled_row :
    (k worker : String) (f : AttemptRow → AttemptRow)
    → ((a : AttemptRow) → ((f a).id ≡ a.id) × ((f a).worker_id ≡ a.worker_id))
    → (xs : List AttemptRow) (a : AttemptRow)
    → find (λ x. same x.id k && same x.worker_id worker) xs ≡ some a
    → find (λ x. same x.id k && same x.worker_id worker) (update_where (λ x. same x.id k) f xs)
      ≡ some (f a)
settled_row k worker f keep [] a e = ground arith
settled_row k worker f keep (x ∷ xs) a e =
    let (same_id, same_worker) = keep x in ground (arith, settled_row k worker f keep xs a)

and_left : (b c : Bool) → (b && c) ≡ true → b ≡ true
and_left b c e = ground arith

module _ (env : Env) (p : Principal) (db0 : Db) where
  module _ (P : List AttemptRow → Type 0) where
    task-Keeps : (k : String) (s : State) → Keeps (λ db. P db.attempts) (exec (set_task_state k s))
    task-Keeps k s =
        Keeps-exec (set_task_state k s) λ db db' e h. subst P (sym (task-attempts k s db db' e)) h

  module _ (k digest : String) (r : ExecutionResult) (a : AttemptRow)
      (own : own_attempt k p.identity db0 ≡ some a) where
    own_id : a.id ≡ k
    own_id =
        let hit = find_holds (λ x. same x.id k && same x.worker_id p.identity) db0.attempts a own in
        (same_iff a.id k).0 (and_left (same a.id k) (same a.worker_id p.identity) hit)

    finish_attempt-records :
        (s : State) (error : Option String) (db db' : Db)
        → apply (finish_attempt a.id s digest error) db ≡ some db'
        → db.attempts ≡ db0.attempts
        → (b : AttemptRow) × (own_attempt k p.identity db' ≡ some b)
          × (b.result_sha256 ≡ some digest)
    unfolding apply
    finish_attempt-records s error db db' e h =
        let end : AttemptRow → AttemptRow =
          λ x. record x { state = s; result_sha256 = some digest; error_code = error } in
        let here = subst (λ i. apply (finish_attempt i s digest error) db ≡ some db') own_id e in
        let found : own_attempt k p.identity db ≡ some a = rw h own in
        subst
          (λ x.
            (b : AttemptRow) × (own_attempt k p.identity x ≡ some b)
            × (b.result_sha256 ≡ some digest))
          (some-injective _ _ here)
          (end a, settled_row k p.identity end (λ x. (refl, refl)) db.attempts a found, refl)

    abbrev RecordedRows : List AttemptRow → Type 0
    RecordedRows rows =
        (b : AttemptRow) × (find (λ x. same x.id k && same x.worker_id p.identity) rows ≡ some b)
        × (b.result_sha256 ≡ some digest)

    conclude-Fresh :
        (m : MissionRow)
        → a.result_sha256 ≡ none
        → is_active a.state ≡ true
        → Ensures
            (λ db. db.attempts ≡ db0.attempts)
            (conclude env p m a r digest)
            (Outcome k p.identity digest a db0)
    unfolding conclude pure
    conclude-Fresh m unsettled active = Ensures-keep (now env) _ (search keeps_rules) λ t.
        Ensures-keep (guard (ltb t a.deadline) _ _) _ (search keeps_rules) λ _.
          Ensures-bind (exec (finish_attempt a.id r.status digest r.error_code)) _
            (Ensures-exec {Q = λ db. RecordedRows db.attempts}
              (finish_attempt a.id r.status digest r.error_code)
              λ db db' e h. finish_attempt-records r.status r.error_code db db' e h)
            λ _.
              Ensures-keep (exec (set_task_state a.task_id r.status)) _
                (task-Keeps RecordedRows a.task_id r.status)
                λ _.
                  Ensures-keep (transition env p m r.status none) _
                    (transition-beside (λ xs _. RecordedRows xs) env p m r.status none)
                    λ _. record {
                      at = λ w h. record { unsettled = unsettled; active = active; recorded = h };
                    }

    abbrev Rows : List AttemptRow → Type 0
    Rows rows = rows ≡ db0.attempts

    -- the part after the checks of the attempt, with no result recorded
    accept-Fresh :
        (t : TaskRow)
        → a.result_sha256 ≡ none
        → Ensures (λ db. db ≡ db0) (accept env p a t r digest) (Outcome k p.identity digest a db0)
    unfolding accept
    accept-Fresh t unsettled = Ensures-at (mission_with t.mission_id) _ (
        Ensures-keep (or_raise _ "operation_failed" 500) _ (search keeps_rules) λ m.
          Ensures-test (is_active a.state) _ _ _ λ active.
            Ensures-keep (check_cancellation env m.state r) _
              (check_cancellation-Keeps env m.state r)
              λ _.
                Ensures-weaken _ (λ db h. ap (λ x. x.attempts) h)
                  (Ensures-keep (settle_outputs env p m a t.capability r) _
                    (settle_outputs-Keeps (shared-beside λ xs _. Rows xs) env p m a t.capability r)
                    λ _. conclude-Fresh m unsettled active))

    decide-Outcome :
        (old : Option String) (t : TaskRow)
        → a.result_sha256 ≡ old
        → Ensures
            (λ db. db ≡ db0)
            (decide env old p a t r digest)
            (Outcome k p.identity digest a db0)
    unfolding pure
    decide-Outcome none t e = accept-Fresh t e
    decide-Outcome (some old) t e = Ensures-test (same old digest) "result_conflict" 409 _ λ hit.
        record {
          at = λ w h. record { settled = e ∙ ap some ((same_iff old digest).0 hit); kept = h };
        }

module _ (env : Env) (p : Principal) (k digest : String) (r : ExecutionResult) (db0 : Db) where
  finish_once-Matched :
      Ensures (λ db. db ≡ db0) (finish_once env p k r digest) (Matched p k digest r db0)
  unfolding finish_once
  finish_once-Matched = Ensures-keep (authorize env p) _ (authorize-Keeps env p) λ _.
      Ensures-at (own_attempt k p.identity) _ (
        Ensures-found (own_attempt k p.identity db0) _ _ _ λ a own.
          Ensures-at (task_with a.task_id) _ (
            Ensures-keep (or_raise _ "not_found" 404) _ (search keeps_rules) λ t.
              Ensures-test (same a.generation r.generation) _ _ _ λ generation.
                Ensures-at (epoch_of k) _ (
                  Ensures-test (same_epoch (epoch_of k db0) p.credential_epoch) _ _ _ λ epoch.
                    Ensures-then (decide env a.result_sha256 p a t r digest)
                      (decide-Outcome env p db0 k digest r a own a.result_sha256 t refl)
                      λ answer db outcome. record {
                        attempt = a;
                        own = own;
                        generation = (same_iff a.generation r.generation).0 generation;
                        epoch = epoch;
                        outcome = outcome;
                      })))

-- A result that `finish` accepts, in its transaction, is one of the worker's own attempt, of the
-- generation of its lease, and of the worker's epoch at the lease. If it is no duplicate, no result
-- was recorded, the attempt was active, and the digest of the result is recorded with the attempt
-- afterwards; the transaction's last reading of the clock but one (the last is the ledger's) was before
-- the attempt's deadline. If it is a duplicate, the recorded digest is the same, and nothing changes.
pub finish_once-accepts :
    (env : Env) (p : Principal) (k digest : String) (r : ExecutionResult) (w w' : World)
    (answer : Acknowledgement)
    → finish_once env p k r digest w ≡ (ok answer, w')
    → Accepted env p k digest r w.db answer w'
finish_once-accepts env p k digest r w w' answer run =
    let found =
      Ensures-ok (finish_once env p k r digest) (finish_once-Matched env p k digest r w.db) w refl
        answer w' run in
    record { matched = found; in_time = timed found answer.duplicate refl }
  where
    timed :
        (m : Matched p k digest r w.db answer w'.db) (b : Bool)
        → answer.duplicate ≡ b
        → Timely env m.attempt b w'
    timed m true e = tt
    timed m false e = finish_once-InTime env p k digest r w w' answer m.attempt run m.own e
