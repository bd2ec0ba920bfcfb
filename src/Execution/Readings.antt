-- ===== src/Execution/Readings.antt =====
-- The readings of the clock in `finish` of control_plane/execution.py: the deadline is compared with
-- the last one but one, and the last one is that of the ledger.
use pepeuchiacluster.Prelude.{
  ℕ, ◌+◌, ◌≡◌, refl, sym, ap, ◌∙◌, subst, true, false, ltb, String, Option, none, some, arith,
}
use mathlib.Core.Option.{some-injective}
use pepeuchiacluster.Contracts.{ok}
use pepeuchiacluster.Contracts.Lifecycle.{State, Principal}
use pepeuchiacluster.Contracts.Outcomes.{ExecutionResult}
use pepeuchiacluster.Storage.Rows.{AttemptRow, MissionRow, TaskRow, Details}
use pepeuchiacluster.Storage.Actions.{World, Env, ◌>>=◌, pure, query, now, new_id}
use pepeuchiacluster.Storage.Actions.Ensures.{Ensures-ok, Keeps-Ensures}
use pepeuchiacluster.Storage.Actions.Runs.{
  run-bind, run-or_raise, run-guard, run-exec, run-or_raise_last, run-exec_last,
}
use pepeuchiacluster.Service.Operate.{audit, transition}
use pepeuchiacluster.Registry.{authorize}
use pepeuchiacluster.Handlers.Reads.{authorize-Keeps}
use pepeuchiacluster.Execution.Claim.{own_attempt}
use pepeuchiacluster.Execution.Finish.{
  Acknowledgement, check_cancellation, settle_outputs, conclude, accept, decide, finish_once,
}

-- the deadline was after the reading of the clock before the last
abbrev pub InTime : Env → AttemptRow → World → Type 0
InTime env a w' = (n : ℕ) × (n + 2 ≡ w'.readings) × (ltb (env.clock n) a.deadline ≡ true)

module _ (env : Env) (p : Principal) where
  audit-readings :
      (k : String) (m : Option String) (t : String) (d : Details) (w w' : World) (u : Unit {0})
      → audit env p k m t d w ≡ (ok u, w')
      → w'.readings ≡ w.readings + 1
  unfolding audit new_id now ◌>>=◌
  audit-readings k m t d w w' u e =
      let (_, e1) = run-guard _ _ _ _ w u w' e in run-exec_last _ _ u w' e1

  transition-readings :
      (m : MissionRow) (target : State) (reason : Option String) (w w' : World) (m' : MissionRow)
      → transition env p m target reason w ≡ (ok m', w')
      → w'.readings ≡ w.readings + 1
  unfolding transition query ◌>>=◌
  transition-readings m target reason w w' m' e =
      let (_, e1) = run-guard _ _ _ _ w m' w' e in
      let (w1, same1, e2) = run-exec _ _ w m' w' e1 in
      let (u, w2, audited, e3) = run-bind (audit env p _ _ _ _) _ w1 m' w' e2 in
      let more = audit-readings _ _ _ _ w1 w2 u audited in
      let same_end = ap (λ x. x.readings) (run-or_raise_last _ _ _ w2 m' w' e3) in omega arith

  conclude-InTime :
      (m : MissionRow) (a : AttemptRow) (r : ExecutionResult) (digest : String) (w w' : World)
      (answer : Acknowledgement)
      → conclude env p m a r digest w ≡ (ok answer, w')
      → InTime env a w'
  unfolding conclude now pure ◌>>=◌
  conclude-InTime m a r digest w w' answer e =
      let w1 : World = record w { readings = w.readings + 1 } in
      let (early, e1) = run-guard _ _ _ _ w1 answer w' e in
      let (w2, same2, e2) = run-exec _ _ w1 answer w' e1 in
      let (w3, same3, e3) = run-exec _ _ w2 answer w' e2 in
      let (last, w4, moved, e4) = run-bind (transition env p m r.status none) _ w3 answer w' e3 in
      let more = transition-readings m r.status none w3 w4 last moved in
      let same_end : w4.readings ≡ w'.readings = ap (λ x. x.1.readings) e4 in
      (w.readings, omega arith, early)

  accept-InTime :
      (a : AttemptRow) (t : TaskRow) (r : ExecutionResult) (digest : String) (w w' : World)
      (answer : Acknowledgement)
      → accept env p a t r digest w ≡ (ok answer, w')
      → InTime env a w'
  unfolding accept query ◌>>=◌
  accept-InTime a t r digest w w' answer e =
      let (m, found, e1) = run-or_raise _ _ _ _ w answer w' e in
      let (active, e2) = run-guard _ _ _ _ w answer w' e1 in
      let (u, w1, ran, e3) = run-bind (check_cancellation env m.state r) _ w answer w' e2 in
      let (v, w2, settled, e4) =
        run-bind (settle_outputs env p m a t.capability r) _ w1 answer w' e3 in
      conclude-InTime m a r digest w2 w' answer e4

  decide-InTime :
      (old : Option String) (a : AttemptRow) (t : TaskRow) (r : ExecutionResult) (digest : String)
      (w w' : World) (answer : Acknowledgement)
      → decide env old p a t r digest w ≡ (ok answer, w')
      → answer.duplicate ≡ false
      → InTime env a w'
  unfolding pure
  decide-InTime none a t r digest w w' answer e new = accept-InTime a t r digest w w' answer e
  decide-InTime (some old) a t r digest w w' answer e new =
      let (_, e1) = run-guard _ _ _ _ w answer w' e in cc

  -- a result that is no duplicate is accepted before the deadline of the attempt
  pub finish_once-InTime :
      (k digest : String) (r : ExecutionResult) (w w' : World) (answer : Acknowledgement)
      (a : AttemptRow)
      → finish_once env p k r digest w ≡ (ok answer, w')
      → own_attempt k p.identity w.db ≡ some a
      → answer.duplicate ≡ false
      → InTime env a w'
  unfolding finish_once query ◌>>=◌
  finish_once-InTime k digest r w w' answer a e own new =
      let (row, w1, authorized, e1) = run-bind (authorize env p) _ w answer w' e in
      let (b, found, e2) = run-or_raise _ _ _ _ w1 answer w' e1 in
      let (t, task, e3) = run-or_raise _ _ _ _ w1 answer w' e2 in
      let (fits, e4) = run-guard _ _ _ _ w1 answer w' e3 in
      let (current, e5) = run-guard _ _ _ _ w1 answer w' e4 in
      let here = decide-InTime b.result_sha256 b t r digest w1 w' answer e5 new in
      let kept =
        Ensures-ok (authorize env p) (Keeps-Ensures {P = λ db. db ≡ w.db} _ (authorize-Keeps env p))
          w refl row w1 authorized in
      let same_row = sym found ∙ ap (own_attempt k p.identity) kept ∙ own in
      subst (λ x. InTime env x w') (some-injective _ _ same_row) here
