-- ===== src/Handlers/Plain.antt =====
-- The handlers in terms of all their statements. The plain statements are all but the
-- insertion of an attempt, and the end of an attempt in a state that is still active.
use pepeuchiacluster.Prelude.{
  ◌&&◌, ap, Bool-cases, inl, inr, ◌≡◌, Bool, true, false, String, List, Option, none, some, arith,
  if◌then◌else◌,
}
use pepeuchiacluster.Contracts.{ok}
use pepeuchiacluster.Contracts.Lifecycle.{
  State, state_eq, state_eq_iff, completed, is_active, Principal,
}
use pepeuchiacluster.Contracts.Outcomes.{ExecutionResult}
use pepeuchiacluster.Storage.Rows.{MissionRow, TaskRow, AttemptRow, WorkerRow, Plan}
use pepeuchiacluster.Storage.Database.{
  Db, Statement, insert_attempt, finish_attempt, insert_worker, set_credential, insert_event,
  insert_file, insert_version, insert_result, insert_operation, revoke_worker,
}
use pepeuchiacluster.Storage.Actions.{World, Env, Action, guard, ◌>>=◌, query, exec}
use pepeuchiacluster.Storage.Actions.Keeps.{Keeps, Keeps-knowing}
use pepeuchiacluster.Service.Operate.{transition}
use pepeuchiacluster.Service.Create.{create_effect}
use pepeuchiacluster.Execution.Fence.{ActiveRow, interrupt, fence_row, fence, revoke_effect}
use pepeuchiacluster.Execution.Decide.{
  Coordinator, queue_task, approve_effect, cancel_mission, cancel_effect, retry_effect,
}
use pepeuchiacluster.Execution.Claim.{has_active, next_task, lease_or_idle, claim_effect}
use pepeuchiacluster.Execution.Finish.{
  is_error_of, settle_outputs, conclude, accept, decide, finish_once,
}
use pepeuchiacluster.Handlers.Reads.{reads_rules}
use pepeuchiacluster.Handlers.Writes.{
  IsShared, audit-Keeps, audit_identity-Keeps, upload_effect-Keeps, settle_outputs-Keeps,
  revoke-Keeps, operate_once-Keeps,
}
use pepeuchiacluster.Handlers.Requests.{EffectsKeep}

abbrev pub IsPlain : Statement → Type 0
IsPlain (insert_attempt r) = ⊥
IsPlain (finish_attempt k s digest error) = is_active s ≡ false
IsPlain _ = Unit

IsShared-IsPlain : (s : Statement) → IsShared s → IsPlain s
IsShared-IsPlain (insert_event r) q = tt
IsShared-IsPlain (insert_file r) q = tt
IsShared-IsPlain (insert_version r) q = tt
IsShared-IsPlain (insert_result r) q = tt
IsShared-IsPlain (insert_operation r) q = tt
IsShared-IsPlain (revoke_worker k stamp) q = tt
IsShared-IsPlain _ q = absurd q

failure_inactive :
    (c : String) (s : State) (e : Option String) → is_error_of c s e ≡ true → is_active s ≡ false
failure_inactive c s e h = ground arith

tested :
    (b empty error : Bool) (m : Action (Unit {0})) (w : World) (u : Unit {0})
    → b ≡ false
    → ((if b then m else guard (empty && error) "invalid_failure_result" 400) w).0 ≡ ok u
    → error ≡ true
unfolding guard
tested b empty error m w u miss e = ground arith

module _ {P : Db → Type 0} (plain : (s : Statement) → IsPlain s → Keeps P (exec s))
    (env : Env) where
  pub shared : (s : Statement) → IsShared s → Keeps P (exec s)
  shared s q = plain s (IsShared-IsPlain s q)

  pub transition-plain :
      (p : Principal) (row : MissionRow) (target : State) (reason : Option String)
      → Keeps P (transition env p row target reason)
  unfolding transition
  transition-plain p row target reason = search (plain, reads_rules, audit-Keeps shared env) depth 9

  interrupt-plain : (reason : String) (row : ActiveRow) → Keeps P (interrupt env reason row)
  unfolding interrupt
  interrupt-plain reason row = search (plain, reads_rules, transition-plain) depth 9

  fence_row-plain :
      (reason : String) (expired_only : Bool) (row : ActiveRow)
      → Keeps P (fence_row env reason expired_only row)
  unfolding fence_row
  fence_row-plain reason false row = interrupt-plain reason row
  fence_row-plain reason true row = search (reads_rules, interrupt-plain)

  pub fence-plain :
      (reason : String) (expired_only : Bool) (k : Option String)
      → Keeps P (fence env reason expired_only k)
  unfolding fence
  fence-plain reason expired_only k = search (reads_rules, fence_row-plain)

  pub revoke_effect-plain : (p : Principal) (k : String) → Keeps P (revoke_effect env p k)
  unfolding revoke_effect
  revoke_effect-plain p k =
      search (plain, reads_rules, fence-plain, revoke-Keeps shared env, audit-Keeps shared env)
        depth 9

  create_effect-plain :
      (p : Principal) (w t o : String) (refs : List String) (c : String)
      → Keeps P (create_effect env p w t o refs c)
  unfolding create_effect
  create_effect-plain p w t o refs c =
      search (plain, reads_rules, audit-Keeps shared env) depth 15 fits 3000

  queue_task-plain :
      (p : Principal) (m : MissionRow) (plan : Plan) → Keeps P (queue_task env p m plan)
  unfolding queue_task
  queue_task-plain p m plan = search (plain, reads_rules, transition-plain) depth 9

  approve_effect-plain :
      (c : Coordinator) (p : Principal) (k : String) → Keeps P (approve_effect env c p k)
  unfolding approve_effect
  approve_effect-plain c p k = search (reads_rules, queue_task-plain) depth 12 fits 3000

  cancel_mission-plain : (p : Principal) (m : MissionRow) → Keeps P (cancel_mission env p m)
  unfolding cancel_mission
  cancel_mission-plain p m = search (plain, reads_rules, transition-plain) depth 9

  cancel_effect-plain : (p : Principal) (k : String) → Keeps P (cancel_effect env p k)
  unfolding cancel_effect
  cancel_effect-plain p k = search (reads_rules, cancel_mission-plain) depth 9

  retry_effect-plain : (p : Principal) (k : String) → Keeps P (retry_effect env p k)
  unfolding retry_effect
  retry_effect-plain p k = search (plain, reads_rules, transition-plain) depth 9

  settled :
      (p : Principal) (m : MissionRow) (a : AttemptRow) (c : String) (r : ExecutionResult)
      (w : World) (u : Unit {0})
      → (settle_outputs env p m a c r w).0 ≡ ok u
      → is_active r.status ≡ false
  unfolding settle_outputs guard
  settled p m a c r w u e = elim (Bool-cases (state_eq r.status completed)) [
    | inl hit ↦ ap is_active ((state_eq_iff r.status completed).0 hit)
    | inr miss ↦
        failure_inactive c r.status r.error_code
          (tested (state_eq r.status completed) _ _ _ w u miss e)
  ]

  conclude-plain :
      (p : Principal) (m : MissionRow) (a : AttemptRow) (r : ExecutionResult) (digest : String)
      → is_active r.status ≡ false
      → Keeps P (conclude env p m a r digest)
  unfolding conclude
  conclude-plain p m a r digest inactive = search (plain, reads_rules, transition-plain) depth 9

  settling :
      (p : Principal) (m : MissionRow) (a : AttemptRow) (c : String) (r : ExecutionResult)
      (digest : String)
      → Keeps P (settle_outputs env p m a c r >>= λ _. conclude env p m a r digest)
  settling p m a c r digest =
      Keeps-knowing (settle_outputs env p m a c r) (λ _. conclude env p m a r digest)
        (settle_outputs-Keeps shared env p m a c r) (settled p m a c r)
        (λ inactive u. conclude-plain p m a r digest inactive)

  accept-plain :
      (p : Principal) (a : AttemptRow) (t : TaskRow) (r : ExecutionResult) (digest : String)
      → Keeps P (accept env p a t r digest)
  unfolding accept
  accept-plain p a t r digest = search (reads_rules, settling) depth 15 fits 3000

  decide-plain :
      (o : Option String) (p : Principal) (a : AttemptRow) (t : TaskRow) (r : ExecutionResult)
      (digest : String)
      → Keeps P (decide env o p a t r digest)
  decide-plain none p a t r digest = accept-plain p a t r digest
  decide-plain (some old) p a t r digest = search reads_rules

  finish_once-plain :
      (p : Principal) (k : String) (r : ExecutionResult) (digest : String)
      → Keeps P (finish_once env p k r digest)
  unfolding finish_once
  finish_once-plain p k r digest = search (reads_rules, decide-plain) depth 15 fits 3000

  -- With the lease of a task, every request.
  pub effects-plain :
      (c : Coordinator)
      → ((p : Principal) (row : WorkerRow)
          → Keeps P (
              query (has_active p.identity) >>= λ busy. query (next_task p.identity) >>= λ found.
              lease_or_idle env p row (if busy then none else found)))
      → EffectsKeep P env c
  unfolding claim_effect
  effects-plain c leasing = record {
    enrolling = λ r. plain (insert_worker r) tt;
    rotating = λ k digest stamp row. plain (set_credential k digest _ stamp) tt;
    auditing = audit_identity-Keeps shared env;
    fencing = fence-plain;
    operating = operate_once-Keeps shared env;
    creating = create_effect-plain;
    uploading = upload_effect-Keeps shared env;
    approving = approve_effect-plain c;
    cancelling = cancel_effect-plain;
    retrying = retry_effect-plain;
    revoking = revoke_effect-plain;
    claiming = λ p. claiming p;
    finishing = finish_once-plain;
  }
    where
      claiming : (p : Principal) → Keeps P (claim_effect env p)
      claiming p = search (reads_rules, fence-plain, leasing) depth 9
