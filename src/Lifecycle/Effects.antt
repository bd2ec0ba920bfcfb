-- ===== src/Lifecycle/Effects.antt =====
-- The effects of the handlers of control_plane/service.py and control_plane/execution.py, under
-- `Evolves`.
use pepeuchiacluster.Prelude.{
  ◌≡◌, Bool, true, false, String, List, Option, none, some, if◌then◌else◌,
}
use pepeuchiacluster.Contracts.Lifecycle.{Principal}
use pepeuchiacluster.Contracts.Outcomes.{ExecutionResult}
use pepeuchiacluster.Storage.Rows.{MissionRow, Plan, WorkerRow, AttemptRow, TaskRow}
use pepeuchiacluster.Storage.Responses.{request}
use pepeuchiacluster.Storage.Database.{Db, insert_mission}
use pepeuchiacluster.Storage.Actions.{Env, ◌>>=◌, query, exec, pure}
use pepeuchiacluster.Storage.Actions.Keeps.{Keeps, Keeps-exec}
use pepeuchiacluster.Storage.Actions.Ensures.{
  Ensures, Ensures-bind, Ensures-query, Ensures-weaken, Ensures-if, Ensures-Keeps, Ensures-pure,
}
use pepeuchiacluster.Service.Create.{create_effect}
use pepeuchiacluster.Execution.Fence.{ActiveRow, interrupt, fence_row, fence, revoke_effect}
use pepeuchiacluster.Execution.Decide.{
  Coordinator, queue_task, approve_effect, cancel_mission, cancel_effect, retry_effect,
}
use pepeuchiacluster.Execution.Claim.{Candidate, lease, lease_or_idle, next_task, claim_effect}
use pepeuchiacluster.Execution.Finish.{conclude, accept, decide, finish_once}
use pepeuchiacluster.Handlers.Reads.{reads_rules}
use pepeuchiacluster.Handlers.Writes.{settle_outputs-Keeps, revoke-Keeps}
use pepeuchiacluster.Lifecycle.Missions.{Evolves, Evolves-insert}
use pepeuchiacluster.Lifecycle.Steps.{EvolvesAt, Keeps-shared, Keeps-shared_at, moves_rules}
use pepeuchiacluster.Lifecycle.Reads.{Moves-owned, next_task-IsCurrent}

module _ {db0 : Db} (env : Env) where
  interrupt-Evolves :
      (reason : String) (row : ActiveRow) → Keeps (Evolves db0) (interrupt env reason row)
  unfolding interrupt
  interrupt-Evolves reason row = search moves_rules depth 9

  fence_row-Evolves :
      (reason : String) (expired_only : Bool) (row : ActiveRow)
      → Keeps (Evolves db0) (fence_row env reason expired_only row)
  unfolding fence_row
  fence_row-Evolves reason false row = interrupt-Evolves reason row
  fence_row-Evolves reason true row = search (moves_rules, interrupt-Evolves)

  pub fence-Evolves :
      (reason : String) (expired_only : Bool) (worker : Option String)
      → Keeps (Evolves db0) (fence env reason expired_only worker)
  unfolding fence
  fence-Evolves reason expired_only worker = search (moves_rules, fence_row-Evolves)

  pub revoke_effect-Evolves :
      (p : Principal) (k : String) → Keeps (Evolves db0) (revoke_effect env p k)
  unfolding revoke_effect
  revoke_effect-Evolves p k =
      search (moves_rules, fence-Evolves, revoke-Keeps (Keeps-shared db0) env) depth 9

  insert_mission-Evolves : (row : MissionRow) → Keeps (Evolves db0) (exec (insert_mission row))
  insert_mission-Evolves row = Keeps-exec (insert_mission row) (Evolves-insert row)

  pub create_effect-Evolves :
      (p : Principal) (w t o : String) (refs : List String) (c : String)
      → Keeps (Evolves db0) (create_effect env p w t o refs c)
  unfolding create_effect
  create_effect-Evolves p w t o refs c =
      search (moves_rules, reads_rules, insert_mission-Evolves) depth 15 fits 3000

  queue_task-Evolves :
      (p : Principal) (m : MissionRow) (plan : Plan)
      → Ensures (EvolvesAt db0 m) (queue_task env p m plan) (λ _. Evolves db0)
  unfolding queue_task
  queue_task-Evolves p m plan = search (moves_rules, reads_rules) depth 9

  pub approve_effect-Evolves :
      (c : Coordinator) (p : Principal) (k : String)
      → Keeps (Evolves db0) (approve_effect env c p k)
  unfolding approve_effect
  approve_effect-Evolves c p k =
      search (moves_rules, reads_rules, queue_task-Evolves, Moves-owned) depth 12 fits 3000

  cancel_mission-Evolves :
      (p : Principal) (m : MissionRow)
      → Ensures (EvolvesAt db0 m) (cancel_mission env p m) (λ _. Evolves db0)
  unfolding cancel_mission
  cancel_mission-Evolves p m = search (moves_rules, reads_rules) depth 9

  pub cancel_effect-Evolves :
      (p : Principal) (k : String) → Keeps (Evolves db0) (cancel_effect env p k)
  unfolding cancel_effect
  cancel_effect-Evolves p k =
      search (moves_rules, reads_rules, Moves-owned, Ensures-if, cancel_mission-Evolves) depth 9

  pub retry_effect-Evolves :
      (p : Principal) (k : String) → Keeps (Evolves db0) (retry_effect env p k)
  unfolding retry_effect
  retry_effect-Evolves p k = search (moves_rules, reads_rules, Moves-owned) depth 9

  lease-Evolves :
      (p : Principal) (w : WorkerRow) (c : Candidate)
      → Ensures (EvolvesAt db0 c.mission) (lease env p w c) (λ _. Evolves db0)
  unfolding lease
  lease-Evolves p w c = search (moves_rules, reads_rules) depth 25 fits 5000

  accept-Evolves :
      (p : Principal) (a : AttemptRow) (t : TaskRow) (r : ExecutionResult) (digest : String)
      → Keeps (Evolves db0) (accept env p a t r digest)
  unfolding accept conclude
  accept-Evolves p a t r digest =
      search
        (
          moves_rules,
          reads_rules,
          λ (m : MissionRow).
              settle_outputs-Keeps {P = EvolvesAt db0 m} (Keeps-shared_at db0 m) env,
        )
        depth 15 fits 3000

  decide-Evolves :
      (o : Option String) (p : Principal) (a : AttemptRow) (t : TaskRow) (r : ExecutionResult)
      (digest : String)
      → Keeps (Evolves db0) (decide env o p a t r digest)
  decide-Evolves none p a t r digest = accept-Evolves p a t r digest
  decide-Evolves (some old) p a t r digest = search reads_rules

  pub finish_once-Evolves :
      (p : Principal) (k : String) (r : ExecutionResult) (digest : String)
      → Keeps (Evolves db0) (finish_once env p k r digest)
  unfolding finish_once
  finish_once-Evolves p k r digest =
      search (moves_rules, reads_rules, decide-Evolves) depth 15 fits 3000

  idle :
      {S : Db → Type 0}
      → Ensures (λ db. Evolves db0 db × S db) (pure (request none)) (λ _. Evolves db0)
  idle = Ensures-weaken (pure (request none)) (λ db h. h.0) (Ensures-pure (request none))

  lease_or_idle-Evolves :
      (p : Principal) (w : WorkerRow) (busy : Bool) (q : Option Candidate)
      → Ensures
          (λ db. Evolves db0 db × (next_task p.identity db ≡ q))
          (lease_or_idle env p w (if busy then none else q))
          (λ _. Evolves db0)
  lease_or_idle-Evolves p w true q = idle
  lease_or_idle-Evolves p w false none = idle
  lease_or_idle-Evolves p w false (some c) =
      Ensures-weaken (lease env p w c) (λ db h. (h.0, next_task-IsCurrent p.identity c db h.1))
        (lease-Evolves p w c)

  pub claim_effect-Evolves : (p : Principal) → Keeps (Evolves db0) (claim_effect env p)
  unfolding claim_effect
  claim_effect-Evolves p = search (moves_rules, reads_rules, fence-Evolves, leased) depth 9
    where
      leased :
          (row : WorkerRow) (busy : Bool)
          → Keeps (Evolves db0) (
              query (next_task p.identity) >>= λ found.
              lease_or_idle env p row (if busy then none else found))
      leased row busy = Ensures-Keeps _ (
          Ensures-bind (query (next_task p.identity)) _ (Ensures-query (next_task p.identity))
            (lease_or_idle-Evolves p row busy))
