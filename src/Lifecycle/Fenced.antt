-- ===== src/Lifecycle/Fenced.antt =====
-- The attempts that `_fence` of control_plane/execution.py leaves: the loop on the rows that it has
-- read interrupts each of them.
use pepeuchiacluster.Prelude.{
  ◌≡◌, subst, true, false, String, List, [], ◌∷◌, Option, none, some, any, all,
}
use mathlib.Core.Option.{some-injective}
use pepeuchiacluster.Contracts.{ok}
use pepeuchiacluster.Contracts.Lifecycle.{State, Principal}
use pepeuchiacluster.Storage.Rows.{TaskRow, AttemptRow}
use pepeuchiacluster.Storage.Responses.{Response}
use pepeuchiacluster.Storage.Database.{Statement, apply, interrupt_attempt, set_task_state}
use pepeuchiacluster.Storage.Actions.{World, Env, exec, query, each}
use pepeuchiacluster.Storage.Actions.Keeps.{Keeps, Keeps-exec}
use pepeuchiacluster.Storage.Actions.Ensures.{
  Ensures, Ensures-bind, Ensures-query, Ensures-exec, Ensures-then, Ensures-ok, Ensures-transaction,
  Keeps-Ensures, Ensures-any, Ensures-return, Ensures-weaken,
}
use pepeuchiacluster.Registry.{revoke}
use pepeuchiacluster.Execution.Fence.{
  ActiveRow, active_rows, interrupt, fence_row, fence, recover, revoke_effect,
}
use pepeuchiacluster.Execution.Decide.{Coordinator}
use pepeuchiacluster.Api.{Call, serve}
use pepeuchiacluster.Handlers.Reads.{reads_rules}
use pepeuchiacluster.Handlers.Writes.{audit-Keeps}
use pepeuchiacluster.Handlers.Plain.{fence-plain, revoke_effect-plain}
use pepeuchiacluster.Handlers.Beside.{shared-beside, transition-beside}
use pepeuchiacluster.Lifecycle.Covered.{
  is_held, covered, Covers, active_rows-covers, interrupt-covers, task-covers, linked_none,
}
use pepeuchiacluster.Lifecycle.Linked.{IsLinked, IsLinked-apply, serve-IsLinked}

module _ (k : Option String) (rows : List ActiveRow) where
  abbrev CoversTables : List AttemptRow → List TaskRow → Type 0
  CoversTables xs ts = all (covered k rows ts) xs ≡ true

  set_task_state-Covers :
      (j : String) (s : State) → Keeps (Covers k rows) (exec (set_task_state j s))
  unfolding apply
  set_task_state-Covers j s = Keeps-exec (set_task_state j s) λ db db' e h.
      subst (Covers k rows) (some-injective _ _ e) (task-covers k rows j s db.tasks db.attempts h)

module _ (env : Env) (k : Option String) (reason : String) where
  interrupt-Covers :
      (row : ActiveRow) (rows : List ActiveRow)
      → Ensures (Covers k (row ∷ rows)) (interrupt env reason row) (λ _. Covers k rows)
  unfolding interrupt apply
  interrupt-Covers row rows =
      Ensures-bind (exec (interrupt_attempt row.id reason)) _
        (Ensures-exec _ λ db db' e h.
          subst (Covers k rows) (some-injective _ _ e)
            (interrupt-covers k row rows db.tasks reason db.attempts h))
        λ _. Keeps-Ensures _ (
          search
            (set_task_state-Covers k rows, reads_rules, transition-beside (CoversTables k rows) env)
            depth 9)

  rows-Covers :
      (rows : List ActiveRow)
      → Ensures (Covers k rows) (each rows (fence_row env reason false)) (λ _. Covers k [])
  unfolding each fence_row
  rows-Covers [] = Ensures-return tt
  rows-Covers (row ∷ rows) =
      Ensures-bind (interrupt env reason row) _ (interrupt-Covers row rows) λ _. rows-Covers rows

  fence-Covers : Ensures (λ _. Unit {0}) (fence env reason false k) (λ _. Covers k [])
  unfolding fence
  fence-Covers = Ensures-bind (query λ db. active_rows k db.attempts db) _ (Ensures-query _) λ rows.
      Ensures-weaken _
        (λ db h.
          subst (λ x. all (covered k x db.tasks) db.attempts ≡ true) h.1
            (active_rows-covers k db.attempts db))
        (rows-Covers rows)

revoke_effect-Covers :
    (env : Env) (k : String) (p : Principal)
    → Ensures (λ _. Unit {0}) (revoke_effect env p k) (λ _. Covers (some k) [])
unfolding revoke_effect
revoke_effect-Covers env k p =
    Ensures-bind (revoke env k) _ (Ensures-then _ (Ensures-any _) λ _ _ _. tt) λ public.
      Ensures-bind (fence env "worker_revoked" false (some k)) _
        (fence-Covers env (some k) "worker_revoked")
        λ _.
          Keeps-Ensures _ (
            search (reads_rules, audit-Keeps (shared-beside (CoversTables (some k) [])) env) depth
              9)

every-IsLinked : (s : Statement) → Keeps IsLinked (exec s)
every-IsLinked s = Keeps-exec s (IsLinked-apply s)

module _ (env : Env) (c : Coordinator) (calls : List Call) (w : World) where
  -- If the task of each attempt is in the tables, then a restart after any sequence of calls, when it
  -- succeeds, leaves no attempt that is running or waits for its cancellation.
  pub recover-clears :
      IsLinked w.db
      → (u : Unit {0}) (w' : World) → recover env (serve env c calls w) ≡ (ok u, w')
      → any (is_held none) w'.db.attempts ≡ false
  unfolding recover
  recover-clears linked u w' run =
      let before = serve env c calls w in
      let kept = fence-plain (λ s _. every-IsLinked s) env "backend_restart" false none in
      linked_none none w'.db.tasks w'.db.attempts
        (Ensures-ok (recover env) (Ensures-transaction _ (Keeps-Ensures _ kept)) before
          (serve-IsLinked env c calls w linked) u w' run)
        (Ensures-ok (recover env) (Ensures-transaction _ (fence-Covers env none "backend_restart"))
          before tt u w' run)

  -- If the task of each attempt is in the tables, then a revocation of a worker after any sequence of
  -- calls, when it succeeds, leaves the worker no attempt that is running or waits for its
  -- cancellation.
  pub revoke_effect-clears :
      IsLinked w.db
      → (p : Principal) (k : String) (response : Response) (w' : World)
      → revoke_effect env p k (serve env c calls w) ≡ (ok response, w')
      → any (is_held (some k)) w'.db.attempts ≡ false
  revoke_effect-clears linked p k response w' run =
      let before = serve env c calls w in
      let kept = revoke_effect-plain (λ s _. every-IsLinked s) env p k in
      linked_none (some k) w'.db.tasks w'.db.attempts
        (Ensures-ok (revoke_effect env p k) (Keeps-Ensures _ kept) before
          (serve-IsLinked env c calls w linked) response w' run)
        (Ensures-ok (revoke_effect env p k) (revoke_effect-Covers env k p) before tt response w'
          run)
