-- ===== src/Execution/Approvals.antt =====
-- What `approve` of control_plane/execution.py adds to the tables, whatever the coordinator plans.
use pepeuchiacluster.Prelude.{
  ◌≡◌, refl, sym, ap, ◌∙◌, subst, true, ◌&&◌, String, same, same_iff, find, find_holds, any, List,
  [], ◌∷◌, ◌++◌, Option, none, some, arith,
}
use pepeuchiacluster.Contracts.{ok}
use pepeuchiacluster.Contracts.Values.{contains}
use pepeuchiacluster.Contracts.Texts.{check_identifier}
use pepeuchiacluster.Capabilities.{Spec, spec_of}
use pepeuchiacluster.Storage.Rows.{Plan, TaskRow, MissionRow, EventRow, Details}
use pepeuchiacluster.Storage.Database.{Db, apply, insert_task, insert_event, set_mission_state}
use pepeuchiacluster.Contracts.Lifecycle.{
  State, Principal, state_eq, state_eq_iff, draft, approved, queued,
}
use pepeuchiacluster.Registry.{list, public_worker, require_role}
use pepeuchiacluster.Storage.Responses.{Response}
use pepeuchiacluster.Storage.Actions.{World, Env, exec, new_id, lift, pure, raise}
use pepeuchiacluster.Storage.Actions.Keeps.{Keeps, Keeps-exec, keeps_rules}
use pepeuchiacluster.Storage.Actions.Ensures.{
  Ensures, Ensures-bind, Ensures-at, Ensures-exec, Ensures-test, Ensures-keep, Ensures-ok,
  Ensures-then, Ensures-found, Ensures-fetch, Ensures-given, Ensures-weaken, Keeps-Ensures,
}
use pepeuchiacluster.Service.Operate.{audit, transition}
use pepeuchiacluster.Handlers.Reads.{require_role-Keeps, view_response-Keeps, view-Keeps}
use pepeuchiacluster.Service.Access.{
  owned_mission, view, required_capability, decide_contract, contracts_of,
}
use pepeuchiacluster.Service.Ledger.{is_contract}
use pepeuchiacluster.Execution.Routed.{
  contract_capability, Routes, any-list, valid_capability, valid-Routes, valid_worker,
}
use pepeuchiacluster.Execution.Decide.{
  Coordinator, is_valid_plan, queue_task, view_response, approve_effect,
}

-- The task that an approval of a mission adds, and the plan that it comes from.
pub record Queued (p : Principal) (k : String) (db0 db : Db) : Type 0 where
  pub task : TaskRow
  pub tasks : db.tasks ≡ db0.tasks ++ task ∷ []
  pub mission : MissionRow
  pub owned : find (λ r. same r.id k && same r.owner p.identity) db0.missions ≡ some mission
  pub drafted : mission.state ≡ draft
  pub of_mission : task.mission_id ≡ k
  pub required : task.capability ≡ contract_capability (contracts_of k db0)
  pub spec : Spec
  pub known : spec_of task.capability ≡ some spec
  pub routed : Routes task.plan spec
  pub planned :
      (task.role ≡ task.plan.role)
      × (task.capability ≡ task.plan.capability)
      × (task.worker_id ≡ task.plan.worker_id)
      × (task.state ≡ queued)
  -- a worker of that identity is active and declares the capability
  pub worker :
      any
        (λ r. r.active && (same r.id task.worker_id && contains task.capability r.capabilities))
        db0.workers
      ≡ true

event-tasks :
    (r : EventRow) (db db' : Db) → apply (insert_event r) db ≡ some db' → db'.tasks ≡ db.tasks
unfolding apply
event-tasks r db db' e = ground arith

mission-tasks :
    (k : String) (t : State) (db db' : Db)
    → apply (set_mission_state k t) db ≡ some db'
    → db'.tasks ≡ db.tasks
unfolding apply
mission-tasks k t db db' e = ground arith

insert_task-tasks :
    (r : TaskRow) (db db' : Db)
    → apply (insert_task r) db ≡ some db'
    → db'.tasks ≡ db.tasks ++ r ∷ []
unfolding apply
insert_task-tasks r db db' e = ground arith

module _ (env : Env) (P : List TaskRow → Type 0) where
  event-Keeps : (r : EventRow) → Keeps (λ db. P db.tasks) (exec (insert_event r))
  event-Keeps r = Keeps-exec (insert_event r) λ db db' e h. subst P (sym (event-tasks r db db' e)) h

  mission-Keeps : (k : String) (t : State) → Keeps (λ db. P db.tasks) (exec (set_mission_state k t))
  mission-Keeps k t =
      Keeps-exec (set_mission_state k t) λ db db' e h. subst P (sym (mission-tasks k t db db' e)) h

  transition-Keeps :
      (p : Principal) (m : MissionRow) (target : State) (reason : Option String)
      → Keeps (λ db. P db.tasks) (transition env p m target reason)
  unfolding transition audit
  transition-Keeps p m target reason = search (keeps_rules, mission-Keeps, event-Keeps) depth 12

module _ (db0 : Db) (p : Principal) (k : String) where
  owned_mission-finds :
      Ensures
        (λ db. db ≡ db0)
        (owned_mission p k)
        (λ m db.
          (db ≡ db0) × (find (λ r. same r.id k && same r.owner p.identity) db0.missions ≡ some m))
  unfolding owned_mission
  owned_mission-finds = Ensures-keep (require_role p "admin") _ (require_role-Keeps p "admin") λ _.
      Ensures-keep (lift (check_identifier k)) _ (search keeps_rules) λ _.
        Ensures-fetch _ "not_found" 404 λ m db h e.
          (h, ap (λ x. find (λ r. same r.id k && same r.owner p.identity) x.missions) (sym h) ∙ e)

  decide_contract-requires :
      (ds : List Details)
      → Ensures
          (λ db. db ≡ db0)
          (decide_contract ds)
          (λ c db. (db ≡ db0) × (c ≡ contract_capability ds))
  unfolding decide_contract pure raise
  decide_contract-requires [] = record { at = λ w h. (h, refl) }
  decide_contract-requires (d ∷ []) =
      Ensures-test (is_contract d) _ _ _ λ _. record { at = λ w h. (h, refl) }
  decide_contract-requires (d ∷ e ∷ ds) = record { at = λ w h. tt }

module _ (db0 : Db) (p : Principal) (k : String) (m : MissionRow)
    (owned : find (λ r. same r.id k && same r.owner p.identity) db0.missions ≡ some m) where
  owned_id : m.id ≡ k
  owned_id =
      let hit = find_holds (λ r. same r.id k && same r.owner p.identity) db0.missions m owned in
      ground (arith, same_iff m.id k)

module _ (env : Env) (db0 : Db) (p : Principal) (k : String) (m : MissionRow)
    (owned : find (λ r. same r.id k && same r.owner p.identity) db0.missions ≡ some m)
    (is_draft : state_eq m.state draft ≡ true) where
  queue_task-Queued :
      (q : Plan) (c : String) (spec : Spec)
      → c ≡ contract_capability (contracts_of k db0)
      → spec_of c ≡ some spec
      → is_valid_plan q c spec (list true db0) ≡ true
      → Ensures (λ db. db ≡ db0) (queue_task env p m q) (λ _. Queued p k db0)
  unfolding queue_task public_worker
  queue_task-Queued q c spec required known valid =
      let own = valid_capability q c spec (list true db0) valid in
      Ensures-weaken _ (λ db h. ap (λ x. x.tasks) h)
        (Ensures-keep (transition env p m approved none) _
          (transition-Keeps env (λ ts. ts ≡ db0.tasks) p m approved none)
          λ after. Ensures-keep (new_id env "t") _ (search keeps_rules) λ task.
            let row : TaskRow = record {
              id = task;
              mission_id = m.id;
              role = q.role;
              capability = q.capability;
              worker_id = q.worker_id;
              state = queued;
              plan = q;
            } in
            Ensures-bind (exec (insert_task row)) _
              (Ensures-exec {Q = λ db. db.tasks ≡ db0.tasks ++ row ∷ []} (insert_task row)
                λ db db' e h. insert_task-tasks row db db' e ∙ ap (λ ts. ts ++ row ∷ []) h)
              λ _.
                Ensures-keep (transition env p after queued none) _
                  (transition-Keeps env (λ ts. ts ≡ db0.tasks ++ row ∷ []) p after queued none)
                  λ last.
                    Ensures-then (view_response last)
                      (Keeps-Ensures (view_response last) (view_response-Keeps last))
                      λ answer db h. record {
                        task = row;
                        tasks = h;
                        mission = m;
                        owned = owned;
                        drafted = (state_eq_iff m.state draft).0 is_draft;
                        of_mission = owned_id db0 p k m owned;
                        required = own ∙ required;
                        spec = spec;
                        known = ap spec_of own ∙ known;
                        routed = valid-Routes q c spec (list true db0) valid;
                        planned = (refl, refl, refl, refl);
                        worker = sym (any-list _ db0) ∙ valid_worker q c spec (list true db0) valid;
                      })

module _ (env : Env) (db0 : Db) (p : Principal) (k : String) where
  approve_effect-Queued :
      (coordinator : Coordinator)
      → Ensures (λ db. db ≡ db0) (approve_effect env coordinator p k) (λ _. Queued p k db0)
  unfolding approve_effect required_capability
  approve_effect-Queued coordinator =
      Ensures-bind (owned_mission p k) _ (owned_mission-finds db0 p k) λ m. Ensures-given _ λ owned.
        Ensures-test (state_eq m.state draft) _ _ _ λ is_draft. Ensures-at (list true) _ (
          Ensures-keep (view m) _ (view-Keeps m) λ seen.
            Ensures-keep (lift (coordinator seen (list true db0))) _ (search keeps_rules) λ planned.
              Ensures-bind (required_capability k) _
                (Ensures-at (contracts_of k) _
                  (decide_contract-requires db0 p k (contracts_of k db0)))
                λ capability. Ensures-given _ λ required.
                  Ensures-found (spec_of capability) _ _ _ λ spec known.
                    Ensures-test (is_valid_plan planned capability spec (list true db0)) _ _ _
                      λ valid.
                        queue_task-Queued env db0 p k m owned is_draft planned capability spec
                          required known valid)

-- Whatever a coordinator plans, an approval of a mission that succeeds is of the principal's own draft
-- of that identity, and adds one queued task of that mission after the tasks that there were. Its
-- capability is the one that the mission's recorded contract requires, its plan is the routing of that
-- capability as the closed specification has it, and its worker is active and declares it.
pub approve-queues :
    (env : Env) (coordinator : Coordinator) (p : Principal) (k : String) (w w' : World)
    (answer : Response)
    → approve_effect env coordinator p k w ≡ (ok answer, w')
    → Queued p k w.db w'.db
approve-queues env coordinator p k w w' answer run =
    Ensures-ok (approve_effect env coordinator p k) (approve_effect-Queued env w.db p k coordinator)
      w refl answer w' run
