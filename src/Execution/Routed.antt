-- ===== src/Execution/Routed.antt =====
-- The plans that `approve` of control_plane/execution.py accepts: what its test requires of a plan, and
-- of the workers that are listed.
use pepeuchiacluster.Prelude.{
  ◌≡◌, refl, ap, ◌∙◌, Bool, true, ◌&&◌, String, same, same_iff, select, any, map, any-order_by,
  order_by, List, [], ◌∷◌, arith,
}
use pepeuchiacluster.Contracts.Values.{contains}
use pepeuchiacluster.Capabilities.{Spec, demo, cpu_digest, plan_schema, result_name}
use pepeuchiacluster.Storage.Rows.{Plan, WorkerRow, Details}
use pepeuchiacluster.Storage.Database.{Db}
use pepeuchiacluster.Registry.{list, public_worker, created_before}
use pepeuchiacluster.Storage.Responses.{PublicWorker}
use pepeuchiacluster.Execution.Decide.{same_bool, only_result, is_valid_plan}

-- the capability that the recorded contract of a mission requires
abbrev pub contract_capability : List Details → String
contract_capability [] = demo
contract_capability (d ∷ ds) = cpu_digest

-- The plan is the routing of its capability, as the closed specification has it.
pub record Routes (q : Plan) (s : Spec) : Type 0 where
  pub schema : q.schema ≡ plan_schema
  pub role : q.role ≡ s.role
  pub instruction : q.instruction ≡ s.instruction
  pub simulated : q.simulated ≡ s.simulated
  pub outputs : q.outputs ≡ result_name ∷ []

any-map-select :
    (f : WorkerRow → PublicWorker) (q : PublicWorker → Bool) (b : WorkerRow → Bool)
    (xs : List WorkerRow)
    → any q (map f (select b xs)) ≡ any (λ r. b r && q (f r)) xs
any-map-select f q b [] = refl
any-map-select f q b (x ∷ xs) = let rest = any-map-select f q b xs in ground arith

-- the active workers that are listed, as rows
pub any-list :
    (q : PublicWorker → Bool) (db : Db)
    → any q (list true db) ≡ any (λ r. r.active && q (public_worker r)) db.workers
unfolding list
any-list q db =
    any-map-select public_worker q (λ r. r.active) (order_by created_before db.workers)
    ∙ any-order_by (λ r. r.active && q (public_worker r)) created_before db.workers

only_result-eq : (xs : List String) → only_result xs ≡ true → xs ≡ result_name ∷ []
only_result-eq (x ∷ []) e = ap (λ y. y ∷ []) ((same_iff x result_name).0 e)
only_result-eq [] e = cc
only_result-eq (x ∷ y ∷ ys) e = cc

same_bool-eq : (a b : Bool) → same_bool a b ≡ true → a ≡ b
same_bool-eq a b e = ground arith

module _ (q : Plan) (c : String) (s : Spec) (ws : List PublicWorker)
    (valid : is_valid_plan q c s ws ≡ true) where
  pub valid_capability : q.capability ≡ c
  unfolding is_valid_plan
  valid_capability = ground (arith, same_iff q.capability c)

  pub valid-Routes : Routes q s
  unfolding is_valid_plan
  valid-Routes =
      let outputs_ : only_result q.outputs ≡ true = ground arith in
      let simulated_ : same_bool q.simulated s.simulated ≡ true = ground arith in
      record {
        schema = ground (arith, same_iff q.schema plan_schema);
        role = ground (arith, same_iff q.role s.role);
        instruction = ground (arith, same_iff q.instruction s.instruction);
        simulated = same_bool-eq q.simulated s.simulated simulated_;
        outputs = only_result-eq q.outputs outputs_;
      }

  pub valid_worker :
      any (λ w. same w.id q.worker_id && contains q.capability w.capabilities) ws ≡ true
  unfolding is_valid_plan
  valid_worker = ground arith
