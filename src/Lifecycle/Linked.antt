-- ===== src/Lifecycle/Linked.antt =====
-- The reference of an attempt to its task, of the schema of control_plane/storage.py.
use pepeuchiacluster.Prelude.{
  ◌≡◌, refl, sym, ap, ◌∙◌, subst, Bool, true, ◌&&◌, String, same, List, [], ◌∷◌, ◌++◌, some,
  is_some, find, any, all, arith, update_where,
}
use mathlib.Core.Option.{some-injective}
use pepeuchiacluster.Contracts.Lifecycle.{State, state_eq, running, interrupted}
use pepeuchiacluster.Storage.Rows.{TaskRow, AttemptRow}
use pepeuchiacluster.Storage.Database.{
  Db, Statement, apply, task_with, insert_task, set_task_state, set_mission_tasks, insert_attempt,
  interrupt_attempt, cancel_attempts, finish_attempt, task_of_mission,
}
use pepeuchiacluster.Storage.Actions.{World, Env}
use pepeuchiacluster.Storage.Actions.Keeps.{Keeps-exec}
use pepeuchiacluster.Execution.Decide.{Coordinator}
use pepeuchiacluster.Api.{Call, serve}
use pepeuchiacluster.Lifecycle.History.{serve-every}

module _ {A : Type 0} (key : A → String) where
  abbrev holds_key : List A → String → Bool
  holds_key xs k = any (λ x. same (key x) k) xs

  find-holds : (k : String) (xs : List A) → is_some (find (λ x. same (key x) k) xs) ≡ holds_key xs k
  find-holds k [] = refl
  find-holds k (x ∷ xs) = let rest = find-holds k xs in ground arith

  holds-update :
      (p : A → Bool) (f : A → A)
      → ((x : A) → key (f x) ≡ key x)
      → (k : String) (xs : List A) → holds_key (update_where p f xs) k ≡ holds_key xs k
  holds-update p f g k [] = refl
  holds-update p f g k (x ∷ xs) =
      let rest = holds-update p f g k xs in let here = g x in ground arith

  holds-append :
      (k : String) (xs : List A) (y : A) → holds_key xs k ≡ true → holds_key (xs ++ y ∷ []) k ≡ true
  holds-append k [] y e = cc
  holds-append k (x ∷ xs) y e = let rest = holds-append k xs y in ground arith

-- each reference is the key of a row
module _ {A B : Type 0} (key : A → String) (ref : B → String) where
  abbrev linked : List A → List B → Bool
  linked xs ys = all (λ y. holds_key key xs (ref y)) ys

  linked-row :
      (xs : List A) (ys : List B) (y : B)
      → linked xs ys ≡ true
      → holds_key key xs (ref y) ≡ true
      → linked xs (ys ++ y ∷ []) ≡ true
  linked-row xs [] y e h = ground arith
  linked-row xs (z ∷ ys) y e h = let rest = linked-row xs ys y in ground arith

  linked-rows :
      (xs xs' : List A)
      → ((k : String) → holds_key key xs k ≡ true → holds_key key xs' k ≡ true)
      → (ys : List B) → linked xs ys ≡ true
      → linked xs' ys ≡ true
  linked-rows xs xs' g [] e = refl
  linked-rows xs xs' g (y ∷ ys) e =
      let rest = linked-rows xs xs' g ys in let here = g (ref y) in ground arith

  linked-update :
      (p : B → Bool) (f : B → B)
      → ((y : B) → ref (f y) ≡ ref y)
      → (xs : List A) (ys : List B) → linked xs ys ≡ true
      → linked xs (update_where p f ys) ≡ true
  linked-update p f g xs [] e = refl
  linked-update p f g xs (y ∷ ys) e =
      let rest = linked-update p f g xs ys in let here = ap (holds_key key xs) (g y) in ground arith

abbrev task_key : TaskRow → String
task_key t = t.id

abbrev task_of : AttemptRow → String
task_of a = a.task_id

abbrev pub has_task : List TaskRow → AttemptRow → Bool
has_task ts a = any (λ t. same t.id a.task_id) ts

-- the task of each attempt is in the tables
abbrev pub IsLinked : Db → Type 0
IsLinked db = all (has_task db.tasks) db.attempts ≡ true

insert_attempt-linked :
    (r : AttemptRow) (db db' : Db)
    → apply (insert_attempt r) db ≡ some db'
    → (is_some (task_with r.task_id db) ≡ true)
      × (db'.attempts ≡ db.attempts ++ r ∷ [])
      × (db'.tasks ≡ db.tasks)
unfolding apply
insert_attempt-linked r db db' e = (ground arith, ground arith, ground arith)

insert_task-linked :
    (r : TaskRow) (db db' : Db)
    → apply (insert_task r) db ≡ some db'
    → (db'.attempts ≡ db.attempts) × (db'.tasks ≡ db.tasks ++ r ∷ [])
unfolding apply
insert_task-linked r db db' e = (ground arith, ground arith)

tasks-update :
    (p : TaskRow → Bool) (s : State) (db : Db)
    → IsLinked db
    → IsLinked (record db { tasks = update_where p (λ t. record t { state = s }) db.tasks })
tasks-update p s db h =
    linked-rows task_key task_of db.tasks _
      (λ k e. holds-update task_key p (λ t. record t { state = s }) (λ t. refl) k db.tasks ∙ e)
      db.attempts h

attempts-update :
    (p : AttemptRow → Bool) (f : AttemptRow → AttemptRow)
    → ((a : AttemptRow) → (f a).task_id ≡ a.task_id)
    → (db : Db) → IsLinked db
    → IsLinked (record db { attempts = update_where p f db.attempts })
attempts-update p f g db h = linked-update task_key task_of p f g db.tasks db.attempts h

IsLinked-tables :
    (db : Db) (rows : List AttemptRow) (ts : List TaskRow)
    → db.attempts ≡ rows
    → db.tasks ≡ ts
    → all (has_task ts) rows ≡ true
    → IsLinked db
IsLinked-tables db rows ts attempts tasks h =
    ap (λ x. all (has_task x) db.attempts) tasks ∙ ap (all (has_task ts)) attempts ∙ h

pub IsLinked-apply :
    (s : Statement) (db db' : Db) → apply s db ≡ some db' → IsLinked db → IsLinked db'
unfolding apply task_with
IsLinked-apply (insert_task r) db db' e h =
    let (attempts, tasks) = insert_task-linked r db db' e in
    IsLinked-tables db' _ _ attempts tasks (
      linked-rows task_key task_of db.tasks (db.tasks ++ r ∷ [])
        (λ k. holds-append task_key k db.tasks r) db.attempts h)
IsLinked-apply (insert_attempt r) db db' e h =
    let (found, attempts, tasks) = insert_attempt-linked r db db' e in
    IsLinked-tables db' _ _ attempts tasks (
      linked-row task_key task_of db.tasks db.attempts r h
        (sym (find-holds task_key r.task_id db.tasks) ∙ found))
IsLinked-apply (set_task_state k s) db db' e h =
    subst IsLinked (some-injective _ _ e) (tasks-update (λ r. same r.id k) s db h)
IsLinked-apply (set_mission_tasks k s) db db' e h =
    subst IsLinked (some-injective _ _ e) (tasks-update (λ r. same r.mission_id k) s db h)
IsLinked-apply (interrupt_attempt k reason) db db' e h = subst IsLinked (some-injective _ _ e) (
    attempts-update (λ r. same r.id k)
      (λ r. record r { state = interrupted; error_code = some reason }) (λ a. refl) db h)
IsLinked-apply (cancel_attempts k s) db db' e h = subst IsLinked (some-injective _ _ e) (
    attempts-update (λ r. task_of_mission k db r.task_id && state_eq r.state running)
      (λ r. record r { state = s }) (λ a. refl) db h)
IsLinked-apply (finish_attempt k s digest error) db db' e h =
    subst IsLinked (some-injective _ _ e) (
      attempts-update (λ r. same r.id k)
        (λ r. record r { state = s; result_sha256 = some digest; error_code = error }) (λ a. refl)
        db h)
IsLinked-apply s db db' e h = ground arith

-- If the task of each attempt is in the tables, then it is so after any sequence of calls.
pub serve-IsLinked :
    (env : Env) (c : Coordinator) (calls : List Call) (w : World)
    → IsLinked w.db
    → IsLinked (serve env c calls w).db
serve-IsLinked env c calls w h = serve-every (λ s. Keeps-exec s (IsLinked-apply s)) env c calls w h
