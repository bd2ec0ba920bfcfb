-- ===== src/Lifecycle/Covered.antt =====
-- The attempts that the rows of `_fence` of control_plane/execution.py cover, as it interrupts them.
use pepeuchiacluster.Prelude.{
  ◌≡◌, refl, Bool, true, false, ◌&&◌, ◌||◌, not, String, same, List, [], ◌∷◌, Option, none, some,
  find, any, all, arith, update_where, same_refl, if◌then◌else◌,
}
use pepeuchiacluster.Contracts.Lifecycle.{State, interrupted, is_active}
use pepeuchiacluster.Storage.Rows.{TaskRow, AttemptRow}
use pepeuchiacluster.Storage.Database.{Db, task_with}
use pepeuchiacluster.Execution.Fence.{ActiveRow, joined_row, joined, of_worker, active_rows}
use pepeuchiacluster.Lifecycle.Linked.{has_task}

-- an active attempt, of the worker if one is given
abbrev pub is_held : Option String → AttemptRow → Bool
is_held k a = is_active a.state && of_worker k a

abbrev pub covered : Option String → List ActiveRow → List TaskRow → AttemptRow → Bool
covered k rows tasks a = not (is_held k a && has_task tasks a) || any (λ r. same a.id r.id) rows

-- each of those, if its task is in the tables, is among the rows
abbrev pub Covers : Option String → List ActiveRow → Db → Type 0
Covers k rows db = all (covered k rows db.tasks) db.attempts ≡ true

covered-more :
    (k : Option String) (row : ActiveRow) (rows : List ActiveRow) (ts : List TaskRow)
    (xs : List AttemptRow)
    → all (covered k rows ts) xs ≡ true
    → all (covered k (row ∷ rows) ts) xs ≡ true
covered-more k row rows ts [] e = refl
covered-more k row rows ts (x ∷ xs) e = let rest = covered-more k row rows ts xs in ground arith

not_found :
    (k : String) (ts : List TaskRow)
    → find (λ t. same t.id k) ts ≡ none
    → any (λ t. same t.id k) ts ≡ false
not_found k [] e = refl
not_found k (t ∷ ts) e = let rest = not_found k ts in ground arith

covered-row :
    (k : Option String) (x : AttemptRow) (xs : List AttemptRow) (ts : List TaskRow)
    (rows : List ActiveRow) (hit : Bool) (o : Option TaskRow)
    → is_held k x ≡ hit
    → find (λ t. same t.id x.task_id) ts ≡ o
    → all (covered k rows ts) xs ≡ true
    → all (covered k (if hit then joined x o rows else rows) ts) (x ∷ xs) ≡ true
covered-row k x xs ts rows false o miss e h = ground arith
covered-row k x xs ts rows true none hit e h =
    let no_task = not_found x.task_id ts e in ground arith
covered-row k x xs ts rows true (some t) hit e h =
    let more = covered-more k (joined_row x t) rows ts xs h in
    let same_id = same_refl x.id in ground arith

pub active_rows-covers :
    (k : Option String) (xs : List AttemptRow) (db : Db)
    → all (covered k (active_rows k xs db) db.tasks) xs ≡ true
unfolding active_rows task_with
active_rows-covers k [] db = refl
active_rows-covers k (x ∷ xs) db =
    covered-row k x xs db.tasks (active_rows k xs db) _ _ refl refl (active_rows-covers k xs db)

pub interrupt-covers :
    (k : Option String) (row : ActiveRow) (rows : List ActiveRow) (ts : List TaskRow)
    (reason : String) (xs : List AttemptRow)
    → all (covered k (row ∷ rows) ts) xs ≡ true
    → all (covered k rows ts) (
        update_where
          (λ r. same r.id row.id)
          (λ r. record r { state = interrupted; error_code = some reason })
          xs)
      ≡ true
interrupt-covers k row rows ts reason [] e = refl
interrupt-covers k row rows ts reason (x ∷ xs) e =
    let rest = interrupt-covers k row rows ts reason xs in ground arith

task-any :
    (k j : String) (s : State) (ts : List TaskRow)
    → any (λ t. same t.id k) (update_where (λ r. same r.id j) (λ r. record r { state = s }) ts)
      ≡ any (λ t. same t.id k) ts
task-any k j s [] = refl
task-any k j s (t ∷ ts) = let rest = task-any k j s ts in ground arith

pub task-covers :
    (k : Option String) (rows : List ActiveRow) (j : String) (s : State) (ts : List TaskRow)
    (xs : List AttemptRow)
    → all (covered k rows ts) xs ≡ true
    → all (covered k rows (update_where (λ r. same r.id j) (λ r. record r { state = s }) ts)) xs
      ≡ true
task-covers k rows j s ts [] e = refl
task-covers k rows j s ts (x ∷ xs) e =
    let rest = task-covers k rows j s ts xs in let here = task-any x.task_id j s ts in ground arith

pub linked_none :
    (k : Option String) (ts : List TaskRow) (xs : List AttemptRow)
    → all (has_task ts) xs ≡ true
    → all (covered k [] ts) xs ≡ true
    → any (is_held k) xs ≡ false
linked_none k ts [] h e = refl
linked_none k ts (x ∷ xs) h e = let rest = linked_none k ts xs in ground arith
