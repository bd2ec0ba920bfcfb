-- ===== src/Lifecycle/History.antt =====
-- The tables of control_plane/storage.py that hold its history: the ledger, the operations with their
-- recorded responses, the files, their versions, the results and the epochs of the attempts.
use pepeuchiacluster.Prelude.{
  append_assoc, append-nil, ◌≡◌, refl, sym, ap, ◌∙◌, subst, List, [], ◌∷◌, ◌++◌, Option, none, some,
  arith,
}
use pepeuchiacluster.Contracts.Lifecycle.{Principal}
use pepeuchiacluster.Storage.Rows.{WorkerRow}
use pepeuchiacluster.Storage.Database.{
  Db, Statement, apply, insert_file, insert_version, insert_result, insert_event, insert_operation,
  insert_epoch,
}
use pepeuchiacluster.Storage.Actions.{World, Env, exec}
use pepeuchiacluster.Storage.Actions.Keeps.{Keeps, Keeps-exec}
use pepeuchiacluster.Execution.Claim.{Candidate, lease, lease_or_idle}
use pepeuchiacluster.Execution.Decide.{Coordinator}
use pepeuchiacluster.Api.{Call, serve}
use pepeuchiacluster.Handlers.Reads.{reads_rules}
use pepeuchiacluster.Handlers.Writes.{audit-Keeps}
use pepeuchiacluster.Handlers.Requests.{serve-holds}
use pepeuchiacluster.Handlers.Plain.{transition-plain, effects-plain}

module _ {P : Db → Type 0} (every : (s : Statement) → Keeps P (exec s)) (env : Env) where
  lease-every : (p : Principal) (row : WorkerRow) (c : Candidate) → Keeps P (lease env p row c)
  unfolding lease
  lease-every p row c =
      search
        (
          reads_rules,
          every,
          transition-plain (λ s _. every s) env,
          audit-Keeps (λ s _. every s) env,
        )
        depth 25 fits 5000

  lease_or_idle-every :
      (p : Principal) (row : WorkerRow) (found : Option Candidate)
      → Keeps P (lease_or_idle env p row found)
  lease_or_idle-every p row none = search reads_rules
  lease_or_idle-every p row (some c) = lease-every p row c

  -- What every statement keeps, every call keeps.
  pub serve-every :
      (c : Coordinator) (calls : List Call) (w : World) → P w.db → P (serve env c calls w).db
  serve-every c calls w h =
      serve-holds env c
        (effects-plain (λ s _. every s) env c λ p row. search (reads_rules, lease_or_idle-every))
        calls w h

-- The second list is the first with rows after it.
abbrev pub Extends : {A : Type 0} → List A → List A → Type 0
Extends {A} xs ys = (zs : List A) × (ys ≡ xs ++ zs)

Extends-refl : {A : Type 0} (xs : List A) → Extends xs xs
Extends-refl xs = ([], sym (append-nil xs))

Extends-more : {A : Type 0} (xs ys zs : List A) → Extends xs ys → Extends ys zs → Extends xs zs
Extends-more xs ys zs (us, e) (vs, f) = (us ++ vs, f ∙ ap (λ l. l ++ vs) e ∙ append_assoc xs us vs)

-- From one database to a later one: nothing of these tables is changed or removed.
pub record Remembers (db0 db : Db) : Type 0 where
  pub workspaces : db.workspaces ≡ db0.workspaces
  pub events : Extends db0.events db.events
  pub operations : Extends db0.operations db.operations
  pub files : Extends db0.files db.files
  pub versions : Extends db0.versions db.versions
  pub results : Extends db0.results db.results
  pub epochs : Extends db0.epochs db.epochs

workspaces-apply :
    (s : Statement) (db db' : Db) → apply s db ≡ some db' → db'.workspaces ≡ db.workspaces
unfolding apply
workspaces-apply s db db' e = ground arith

same_rows : {A : Type 0} (xs ys : List A) → ys ≡ xs → Extends xs ys
same_rows xs ys e = subst (Extends xs) (sym e) (Extends-refl xs)

events-apply : (s : Statement) (db db' : Db) → apply s db ≡ some db' → Extends db.events db'.events
unfolding apply
events-apply (insert_event r) db db' e = (r ∷ [], ground arith)
events-apply _ db db' e = same_rows db.events db'.events (ground arith)

operations-apply :
    (s : Statement) (db db' : Db) → apply s db ≡ some db' → Extends db.operations db'.operations
unfolding apply
operations-apply (insert_operation r) db db' e = (r ∷ [], ground arith)
operations-apply _ db db' e = same_rows db.operations db'.operations (ground arith)

files-apply : (s : Statement) (db db' : Db) → apply s db ≡ some db' → Extends db.files db'.files
unfolding apply
files-apply (insert_file r) db db' e = (r ∷ [], ground arith)
files-apply _ db db' e = same_rows db.files db'.files (ground arith)

versions-apply :
    (s : Statement) (db db' : Db) → apply s db ≡ some db' → Extends db.versions db'.versions
unfolding apply
versions-apply (insert_version r) db db' e = (r ∷ [], ground arith)
versions-apply _ db db' e = same_rows db.versions db'.versions (ground arith)

results-apply :
    (s : Statement) (db db' : Db) → apply s db ≡ some db' → Extends db.results db'.results
unfolding apply
results-apply (insert_result r) db db' e = (r ∷ [], ground arith)
results-apply _ db db' e = same_rows db.results db'.results (ground arith)

epochs-apply : (s : Statement) (db db' : Db) → apply s db ≡ some db' → Extends db.epochs db'.epochs
unfolding apply
epochs-apply (insert_epoch r) db db' e = (r ∷ [], ground arith)
epochs-apply _ db db' e = same_rows db.epochs db'.epochs (ground arith)

Remembers-apply :
    {db0 : Db} (s : Statement) (db db' : Db)
    → apply s db ≡ some db'
    → Remembers db0 db
    → Remembers db0 db'
Remembers-apply s db db' e h = record {
  workspaces = workspaces-apply s db db' e ∙ h.workspaces;
  events = Extends-more _ _ _ h.events (events-apply s db db' e);
  operations = Extends-more _ _ _ h.operations (operations-apply s db db' e);
  files = Extends-more _ _ _ h.files (files-apply s db db' e);
  versions = Extends-more _ _ _ h.versions (versions-apply s db db' e);
  results = Extends-more _ _ _ h.results (results-apply s db db' e);
  epochs = Extends-more _ _ _ h.epochs (epochs-apply s db db' e);
}

Remembers-refl : (db : Db) → Remembers db db
Remembers-refl db = record {
  workspaces = refl;
  events = Extends-refl db.events;
  operations = Extends-refl db.operations;
  files = Extends-refl db.files;
  versions = Extends-refl db.versions;
  results = Extends-refl db.results;
  epochs = Extends-refl db.epochs;
}

-- Whatever is served, the workspaces are the same, and of the ledger, the recorded operations, the
-- files, the versions, the results and the epochs of the attempts no row is changed, removed or
-- reordered: new rows come after the old ones.
pub serve-Remembers :
    (env : Env) (c : Coordinator) (calls : List Call) (w : World)
    → Remembers w.db (serve env c calls w).db
serve-Remembers env c calls w =
    serve-every (λ s. Keeps-exec s (Remembers-apply s)) env c calls w (Remembers-refl w.db)
