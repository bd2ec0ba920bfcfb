-- ===== src/Lifecycle/Solo.antt =====
-- The number of active attempts of a worker, under the statements and the requests of
-- control_plane/execution.py.
use pepeuchiacluster.Prelude.{
  ℕ, ◌+◌, ◌≤◌, ◌≡◌, refl, ap, ◌∙◌, subst, Bool, true, false, ◌&&◌, String, same, List, [], ◌∷◌,
  ◌++◌, Option, none, some, inl, inr, arith, length, select, any, same_iff, length-append,
  select-append, update_where, if◌then◌else◌, Bool-cases,
}
use mathlib.Core.Option.{some-injective}
use pepeuchiacluster.Contracts.Lifecycle.{
  State, state_eq, state_eq_iff, running, interrupted, is_active, Principal,
}
use pepeuchiacluster.Storage.Rows.{AttemptRow, WorkerRow}
use pepeuchiacluster.Storage.Database.{
  Db, Statement, apply, insert_attempt, interrupt_attempt, cancel_attempts, finish_attempt,
  task_of_mission,
}
use pepeuchiacluster.Storage.Actions.{World, Env, Action, ◌>>=◌, exec, query, pure}
use pepeuchiacluster.Storage.Actions.Keeps.{Keeps, Keeps-exec, Keeps-query}
use pepeuchiacluster.Storage.Actions.Ensures.{
  Ensures, Ensures-bind, Ensures-query, Ensures-exec, Ensures-pure, Ensures-weaken, Ensures-Keeps,
  Keeps-Ensures,
}
use pepeuchiacluster.Storage.Responses.{request}
use pepeuchiacluster.Execution.Decide.{Coordinator}
use pepeuchiacluster.Api.{Call, serve}
use pepeuchiacluster.Handlers.Reads.{reads_rules}
use pepeuchiacluster.Handlers.Writes.{audit-Keeps}
use pepeuchiacluster.Handlers.Requests.{serve-holds}
use pepeuchiacluster.Execution.Claim.{Candidate, has_active, next_task, lease, lease_or_idle}
use pepeuchiacluster.Handlers.Plain.{IsPlain, shared, transition-plain, effects-plain}

abbrev of_worker : String → AttemptRow → Bool
of_worker k a = same a.worker_id k && is_active a.state

abbrev pub active_count : String → List AttemptRow → ℕ
active_count k xs = length (select (of_worker k) xs)

abbrev pub IsSolo : Db → Type 0
IsSolo db = (k : String) → active_count k db.attempts ≤ 1

-- An update that keeps the worker and activates nothing.
update-count :
    (k : String) (p : AttemptRow → Bool) (f : AttemptRow → AttemptRow) (xs : List AttemptRow)
    → ((a : AttemptRow) → p a ≡ true → of_worker k (f a) ≡ true → of_worker k a ≡ true)
    → active_count k (update_where p f xs) ≤ active_count k xs
update-count k p f [] g = ground arith
update-count k p f (x ∷ xs) g = let rest = update-count k p f xs g in let here = g x in ground arith

idle-count :
    (k : String) (xs : List AttemptRow) → any (of_worker k) xs ≡ false → active_count k xs ≡ 0
idle-count k [] e = refl
idle-count k (x ∷ xs) e = let rest = idle-count k xs in ground arith

interrupt-idle :
    (k j reason : String) (a : AttemptRow)
    → of_worker k (record a { state = interrupted; error_code = some reason }) ≡ true
    → of_worker k a ≡ true
interrupt-idle k j reason a e = ground arith

finish-idle :
    (k digest : String) (s : State) (error : Option String) (a : AttemptRow)
    → is_active s ≡ false
    → of_worker k (record a { state = s; result_sha256 = some digest; error_code = error }) ≡ true
    → of_worker k a ≡ true
finish-idle k digest s error a q e = ground arith

running-active :
    (k : String) (mine : Bool) (s : State) (a : AttemptRow)
    → (mine && state_eq a.state running) ≡ true
    → of_worker k (record a { state = s }) ≡ true
    → of_worker k a ≡ true
running-active k mine s a p e = ground (arith, state_eq_iff a.state running)

-- No plain statement gives a worker more active attempts.
count-apply :
    (s : Statement)
    → IsPlain s
    → (db db' : Db) → apply s db ≡ some db'
    → (k : String) → active_count k db'.attempts ≤ active_count k db.attempts
unfolding apply task_of_mission
count-apply (insert_attempt r) q db db' e k = absurd q
count-apply (interrupt_attempt j reason) q db db' e k =
    subst (λ x. active_count k x.attempts ≤ active_count k db.attempts) (some-injective _ _ e)
      (update-count k (λ r. same r.id j)
        (λ r. record r { state = interrupted; error_code = some reason }) db.attempts
        λ a p. interrupt-idle k j reason a)
count-apply (cancel_attempts j s) q db db' e k =
    subst (λ x. active_count k x.attempts ≤ active_count k db.attempts) (some-injective _ _ e)
      (update-count k _ _ db.attempts
        λ a p. running-active k (task_of_mission j db a.task_id) s a p)
count-apply (finish_attempt j s digest error) q db db' e k =
    subst (λ x. active_count k x.attempts ≤ active_count k db.attempts) (some-injective _ _ e)
      (update-count k (λ r. same r.id j)
        (λ r. record r { state = s; result_sha256 = some digest; error_code = error }) db.attempts
        λ a p. finish-idle k digest s error a q)
count-apply _ q db db' e k = ground arith

Solo-plain : (s : Statement) → IsPlain s → Keeps IsSolo (exec s)
Solo-plain s q =
    Keeps-exec s
      λ db db' e h k. let less = count-apply s q db db' e k in let one = h k in omega arith

-- The worker has no active attempt.
abbrev IsFree : String → Db → Type 0
IsFree k db = IsSolo db × (has_active k db ≡ false)

active_count-append :
    (k : String) (r : AttemptRow) (xs : List AttemptRow)
    → active_count k (xs ++ r ∷ []) ≡ active_count k xs + active_count k (r ∷ [])
active_count-append k r xs =
    ap length (select-append (of_worker k) xs (r ∷ []))
    ∙ length-append (select (of_worker k) xs) (select (of_worker k) (r ∷ []))

insert_attempt-apply :
    (r : AttemptRow) (db db' : Db)
    → apply (insert_attempt r) db ≡ some db'
    → db'.attempts ≡ db.attempts ++ r ∷ []
unfolding apply
insert_attempt-apply r db db' e = ground arith

one_more : (k : String) (r : AttemptRow) → active_count k (r ∷ []) ≤ 1
one_more k r = ground arith

none_more : (k : String) (r : AttemptRow) → same r.worker_id k ≡ false → active_count k (r ∷ []) ≡ 0
none_more k r e = ground arith

insert_attempt-Solo :
    (r : AttemptRow) (db db' : Db)
    → apply (insert_attempt r) db ≡ some db'
    → IsFree r.worker_id db
    → IsSolo db'
insert_attempt-Solo r db db' e (solo, free) j =
    let rows = insert_attempt-apply r db db' e in
    let sum = ap (active_count j) rows ∙ active_count-append j r db.attempts in
    elim (Bool-cases (same r.worker_id j)) [
      | inl hit ↦
          let before =
            subst (λ i. active_count i db.attempts ≡ 0) ((same_iff r.worker_id j).0 hit)
              (idle-count r.worker_id db.attempts free) in
          let one = one_more j r in omega arith
      | inr miss ↦ let added = none_more j r miss in let one = solo j in omega arith
    ]

module _ (k : String) {B : Type 0} where
  Free-bind :
      {A : Type 0} (m : Action A) (f : A → Action B)
      → Keeps (IsFree k) m
      → ((a : A) → Ensures (IsFree k) (f a) (λ _. IsSolo))
      → Ensures (IsFree k) (m >>= f) (λ _. IsSolo)
  Free-bind m f km e = Ensures-bind m f (Keeps-Ensures m km) e

module _ {B : Type 0} where
  Free-insert :
      (r : AttemptRow) (f : Unit {0} → Action B)
      → ((u : Unit {0}) → Keeps IsSolo (f u))
      → Ensures (IsFree r.worker_id) (exec (insert_attempt r) >>= f) (λ _. IsSolo)
  Free-insert r f kf =
      Ensures-bind (exec (insert_attempt r)) f
        (Ensures-exec (insert_attempt r) (insert_attempt-Solo r)) λ u. Keeps-Ensures (f u) (kf u)

module _ (env : Env) (p : Principal) (row : WorkerRow) where
  lease-Solo : (c : Candidate) → Ensures (IsFree p.identity) (lease env p row c) (λ _. IsSolo)
  unfolding lease
  lease-Solo c =
      search
        (
          refl,
          reads_rules,
          Free-bind,
          Free-insert,
          Solo-plain,
          transition-plain Solo-plain env,
          audit-Keeps (shared Solo-plain env) env,
        )
        depth 25 fits 5000

  idle : {S : Db → Type 0} → Ensures (λ db. IsSolo db × S db) (pure (request none)) (λ _. IsSolo)
  idle = Ensures-weaken (pure (request none)) (λ db h. h.0) (Ensures-pure (request none))

  lease_or_idle-Solo :
      (busy : Bool) (found : Option Candidate)
      → Ensures
          (λ db. IsSolo db × (has_active p.identity db ≡ busy))
          (lease_or_idle env p row (if busy then none else found))
          (λ _. IsSolo)
  lease_or_idle-Solo true found = idle
  lease_or_idle-Solo false none = idle
  lease_or_idle-Solo false (some c) = lease-Solo c

  leasing : Keeps IsSolo (
      query (has_active p.identity) >>= λ busy. query (next_task p.identity) >>= λ found.
      lease_or_idle env p row (if busy then none else found))
  leasing = Ensures-Keeps _ (
      Ensures-bind (query (has_active p.identity)) _ (Ensures-query (has_active p.identity)) λ busy.
        Ensures-bind (query (next_task p.identity)) _
          (Keeps-Ensures _ (Keeps-query (next_task p.identity)))
          λ found. lease_or_idle-Solo busy found)

-- If no worker has more than one active attempt (running, or waiting for its cancellation), then
-- none has after any sequence of calls: claims, results, cancellations, retries and restarts
-- included.
pub serve-one_active :
    (env : Env) (c : Coordinator) (calls : List Call) (w : World)
    → IsSolo w.db
    → IsSolo (serve env c calls w).db
serve-one_active env c calls w h =
    serve-holds env c (effects-plain Solo-plain env c (leasing env)) calls w h
