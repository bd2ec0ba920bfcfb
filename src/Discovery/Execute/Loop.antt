-- ===== src/Discovery/Execute/Loop.antt =====
-- The loop of database/poc/discovery_execution.py, and what `execute_source` returns.
use pepeuchiacluster.Prelude.{
  ℕ, zero, suc, ◌+◌, ◌-◌, ◌≤◌, ◌<◌, ◌≡◌, refl, Bool, true, false, Option, none, some, ltb, arith,
  if◌then◌else◌,
}
use pepeuchiacluster.Discovery.Errors.{
  attempt_budget, selection, runtime, is_time_budget, Raised, execution_error, Outcome, threw, done,
}
use pepeuchiacluster.Discovery.Metadata.{Library}
use pepeuchiacluster.Discovery.Policy.{SourceTask, SourceResult, refs_within}
use pepeuchiacluster.Discovery.Policy.Rechecked.{IsPlanned}
use pepeuchiacluster.Discovery.Runtime.{ExecutionRuntime, Run, new_run, Action, Program, sample}
use pepeuchiacluster.Discovery.Runtime.Rules.{Post, Carries}
use pepeuchiacluster.Discovery.Runtime.Keeps.{Within, Fails, sample-Measured}
use pepeuchiacluster.Discovery.Execute.{
  finish, turn, again, while_left, loop, body_if, body, run_from, ending_for, handled, run_source,
}
use pepeuchiacluster.Discovery.Waiting.{Ending, defer, fail}
use pepeuchiacluster.Discovery.Execute.Honest.{Budgeted, Finished}
use pepeuchiacluster.Discovery.Execute.Results.{FailsBudgeted, finish-Finished}
use pepeuchiacluster.Discovery.Execute.Turns.{Turned, Budgeted-within, turn-Turned}

ltb_less : (a b c : ℕ) → a ≡ b → ltb a c ≡ true → b < c
ltb_less a b c same e = ground arith

module _ (lib : Library) (rt : ExecutionRuntime) (task : SourceTask) (operation : ℕ → Program) where
  open task use {policy}

  new_run-Budgeted : (now : ℕ) → Budgeted task (new_run now)
  unfolding new_run
  new_run-Budgeted now = ground arith

  module _ (plan : IsPlanned lib task)
      (inside : refs_within task.resources policy.resources ≡ true) where
    abbrev pub E : Raised → Run → Type 0
    E = FailsBudgeted lib rt task operation plan

    -- where the loop starts: enough turns are left, and a task that is not idempotent is untried
    record Starts (n k : ℕ) : Type 0 where
      enough : policy.max_attempts < k + n
      started : k ≤ policy.max_attempts
      untried : task.idempotent ≡ false → k ≡ 0

    again-Finished :
        (rest : Action SourceResult) (k : ℕ) (o : Outcome (Option SourceResult)) (b : Run)
        → (task.idempotent ≡ true → Carries E (Within task k) (Finished lib task) rest)
        → Post E (Turned lib rt task operation k) (o, b)
        → Post E (Finished lib task) (again lib rt task operation rest (o, b))
    again-Finished rest k (threw e) b next h = h
    again-Finished rest k (done none) b next h = (next h.1).at_run b h.0
    again-Finished rest k (done (some r)) b next h = h

    while_left-Finished :
        (n k : ℕ) (more : Bool) (b : Run)
        → Starts (suc n) k
        → ltb b.attempts policy.max_attempts ≡ more
        → (Starts n (suc k)
            → Carries E (Within task (suc k)) (Finished lib task) (loop lib rt task operation n))
        → Within task k b
        → Post E
            (Finished lib task)
            (while_left lib rt task operation (loop lib rt task operation n) more b)
    unfolding while_left
    while_left-Finished n k false b s e next w =
        (finish-Finished lib rt task operation plan E (defer attempt_budget)).at_run b (
          Budgeted-within lib rt task operation k b
            (s.started, λ i. let u = s.untried i in omega arith) w)
    while_left-Finished n k true b s e next w =
        let less : k < policy.max_attempts = ltb_less b.attempts k _ w.attempts_are e in
        again-Finished (loop lib rt task operation n) (suc k) (turn lib rt task operation b).0
          (turn lib rt task operation b).1
          (λ idem. next (record {
            enough = let f = s.enough in omega arith;
            started = omega arith;
            untried = λ i. cc;
          }))
          ((turn-Turned lib rt task operation plan inside k
              (omega arith, λ i. let u = s.untried i in omega arith)).at_run
            b w)

    loop-Finished :
        (n k : ℕ)
        → Starts n k
        → Carries E (Within task k) (Finished lib task) (loop lib rt task operation n)
    unfolding loop
    loop-Finished zero k s = absurd (let f = s.enough in let g = s.started in omega arith)
    loop-Finished (suc n) k s = record {
      at_run = λ b w.
          while_left-Finished n k (ltb b.attempts policy.max_attempts) b s refl
            (loop-Finished n (suc k)) w;
    }

  module _ (plan : IsPlanned lib task) where
    abbrev FailsInBudget : Raised → Run → Type 0
    FailsInBudget = FailsBudgeted lib rt task operation plan

    body_if-Finished :
        (inside : Bool) (now : ℕ)
        → refs_within task.resources policy.resources ≡ inside
        → Post FailsInBudget
            (Finished lib task)
            (body_if lib rt task operation inside (new_run now))
    unfolding body_if new_run
    body_if-Finished false now e =
        (finish-Finished lib rt task operation plan FailsInBudget (fail selection)).at_run
          (new_run now) (new_run-Budgeted now)
    body_if-Finished true now e =
        (loop-Finished plan e (suc policy.max_attempts) 0
            (record { enough = omega arith; started = omega arith; untried = λ i. refl })).at_run
          (new_run now) (new_run-Budgeted now).within

    body-Finished :
        (now : ℕ)
        → Post FailsInBudget (Finished lib task) (body lib rt task operation (new_run now))
    unfolding body
    body-Finished now = body_if-Finished _ now refl

    -- A value that a run returns, and what holds of them.
    abbrev pub Returns : Outcome SourceResult × Run → Type 0
    Returns (o, b) = (r : SourceResult) × (o ≡ done r) × Finished lib task r b

    always-Returns :
        (o : Outcome SourceResult) (b : Run)
        → Post (λ _ _. ⊥) (Finished lib task) (o, b)
        → Returns (o, b)
    always-Returns (threw e) b h = absurd h
    always-Returns (done r) b h = (r, refl, h)

    finish-Returns :
        (e : Ending) (b : Run) → Budgeted task b → Returns (finish lib rt task operation e b)
    finish-Returns e b g =
        always-Returns (finish lib rt task operation e b).0 (finish lib rt task operation e b).1
          ((finish-Finished lib rt task operation plan (λ _ _. ⊥) e).at_run b g)

    sampled :
        (k : ℕ) (o : Outcome ℕ) (b : Run)
        → Post (Fails rt task k) (λ n b'. Within task k b' × (n ≡ policy.total - b'.elapsed)) (o, b)
        → Within task k b
    sampled k (threw e) b h = h.1
    sampled k (done n) b h = h.0

    measured-Budgeted :
        (t : Bool) (b : Run)
        → Budgeted task b
        → Budgeted task (if t then b else (sample rt policy.total b).1)
    measured-Budgeted true b g = g
    measured-Budgeted false b g =
        Budgeted-within lib rt task operation b.attempts _ (g.attempts_bound, g.once)
          (sampled b.attempts (sample rt policy.total b).0 (sample rt policy.total b).1
            ((sample-Measured rt task b.attempts).at_run b g.within))

    handled-Returns :
        (o : Outcome SourceResult) (b : Run)
        → Post FailsInBudget (Finished lib task) (o, b)
        → Returns (handled lib rt task operation (o, b))
    unfolding handled
    handled-Returns (done r) b h = (r, refl, h)
    handled-Returns (threw (execution_error e)) b h =
        finish-Returns (ending_for lib rt task operation e) _
          (measured-Budgeted (is_time_budget e) b h.1)
    handled-Returns (threw _) b h = absurd h.0

    run_from-Returns : (now : Option ℕ) → Returns (run_from lib rt task operation now)
    unfolding run_from
    run_from-Returns none =
        finish-Returns (ending_for lib rt task operation runtime) (new_run 0) (new_run-Budgeted 0)
    run_from-Returns (some now) =
        handled-Returns (body lib rt task operation (new_run now)).0
          (body lib rt task operation (new_run now)).1 (body-Finished now)

    pub run_source-Returns : Returns (run_source lib rt task operation)
    unfolding run_source
    run_source-Returns = run_from-Returns (rt.monotonic 0)
