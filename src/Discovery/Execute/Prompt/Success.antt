-- ===== src/Discovery/Execute/Prompt/Success.antt =====
-- The success of database/poc/discovery_execution.py, `execute_source`, in its first attempt.
use pepeuchiacluster.Prelude.{
  ℕ, suc, ◌≤◌, ◌≡◌, refl, sym, subst, true, false, some, ltb, arith, Option, none,
}
use pepeuchiacluster.Contracts.Values.{Value}
use pepeuchiacluster.Discovery.Errors.{success, Raised, Outcome, threw, done}
use pepeuchiacluster.Discovery.Metadata.{Library}
use pepeuchiacluster.Discovery.Policy.{
  SourceTask, SourceResult, refs_within, validate_observation, check_task, check_result,
}
use pepeuchiacluster.Discovery.Policy.Rechecked.{IsPlanned, check_task-IsPlanned}
use pepeuchiacluster.Discovery.Runtime.{
  ExecutionRuntime, Run, new_run, Action, Observation, observation, no_observation, Program, lift,
  caught,
}
use pepeuchiacluster.Discovery.Runtime.Rules.{
  Post, Carries, Carries-bind, Carries-given, Carries-lift, Carries-pure, Carries-read,
  Carries-update,
}
use pepeuchiacluster.Discovery.Execute.{
  finish_success, checked_observation, attempt, after_attempt, turn, again, while_left, loop,
  body_if, body, handled, run_from, run_source, execute_own, execute_source, result_of,
}
use pepeuchiacluster.Discovery.Execute.Results.{success_done}
use pepeuchiacluster.Discovery.Execute.Turns.{Budgeted-within}
use pepeuchiacluster.Discovery.Execute.Prompt.{
  IsSteady, IsHealthy, Left, IsGood, check_time-Left, operate-Left,
}

ltb-true : (a c : ℕ) → a ≡ 0 → 1 ≤ c → ltb a c ≡ true
ltb-true a c same some_ = ground arith

module _ (lib : Library) (rt : ExecutionRuntime) (task : SourceTask) (operation : ℕ → Program)
    (time : ℕ → ℕ) (steady : IsSteady rt task.policy.total time) where
  open task use {policy}

  abbrev L : ℕ → ℕ → Run → Type 0
  L = Left lib rt task operation time steady

  abbrev N : Raised → Run → Type 0
  N e b = ⊥

  abbrev Sound : Value → Type 0
  Sound v = validate_observation lib task.source task.selection task.resources v ≡ done v

  lift-Sound :
      (o : Observation)
      → IsGood lib rt task operation time steady o
      → Carries N
          (L 1 0)
          (λ v b. L 1 0 b × Sound v)
          (lift (checked_observation lib rt task operation o))
  unfolding checked_observation
  lift-Sound (observation v true) good = rw good (Carries-lift (done v) (λ b l. (l, good)))
  lift-Sound (observation v false) good = absurd good
  lift-Sound no_observation good = absurd good

  attempt-Sound :
      (n : ℕ)
      → IsHealthy lib task n (operation 1)
      → Carries N (L 1 n) (λ v b. L 1 0 b × Sound v) (attempt lib rt task operation)
  unfolding attempt
  attempt-Sound n healthy =
      Carries-bind
        (Carries-read {Q = λ m b. L 1 n b × (m ≡ 1)} (λ b. b.attempts)
          (λ b l. (l, l.0.within.attempts_are)))
        λ m. Carries-given λ first.
          Carries-bind
            (operate-Left lib rt task operation time steady 1 n (operation m) (rw first healthy))
            λ o. Carries-given λ good. Carries-bind (lift-Sound o good) λ v. Carries-given λ sound.
              Carries-bind (check_time-Left lib rt task operation time steady 1 0)
                λ _. Carries-pure v (λ b l. (l, sound))

  -- the snapshot that is caught
  abbrev Caught : Outcome Value → Run → Type 0
  Caught (threw e) b = ⊥
  Caught (done v) b = L 1 0 b × Sound v

  Caught-post :
      (o : Outcome Value) (b : Run) → Post N (λ v b'. L 1 0 b' × Sound v) (o, b) → Caught o b
  Caught-post (threw e) b h = h
  Caught-post (done v) b h = h

  caught-Caught :
      (n : ℕ)
      → IsHealthy lib task n (operation 1)
      → Carries N (L 1 n) Caught (caught (attempt lib rt task operation))
  unfolding caught
  caught-Caught n healthy = record {
    at_run = λ b l.
        Caught-post (attempt lib rt task operation b).0 (attempt lib rt task operation b).1
          ((attempt-Sound n healthy).at_run b l);
  }

  -- a success in one attempt
  abbrev pub IsPrompt : SourceResult → Type 0
  IsPrompt r = (r.status ≡ success) × (r.attempts ≡ 1)

  module _ (plan : IsPlanned lib task) (inside : refs_within task.resources policy.resources ≡ true)
      (some_ : 1 ≤ policy.max_attempts) where
    built-IsPrompt :
        (v : Value) (b : Run)
        → L 1 0 b
        → IsPrompt (result_of lib rt task operation success none (some v) b)
    unfolding result_of
    built-IsPrompt v b l = (refl, l.0.within.attempts_are)

    allowed_once : (1 ≤ policy.max_attempts) × (task.idempotent ≡ false → 1 ≤ 1)
    allowed_once = (some_, λ _. omega arith)

    check_result-Prompt :
        (v : Value) (built : SourceResult)
        → Sound v
        → Carries N
            (λ b. L 1 0 b × (built ≡ result_of lib rt task operation success none (some v) b))
            (λ r b. L 1 0 b × IsPrompt r)
            (lift (check_result lib built))
    check_result-Prompt v built sound = Carries-lift (check_result lib built) λ b h.
        subst (λ r. Post N (λ r' b'. L 1 0 b' × IsPrompt r') (check_result lib r, b)) (sym h.1)
          (subst (λ o. Post N (λ r' b'. L 1 0 b' × IsPrompt r') (o, b))
            (sym (
              success_done lib rt task operation plan v sound inside b
                (Budgeted-within lib rt task operation 1 b allowed_once h.0.0.within)))
            (h.0, built-IsPrompt v b h.0))

    finish_success-Prompt :
        (v : Value)
        → Sound v
        → Carries N (L 1 0) (λ r b. IsPrompt r) (finish_success lib rt task operation v)
    unfolding finish_success
    finish_success-Prompt v sound =
        Carries-bind
          (Carries-read
            {Q = λ r b. L 1 0 b × (r ≡ result_of lib rt task operation success none (some v) b)}
            (result_of lib rt task operation success none (some v)) (λ b l. (l, refl)))
          λ built. Carries-bind (check_result-Prompt v built sound) λ r. Carries-given λ prompt.
            Carries-bind (check_time-Left lib rt task operation time steady 1 0)
              λ _. Carries-read (λ b. record r { elapsed = b.elapsed }) (λ b l. prompt)

    -- the result that a turn ends with
    abbrev Ended : Option SourceResult → Run → Type 0
    Ended none b = ⊥
    Ended (some r) b = IsPrompt r

    after_attempt-Prompt :
        (o : Outcome Value) → Carries N (Caught o) Ended (after_attempt lib rt task operation o)
    unfolding after_attempt
    after_attempt-Prompt (threw e) = record { at_run = λ b h. absurd h }
    after_attempt-Prompt (done v) =
        Carries-given λ sound.
          Carries-bind (finish_success-Prompt v sound) λ r. Carries-pure (some r) (λ b p. p)

    turn-Prompt :
        (n : ℕ)
        → IsHealthy lib task n (operation 1)
        → Carries N (L 0 n) Ended (turn lib rt task operation)
    unfolding turn
    turn-Prompt n healthy =
        Carries-bind (check_time-Left lib rt task operation time steady 0 n) λ _.
          Carries-bind {Q = λ _. L 1 n} (Carries-update _ (λ b l. ground arith))
            λ _. Carries-bind (caught-Caught n healthy) after_attempt-Prompt

    abbrev pub Answered : Outcome SourceResult × Run → Type 0
    Answered (o, b) = (r : SourceResult) × (o ≡ done r) × IsPrompt r

    again-Answered :
        (rest : Action SourceResult) (o : Outcome (Option SourceResult)) (b : Run)
        → Post N Ended (o, b)
        → Answered (again lib rt task operation rest (o, b))
    again-Answered rest (threw e) b h = absurd h
    again-Answered rest (done none) b h = absurd h
    again-Answered rest (done (some r)) b h = (r, refl, h)

    handled-Answered :
        (o : Outcome SourceResult × Run) → Answered o → Answered (handled lib rt task operation o)
    unfolding handled
    handled-Answered (done r, b) h = h
    handled-Answered (threw e, b) h = absurd (let same = h.1 in ground arith)

    loop-Answered :
        (n m : ℕ) (b : Run)
        → IsHealthy lib task n (operation 1)
        → L 0 n b
        → Answered (loop lib rt task operation (suc m) b)
    unfolding loop while_left
    loop-Answered n m b healthy l =
        let left : ltb b.attempts policy.max_attempts ≡ true =
          ltb-true b.attempts policy.max_attempts l.0.within.attempts_are some_ in
        subst (λ t. Answered (while_left lib rt task operation (loop lib rt task operation m) t b))
          (sym left)
          (again-Answered (loop lib rt task operation m) (turn lib rt task operation b).0
            (turn lib rt task operation b).1 ((turn-Prompt n healthy).at_run b l))

    new_run-Left : (n : ℕ) → n ≤ policy.max_requests → L 0 n (new_run (time 0))
    unfolding new_run
    new_run-Left n enough = let forward_ = steady.forward 0 in ground arith

    pub run_source-Answered :
        (n : ℕ)
        → n ≤ policy.max_requests
        → IsHealthy lib task n (operation 1)
        → Answered (run_source lib rt task operation)
    unfolding run_source run_from body body_if
    run_source-Answered n enough healthy =
        subst (λ o. Answered (run_from lib rt task operation o)) (sym (steady.reads 0))
          (handled-Answered _ (
            subst (λ t. Answered (body_if lib rt task operation t (new_run (time 0)))) (sym inside)
              (loop-Answered n policy.max_attempts (new_run (time 0)) healthy
                (new_run-Left n enough))))

-- The execution of a task that passes its check, under a policy that allows its resources and at least
-- one attempt, succeeds in the first attempt where the clock never raises, never goes back and stays
-- within the total time, and where that attempt's operation makes no more requests than the policy
-- allows, all for allowed resources and with callbacks that answer, and then returns a complete
-- observation that is valid.
pub execute_source-IsPrompt :
    (lib : Library) (rt : ExecutionRuntime) (t : SourceTask) (operation : ℕ → Program)
    (time : ℕ → ℕ) (n : ℕ)
    → check_task lib t ≡ done t
    → refs_within t.resources t.policy.resources ≡ true
    → 1 ≤ t.policy.max_attempts
    → IsSteady rt t.policy.total time
    → n ≤ t.policy.max_requests
    → IsHealthy lib t n (operation 1)
    → (r : SourceResult) × ((execute_source lib rt t operation).0 ≡ done r)
      × (r.status ≡ success)
      × (r.attempts ≡ 1)
unfolding execute_source execute_own
execute_source-IsPrompt lib rt t operation time n planned inside some_ steady enough healthy =
    subst
      (λ o.
        (r : SourceResult) × ((execute_own lib rt operation o).0 ≡ done r)
        × (r.status ≡ success)
        × (r.attempts ≡ 1))
      (sym planned)
      (let (r, returned, prompt) =
          run_source-Answered lib rt t operation time steady
            ((check_task-IsPlanned lib t).gives t planned).0 inside some_ n enough healthy in
        (r, returned, prompt.0, prompt.1))
