-- ===== src/Discovery/Execute/Turns.antt =====
-- The attempts of database/poc/discovery_execution.py: one turn of the loop.
use pepeuchiacluster.Prelude.{
  ℕ, suc, ◌≤◌, ◌≡◌, refl, sym, subst, true, false, Option, none, some, arith,
}
use pepeuchiacluster.Contracts.Values.{Value}
use pepeuchiacluster.Discovery.Errors.{Raised, Outcome, threw, done}
use pepeuchiacluster.Discovery.Errors.Gives.{Gives}
use pepeuchiacluster.Discovery.Metadata.{Library}
use pepeuchiacluster.Discovery.Policy.{SourceTask, SourceResult, refs_within, validate_observation}
use pepeuchiacluster.Discovery.Policy.Rechecked.{IsPlanned, checked_again}
use pepeuchiacluster.Discovery.Runtime.{
  ExecutionRuntime, Run, Observation, observation, no_observation, Program, lift, caught,
}
use pepeuchiacluster.Discovery.Runtime.Rules.{
  Post, Carries, Carries-bind, Carries-weaken, Carries-given, Carries-lift, Carries-pure,
  Carries-read, Carries-update,
}
use pepeuchiacluster.Discovery.Runtime.Keeps.{
  Within, Fails, Breaks, check_time-Measured, check_time-Stays, operate-Stays,
}
use pepeuchiacluster.Discovery.Execute.{
  checked_observation, attempt, classify, ended_by, after_attempt, turn,
}
use pepeuchiacluster.Discovery.Waiting.{Ending}
use pepeuchiacluster.Discovery.Execute.Waits.{Ends, after_error-Ends}
use pepeuchiacluster.Discovery.Execute.Honest.{Budgeted, Finished}
use pepeuchiacluster.Discovery.Execute.Results.{
  FailsBudgeted, finish-Finished, finish_success-Finished,
}

module _ (lib : Library) (rt : ExecutionRuntime) (task : SourceTask) (operation : ℕ → Program) where
  open task use {policy}

  IsValid : Value → Type 0
  IsValid v = validate_observation lib task.source task.selection task.resources v ≡ done v

  checked_observation-Gives :
      (o : Observation) → Gives IsValid (checked_observation lib rt task operation o)
  unfolding checked_observation IsValid
  checked_observation-Gives no_observation = record { gives = λ a e. cc }
  checked_observation-Gives (observation v false) = record { gives = λ a e. cc }
  checked_observation-Gives (observation v true) = record {
    gives = λ c e. checked_again lib task.source task.selection task.resources v c e;
  }

  lift-IsValid :
      (k : ℕ) (o : Outcome Value)
      → Gives IsValid o
      → Carries (Breaks rt task k) (Within task k) (λ v b. Within task k b × IsValid v) (lift o)
  lift-IsValid k (threw e) g = Carries-lift (threw e) (λ b w. w)
  lift-IsValid k (done v) g = Carries-lift (done v) (λ b w. (w, g.gives v refl))

  attempt-Stays :
      (k : ℕ)
      → Carries
          (Breaks rt task k)
          (Within task k)
          (λ v b. Within task k b × IsValid v)
          (attempt lib rt task operation)
  unfolding attempt
  attempt-Stays k = Carries-bind (Carries-read {Q = λ _. Within task k} _ (λ b w. w)) λ n.
      Carries-bind (operate-Stays rt task k (operation n)) λ o.
        Carries-bind (lift-IsValid k _ (checked_observation-Gives o)) λ v.
          Carries-given λ valid.
            Carries-bind (check_time-Stays rt task k) λ _. Carries-pure v (λ b w. (w, valid))

  -- what the inner `try` leaves
  abbrev Tried : ℕ → Outcome Value → Run → Type 0
  Tried k (threw e) b = Within task k b
  Tried k (done v) b = Within task k b × IsValid v

  caught-Tried :
      (k : ℕ) (o : Outcome Value) (b : Run)
      → Post (Breaks rt task k) (λ v b'. Within task k b' × IsValid v) (o, b)
      → Tried k o b
  caught-Tried k (threw e) b h = h
  caught-Tried k (done v) b h = h

  caught-Carries :
      (k : ℕ)
      → Carries (Fails rt task k) (Within task k) (Tried k) (caught (attempt lib rt task operation))
  unfolding caught
  caught-Carries k = record {
    at_run = λ b w.
        caught-Tried k (attempt lib rt task operation b).0 (attempt lib rt task operation b).1
          ((attempt-Stays k).at_run b w);
  }

  -- so many attempts are allowed
  abbrev pub Allows : ℕ → Type 0
  Allows k = (k ≤ policy.max_attempts) × (task.idempotent ≡ false → k ≤ 1)

  pub Budgeted-within : (k : ℕ) (b : Run) → Allows k → Within task k b → Budgeted task b
  Budgeted-within k b h w = record {
    within = subst (λ j. Within task j b) (sym w.attempts_are) w;
    attempts_bound = rw w.attempts_are h.0;
    once = λ e. rw w.attempts_are (h.1 e);
  }

  -- what a turn leaves: a result, or a task for another turn
  abbrev pub Turned : ℕ → Option SourceResult → Run → Type 0
  Turned k none b = Within task k b × (task.idempotent ≡ true)
  Turned k (some r) b = Finished lib task r b

  module _ (plan : IsPlanned lib task)
      (inside : refs_within task.resources policy.resources ≡ true) where
    abbrev pub E : Raised → Run → Type 0
    E = FailsBudgeted lib rt task operation plan

    ended_by-Turned :
        (k : ℕ) (o : Option Ending)
        → Allows k
        → Carries E (Ends lib rt task operation k o) (Turned k) (ended_by lib rt task operation o)
    unfolding ended_by
    ended_by-Turned k none h = Carries-pure none (λ b e. (e.0, e.1 refl))
    ended_by-Turned k (some e) h =
        Carries-bind
          (Carries-weaken (finish-Finished lib rt task operation plan E e)
            (λ b w. Budgeted-within k b h w.0) (λ x b f. f) (λ r b f. f))
          λ r. Carries-pure (some r) (λ b f. f)

    after_attempt-Turned :
        (k : ℕ) (o : Outcome Value)
        → Allows k
        → Carries E (Tried k o) (Turned k) (after_attempt lib rt task operation o)
    unfolding after_attempt IsValid
    after_attempt-Turned k (threw e) h =
        Carries-bind
          (Carries-weaken
            (after_error-Ends lib rt task operation k (classify lib rt task operation e)) (λ b w. w)
            (λ x b f. (f.0, Budgeted-within k b h f.1)) (λ o b f. f))
          λ o. ended_by-Turned k o h
    after_attempt-Turned k (done v) h = Carries-given λ valid.
        Carries-bind
          (Carries-weaken (finish_success-Finished lib rt task operation plan v valid inside)
            (λ b w. Budgeted-within k b h w) (λ x b f. f) (λ r b f. f))
          λ r. Carries-pure (some r) (λ b f. f)

    pub turn-Turned :
        (k : ℕ)
        → Allows (suc k)
        → Carries E (Within task k) (Turned (suc k)) (turn lib rt task operation)
    unfolding turn
    turn-Turned k h =
        Carries-bind
          (Carries-weaken (check_time-Measured rt task k) (λ b w. w)
            (λ x b f.
              (f.0, Budgeted-within k b (omega arith, λ e. let l = h.1 e in omega arith) f.1))
            (λ n b m. m.0.0))
          λ _.
            Carries-bind {Q = λ _. Within task (suc k)} (Carries-update _ (λ b w. ground arith))
              λ _.
                Carries-bind
                  (Carries-weaken (caught-Carries (suc k)) (λ b w. w)
                    (λ x b f. (f.0, Budgeted-within (suc k) b h f.1)) (λ o b t. t))
                  λ o. after_attempt-Turned (suc k) o h
