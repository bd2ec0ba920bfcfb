-- ===== src/Discovery/Execute/Results.antt =====
-- The results of database/poc/discovery_execution.py: what they say of the run, and of the snapshot.
use pepeuchiacluster.Prelude.{
  ℕ, zero, suc, ◌-◌, ◌<◌, ◌≡◌, refl, sym, ◌∙◌, subst, true, false, Option, none, some, arith,
}
use pepeuchiacluster.Contracts.Values.{Value}
use pepeuchiacluster.Discovery.Errors.{Status, success, Reason, Raised, done}
use pepeuchiacluster.Discovery.Metadata.{Library}
use pepeuchiacluster.Discovery.Policy.{
  SourceTask, SourceResult, is_positive, refs_within, validate_observation, check_result,
}
use pepeuchiacluster.Discovery.Policy.Rechecked.{
  IsPlanned, check_result-check_publication, check_publication-done, check_publication-negative,
}
use pepeuchiacluster.Discovery.Runtime.{
  ExecutionRuntime, Run, Program, ◌>>=◌, lift, clock, sample, in_time,
}
use pepeuchiacluster.Discovery.Runtime.Rules.{
  Post, IsExecution, Carries, Carries-bind, Carries-given, Carries-lift, Carries-read, Carries-pure,
  Carries-raise_for,
}
use pepeuchiacluster.Discovery.Execute.{result_of, finish, finish_success}
use pepeuchiacluster.Discovery.Waiting.{Ending, defer, fail, ending_status, ending_reason}
use pepeuchiacluster.Discovery.Execute.Honest.{Budgeted, Counts, Describes, Finished}

ending_negative : (e : Ending) → is_positive (ending_status e) ≡ false
ending_negative (defer e) = refl
ending_negative (fail e) = refl

module _ (lib : Library) (rt : ExecutionRuntime) (task : SourceTask) (operation : ℕ → Program)
    (plan : IsPlanned lib task) where
  abbrev pub FailsBudgeted : Raised → Run → Type 0
  FailsBudgeted e b = IsExecution e × Budgeted task b

  finish-done :
      (e : Ending) (b : Run)
      → Budgeted task b
      → check_result lib
          (result_of lib rt task operation (ending_status e) (some (ending_reason e)) none b)
        ≡ done (result_of lib rt task operation (ending_status e) (some (ending_reason e)) none b)
  unfolding result_of
  finish-done e b g =
      check_result-check_publication lib _ plan.selected plan.planned g.attempts_bound
        g.within.requests_bound
      ∙ check_publication-negative lib _ (ending_reason e) (ending_negative e) (ending_negative e)
          refl refl

  result_of-Describes :
      (s : Status) (e : Option Reason) (v : Option Value) (b : Run)
      → Describes task (result_of lib rt task operation s e v b)
  unfolding result_of
  result_of-Describes s e v b = ground arith

  result_of-Counts :
      (s : Status) (e : Option Reason) (v : Option Value) (b : Run)
      → Counts (result_of lib rt task operation s e v b) b
  unfolding result_of
  result_of-Counts s e v b = ground arith

  result-Finished :
      (e : Ending) (b : Run)
      → Budgeted task b
      → Finished lib task
          (result_of lib rt task operation (ending_status e) (some (ending_reason e)) none b)
          b
  unfolding result_of
  result-Finished e b g = record {
    budgeted = g;
    describes = result_of-Describes _ _ _ b;
    counts = result_of-Counts _ _ _ b;
    elapsed_is = refl;
    honest = record {
      positive = λ p. let n = ending_negative e in cc;
      negative = λ n. (ending_reason e, (refl, n, refl));
    };
  }

  pub finish-Finished :
      (E : Raised → Run → Type 0) (e : Ending)
      → Carries E (Budgeted task) (Finished lib task) (finish lib rt task operation e)
  unfolding finish
  finish-Finished E e = record {
    at_run = λ b g.
        subst (λ o. Post E (Finished lib task) (o, b)) (sym (finish-done e b g))
          (result-Finished e b g);
  }

  sample-Counts :
      (r : SourceResult)
      → Carries FailsBudgeted
          (λ b. Budgeted task b × Counts r b)
          (λ n b. (Budgeted task b × Counts r b) × (n ≡ task.policy.total - b.elapsed))
          (sample rt task.policy.total)
  unfolding sample clock ◌>>=◌
  sample-Counts r = record { at_run = λ b h. ground arith }

  in_time-Counts :
      (r : SourceResult) (n : ℕ)
      → Carries FailsBudgeted
          (λ b. (Budgeted task b × Counts r b) × (n ≡ task.policy.total - b.elapsed))
          (λ _ b. (Budgeted task b × Counts r b) × (b.elapsed < task.policy.total))
          (in_time rt n)
  unfolding in_time
  in_time-Counts r zero = Carries-raise_for _ (λ b h. (tt, h.0.0))
  in_time-Counts r (suc n) = Carries-pure (suc n) (λ b h. (h.0, omega arith))

  module _ (v : Value)
      (valid : validate_observation lib task.source task.selection task.resources v ≡ done v)
      (inside : refs_within task.resources task.policy.resources ≡ true) where
    pub success_done :
        (b : Run)
        → Budgeted task b
        → check_result lib (result_of lib rt task operation success none (some v) b)
          ≡ done (result_of lib rt task operation success none (some v) b)
    unfolding result_of
    success_done b g =
        check_result-check_publication lib _ plan.selected plan.planned g.attempts_bound
          g.within.requests_bound
        ∙ check_publication-done lib _ v refl refl refl refl inside valid

    -- what is checked is the result that was built
    Built : SourceResult → Run → Type 0
    Built r b = Budgeted task b × (r ≡ result_of lib rt task operation success none (some v) b)

    Checked : SourceResult → Type 0
    Checked r =
        Describes task r
        × (r.status ≡ success)
        × (r.snapshot ≡ some v)
        × (r.reason ≡ none)
        × (r.complete ≡ true)

    check_result-Checked :
        (built : SourceResult)
        → Carries FailsBudgeted
            (Built built)
            (λ r b. (Budgeted task b × Counts r b) × Checked r)
            (lift (check_result lib built))
    unfolding Built Checked result_of
    check_result-Checked built = Carries-lift (check_result lib built) λ b h.
        subst
          (λ r.
            Post FailsBudgeted (λ r' b'. (Budgeted task b' × Counts r' b') × Checked r')
              (check_result lib r, b))
          (sym h.1)
          (subst
            (λ o.
              Post FailsBudgeted (λ r' b'. (Budgeted task b' × Counts r' b') × Checked r') (o, b))
            (sym (success_done b h.0))
            (
              (h.0, result_of-Counts _ _ _ b),
              (result_of-Describes _ _ _ b, refl, refl, refl, refl),
            ))

    Checked-Finished :
        (r : SourceResult) (b : Run)
        → Checked r
        → (Budgeted task b × Counts r b) × (b.elapsed < task.policy.total)
        → Finished lib task (record r { elapsed = b.elapsed }) b
    unfolding Checked
    Checked-Finished r b c h = record {
      budgeted = h.0.0;
      describes = record {
        source_is = c.0.source_is;
        selection_is = c.0.selection_is;
        resources_are = c.0.resources_are;
        policy_is = c.0.policy_is;
        idempotent_is = c.0.idempotent_is;
        synthetic_is = c.0.synthetic_is;
      };
      counts = record {
        attempts_are = h.0.1.attempts_are;
        requests_are = h.0.1.requests_are;
        waited_is = h.0.1.waited_is;
        last_error_is = h.0.1.last_error_is;
      };
      elapsed_is = refl;
      honest = record {
        positive = λ _. (
          v,
          (
            c.2,
            c.4,
            c.3,
            rw (c.0.source_is, c.0.selection_is, c.0.resources_are) valid,
            rw (c.0.resources_are, c.0.policy_is) inside,
            rw c.0.policy_is h.1,
          ),
        );
        negative = λ n. let p : is_positive r.status ≡ true = rw c.1 refl in cc;
      };
    }

    pub finish_success-Finished :
        Carries FailsBudgeted
          (Budgeted task)
          (Finished lib task)
          (finish_success lib rt task operation v)
    unfolding finish_success Built
    finish_success-Finished = Carries-bind (Carries-read {Q = Built} _ (λ b g. (g, refl))) λ built.
        Carries-bind (check_result-Checked built) λ r. Carries-given λ c.
          Carries-bind (Carries-bind (sample-Counts r) (in_time-Counts r))
            λ _. Carries-read _ (λ b h. Checked-Finished r b c h)
