-- ===== src/Discovery/Runtime/Keeps.antt =====
-- What holds of a run of database/poc/discovery_execution.py between two of its steps, and what
-- its steps leave of it.
use pepeuchiacluster.Prelude.{
  ℕ, zero, suc, ◌-◌, ◌≤◌, ◌<◌, ◌≡◌, refl, Bool, true, false, ◌||◌, not, leb, length, All, arith,
}
use pepeuchiacluster.Contracts.Values.{Value}
use pepeuchiacluster.Discovery.Errors.{Raised, Outcome, threw, done}
use pepeuchiacluster.Discovery.Selection.{ResourceRef, has_ref}
use pepeuchiacluster.Discovery.Policy.{SourceTask}
use pepeuchiacluster.Discovery.Runtime.Rules.{
  Post, IsExecution, Carries, Carries-bind, Carries-weaken, Carries-lift, Carries-pure,
  Carries-raise_for, Carries-read, Carries-update, Carries-if,
}
use pepeuchiacluster.Discovery.Runtime.{
  ExecutionRuntime, Run, Action, dispatch, ◌>>=◌, lift, clock, sample, in_time, check_time, Program,
  returns, raises, calls, call_back, request, operate,
}

-- A resource that the task plans and its policy allows.
abbrev pub IsAllowed : SourceTask → ResourceRef → Type 0
IsAllowed task ref =
    (has_ref ref task.resources ≡ true) × (has_ref ref task.policy.resources ≡ true)

-- The budgets of a task, after k attempts.
pub record Within (task : SourceTask) (k : ℕ) (b : Run) : Type 0 where
  pub attempts_are : b.attempts ≡ k
  pub requests_bound : b.requests ≤ task.policy.max_requests
  pub clock_ordered : b.start ≤ b.last
  pub elapsed_is : b.elapsed ≡ b.last - b.start
  pub waited_bound : b.waited ≤ b.elapsed
  pub all_counted : length b.dispatched ≡ b.requests
  pub all_allowed : All (IsAllowed task) b.dispatched
  pub sleeps_bound : All (λ d. d ≤ task.policy.max_delay) b.sleeps

module _ (rt : ExecutionRuntime) (task : SourceTask) (k : ℕ) where
  -- an exception that leaves the budgets: an `ExecutionError`
  abbrev pub Fails : Raised → Run → Type 0
  Fails e b = IsExecution e × Within task k b

  -- any exception that leaves the budgets
  abbrev pub Breaks : Raised → Run → Type 0
  Breaks e b = Within task k b

  -- the time that remains is what was asked
  abbrev pub Measured : ℕ → Run → Type 0
  Measured remaining b = Within task k b × (remaining ≡ task.policy.total - b.elapsed)

  -- what was waited was so before the reading `before`, which is not later than the last one
  pub record Waiting (before : ℕ) (b : Run) : Type 0 where
    pub within : Within task k b
    pub started : b.start ≤ before
    pub not_later : before ≤ b.last
    pub waited_before : b.waited ≤ before - b.start

  pub sample-Waiting :
      (before : ℕ)
      → Carries Fails (Waiting before) (λ n. Waiting before) (sample rt task.policy.total)
  unfolding sample clock ◌>>=◌
  sample-Waiting before = record { at_run = λ b i. ground arith }

  pub sample-Measured : Carries Fails (Within task k) Measured (sample rt task.policy.total)
  unfolding sample clock ◌>>=◌
  sample-Measured = record { at_run = λ b w. ground arith }

  in_time-Measured :
      (n : ℕ)
      → Carries Fails
          (Measured n)
          (λ m b. Measured m b × (b.elapsed < task.policy.total))
          (in_time rt n)
  unfolding in_time
  in_time-Measured zero = Carries-raise_for _ (λ b h. (tt, h.0))
  in_time-Measured (suc m) = Carries-pure (suc m) (λ b h. (h, omega arith))

  pub check_time-Measured :
      Carries Fails
        (Within task k)
        (λ n b. Measured n b × (b.elapsed < task.policy.total))
        (check_time rt task.policy.total)
  unfolding check_time
  check_time-Measured = Carries-bind sample-Measured in_time-Measured

  -- inside an attempt every step leaves the budgets, whether it raises or not
  abbrev pub Stays {ℓ} : {A : Type ℓ} → Action A → Type 0
  Stays = Carries Breaks (Within task k) (λ _. Within task k)

  pub check_time-Stays : Stays (check_time rt task.policy.total)
  check_time-Stays = Carries-weaken check_time-Measured (λ b w. w) (λ e b h. h.1) (λ n b h. h.0.0)

  pub lift-Stays {ℓ} : {A : Type ℓ} (o : Outcome A) → Stays (lift o)
  lift-Stays (threw e) = Carries-lift (threw e) (λ b w. w)
  lift-Stays (done a) = Carries-lift (done a) (λ b w. w)

  call_back-Stays : (callback : ℕ → Outcome Value) (n : ℕ) → Stays (call_back rt task callback n)
  unfolding call_back
  call_back-Stays callback n =
      Carries-bind (lift-Stays (callback n))
        λ v. Carries-bind check_time-Stays λ m. Carries-pure v (λ b w. w)

  planned_allowed : (a b c : Bool) → (not a || not b || not c) ≡ false → (b ≡ true) × (c ≡ true)
  planned_allowed a b c e = ground arith

  dispatched-Within :
      (ref : ResourceRef) (made : ℕ) (b : Run)
      → IsAllowed task ref
      → leb task.policy.max_requests made ≡ false
      → Within task k b × (b.requests ≡ made)
      → Within task k (dispatch rt task ref b)
  dispatched-Within ref made b allowed more h = record {
    attempts_are = h.0.attempts_are;
    requests_bound = ground arith;
    clock_ordered = h.0.clock_ordered;
    elapsed_is = h.0.elapsed_is;
    waited_bound = h.0.waited_bound;
    all_counted = ground arith;
    all_allowed = (allowed, h.0.all_allowed);
    sleeps_bound = h.0.sleeps_bound;
  }

  request-Stays :
      (active : Bool) (ref : ResourceRef) (callback : ℕ → Outcome Value)
      → Stays (request rt task active ref callback)
  unfolding request
  request-Stays active ref callback =
      Carries-if _ (λ refused. Carries-raise_for _ (λ b w. w))
        λ planned. Carries-bind check_time-Stays λ n.
          Carries-bind
            (Carries-read {Q = λ made b. Within task k b × (b.requests ≡ made)} _
              (λ b w. (w, refl)))
            λ made.
              Carries-if _ (λ spent. Carries-raise_for _ (λ b h. h.0))
                λ more.
                  Carries-bind
                    (Carries-update (dispatch rt task ref)
                      (λ b. dispatched-Within ref made b (planned_allowed active _ _ planned) more))
                    λ _. call_back-Stays callback n

  pub stays_within {ℓ} :
      {A : Type ℓ} (o : Outcome A) (b : Run)
      → Post Breaks (λ _. Within task k) (o, b)
      → Within task k b
  stays_within (threw e) b h = h
  stays_within (done a) b h = h

  pub operate-Stays : (p : Program) → Stays (operate rt task p)
  unfolding operate
  operate-Stays (returns o) = record { at_run = λ b w. w }
  operate-Stays (raises e) = record { at_run = λ b w. w }
  operate-Stays (calls active ref callback next) = record {
    at_run = λ b w.
        let (o, b') = request rt task active ref callback b in
        (operate-Stays (next o)).at_run b'
          (stays_within o b' ((request-Stays active ref callback).at_run b w));
  }
