-- ===== src/Discovery/Execute/Prompt.antt =====
-- The success of database/poc/discovery_execution.py, `execute_source`, where the clock, the requests
-- and the observation are good.
pub mod Success
use pepeuchiacluster.Prelude.{
  ℕ, zero, suc, ◌+◌, ◌-◌, ◌≤◌, ◌<◌, ◌≡◌, refl, sym, ap, ◌∙◌, subst, Bool, true, false, ◌||◌, not,
  some, leb, ltb, arith, Option, none, if◌then◌else◌,
}
use pepeuchiacluster.Contracts.Values.{Value}
use pepeuchiacluster.Discovery.Errors.{
  Status, success, selection, request_budget, Raised, Outcome, threw, done,
}
use pepeuchiacluster.Discovery.Errors.Gives.{Gives}
use pepeuchiacluster.Discovery.Metadata.{Library}
use pepeuchiacluster.Discovery.Selection.{ResourceRef, has_ref}
use pepeuchiacluster.Discovery.Policy.{
  SourceTask, SourceResult, refs_within, validate_observation, check_task, check_result,
}
use pepeuchiacluster.Discovery.Policy.Rechecked.{IsPlanned, check_task-IsPlanned, checked_again}
use pepeuchiacluster.Discovery.Runtime.{
  ExecutionRuntime, Run, new_run, Action, Observation, observation, no_observation, Program,
  returns, raises, calls, ◌>>=◌, pure, raise_for, lift, read, update, caught, dispatch, clock,
  sample, in_time, check_time, call_back, request, operate,
}
use pepeuchiacluster.Discovery.Runtime.Rules.{
  Post, Carries, Carries-bind, Carries-weaken, Carries-given, Carries-lift, Carries-pure,
  Carries-read, Carries-update, Carries-if,
}
use pepeuchiacluster.Discovery.Runtime.Keeps.{Within, IsAllowed}
use pepeuchiacluster.Discovery.Execute.{
  finish_success, checked_observation, attempt, after_attempt, turn, again, while_left, loop,
  body_if, body, handled, run_from, run_source, execute_own, execute_source, result_of,
}

-- The clock never raises nor goes back, and stays within a total time.
pub record IsSteady (rt : ExecutionRuntime) (total : ℕ) (time : ℕ → ℕ) : Type 0 where
  pub reads : (n : ℕ) → rt.monotonic n ≡ some (time n)
  pub forward : (n : ℕ) → time n ≤ time (n + 1)
  pub in_total : (n : ℕ) → time n < time 0 + total

-- A program that makes at most n requests of its context, each for a resource that is allowed and
-- with a callback that gives an answer, and then returns a complete observation that is valid.
abbrev pub IsHealthy : Library → SourceTask → ℕ → Program → Type 0
IsHealthy lib t n (returns (observation v true)) =
    validate_observation lib t.source t.selection t.resources v ≡ done v
IsHealthy lib t (suc n) (calls true ref callback next) =
    IsAllowed t ref
    × ((left : ℕ) → (a : Value) × (callback left ≡ done a))
    × ((a : Value) → IsHealthy lib t n (next (done a)))
IsHealthy lib t _ _ = ⊥

not_both : (b : Bool) → b ≡ true → b ≡ false → ⊥
not_both b p q = ground arith

leb-false : (a b : ℕ) → b < a → leb a b ≡ false
leb-false a b h = ground arith

module _ (lib : Library) (rt : ExecutionRuntime) (task : SourceTask) (operation : ℕ → Program)
    (time : ℕ → ℕ) (steady : IsSteady rt task.policy.total time) where
  open task use {policy}

  -- nothing is raised
  abbrev pub Never : Raised → Run → Type 0
  Never e b = ⊥

  pub record Timely (k : ℕ) (b : Run) : Type 0 where
    pub within : Within task k b
    pub start_is : b.start ≡ time 0
    pub last_before : b.last ≤ time b.readings

  -- the requests that are left
  abbrev pub Left : ℕ → ℕ → Run → Type 0
  Left k n b = Timely k b × (b.requests + n ≤ policy.max_requests)

  sample-Left :
      (k n : ℕ) → Carries Never (Left k n) (λ m b. Left k n b × (0 < m)) (sample rt policy.total)
  unfolding sample clock ◌>>=◌
  sample-Left k n = record {
    at_run = λ b h. rw (steady.reads b.readings) (
        let forward_ = steady.forward b.readings in
        let in_total_ = steady.in_total b.readings in ground arith);
  }

  in_time-Left :
      (k n m : ℕ) → Carries Never (λ b. Left k n b × (0 < m)) (λ _. Left k n) (in_time rt m)
  unfolding in_time
  in_time-Left k n zero = record { at_run = λ b h. omega arith }
  in_time-Left k n (suc m) = Carries-pure (suc m) (λ b h. h.0)

  pub check_time-Left :
      (k n : ℕ) → Carries Never (Left k n) (λ _. Left k n) (check_time rt policy.total)
  unfolding check_time
  check_time-Left k n = Carries-bind (sample-Left k n) (in_time-Left k n)

  call_back-Left :
      (k n : ℕ) (callback : ℕ → Outcome Value) (left : ℕ)
      → ((m : ℕ) → (a : Value) × (callback m ≡ done a))
      → Carries Never (Left k n) (λ _. Left k n) (call_back rt task callback left)
  unfolding call_back
  call_back-Left k n callback left answers =
      let (a, answered) = answers left in
      Carries-bind {Q = λ _. Left k n} (rw answered (Carries-lift (done a) (λ b h. h)))
        λ v. Carries-bind (check_time-Left k n) λ _. Carries-pure v (λ b h. h)

  planned_test :
      (ref : ResourceRef)
      → IsAllowed task ref
      → (not true || not (has_ref ref task.resources) || not (has_ref ref policy.resources)) ≡ false
  planned_test ref h = rw (h.0, h.1) refl

  dispatch-Left :
      (k n : ℕ) (ref : ResourceRef) (b : Run)
      → IsAllowed task ref
      → Left k (suc n) b
      → Left k n (dispatch rt task ref b)
  dispatch-Left k n ref b allowed h = (
    record {
      within = record {
        attempts_are = h.0.within.attempts_are;
        requests_bound = ground arith;
        clock_ordered = h.0.within.clock_ordered;
        elapsed_is = h.0.within.elapsed_is;
        waited_bound = h.0.within.waited_bound;
        all_counted = let counted = h.0.within.all_counted in omega arith;
        all_allowed = (allowed, h.0.within.all_allowed);
        sleeps_bound = h.0.within.sleeps_bound;
      };
      start_is = h.0.start_is;
      last_before = h.0.last_before;
    },
    ground arith,
  )

  request-Left :
      (k n : ℕ) (ref : ResourceRef) (callback : ℕ → Outcome Value)
      → IsAllowed task ref
      → ((m : ℕ) → (a : Value) × (callback m ≡ done a))
      → Carries Never (Left k (suc n)) (λ _. Left k n) (request rt task true ref callback)
  unfolding request
  request-Left k n ref callback allowed answers =
      Carries-if
        (not true || not (has_ref ref task.resources) || not (has_ref ref policy.resources))
        (λ refused. absurd (not_both _ refused (planned_test ref allowed)))
        λ planned. Carries-bind (check_time-Left k (suc n)) λ left.
          Carries-bind
            (Carries-read {Q = λ made b. Left k (suc n) b × (made < policy.max_requests)}
              (λ b. b.requests) (λ b h. (h, ground arith)))
            λ made. Carries-given λ less.
              Carries-if {m = raise_for request_budget} (leb policy.max_requests made)
                (λ spent. absurd (not_both _ spent (leb-false _ _ less)))
                λ _.
                  Carries-bind
                    (Carries-update {Q = λ _. Left k n} (dispatch rt task ref)
                      (λ b h. dispatch-Left k n ref b allowed h))
                    λ _. call_back-Left k n callback left answers

  -- The observation of a program that is healthy.
  abbrev pub IsGood : Observation → Type 0
  IsGood (observation v true) =
      validate_observation lib task.source task.selection task.resources v ≡ done v
  IsGood _ = ⊥

  answered-Left :
      (k n : ℕ) (o : Outcome Value) (b : Run) (next : Outcome Value → Program)
      → Post Never (λ _. Left k n) (o, b)
      → ((a : Value)
          → Carries Never
              (Left k n)
              (λ g b'. Left k 0 b' × IsGood g)
              (operate rt task (next (done a))))
      → Post Never (λ g b'. Left k 0 b' × IsGood g) (operate rt task (next o) b)
  answered-Left k n (threw e) b next h then_ = absurd h
  answered-Left k n (done a) b next h then_ = (then_ a).at_run b h

  pub operate-Left :
      (k n : ℕ) (p : Program)
      → IsHealthy lib task n p
      → Carries Never (Left k n) (λ g b. Left k 0 b × IsGood g) (operate rt task p)
  unfolding operate
  operate-Left k n (returns (observation v true)) h = record {
    at_run = λ b l. ((l.0, ground arith), h);
  }
  operate-Left k (suc n) (calls true ref callback next) h = record {
    at_run = λ b l.
        answered-Left k n (request rt task true ref callback b).0
          (request rt task true ref callback b).1 next
          ((request-Left k n ref callback h.0 h.1).at_run b l)
          (λ a. operate-Left k n (next (done a)) (h.2 a));
  }
  operate-Left k _ _ h = absurd h
