-- ===== src/Discovery/Runtime.antt =====
-- database/poc/discovery_execution.py: `_Budget` and `AttemptContext`, with the clocks, the waits and
-- the jitter of `ExecutionRuntime` and the callbacks of an operation as arguments.
pub mod Rules
pub mod Keeps
use pepeuchiacluster.Prelude.{
  ℕ, zero, suc, ◌+◌, ◌-◌, Bool, true, false, ◌&&◌, ◌||◌, not, List, [], ◌∷◌, Option, none, some,
  leb, ltb, if◌then◌else◌,
}
use pepeuchiacluster.Contracts.Values.{Value}
use pepeuchiacluster.Discovery.Errors.{
  Reason, runtime, time_budget, selection, request_budget, invalid_schema, Raised, execution_error,
  Outcome, threw, done,
}
use pepeuchiacluster.Discovery.Selection.{ResourceRef, has_ref}
use pepeuchiacluster.Discovery.Policy.{SourceTask}

-- The n-th reading of each clock, `none` where it raises or is no finite number; the n-th jitter for
-- a base, `none` where it raises or `number` refuses it; and whether a wait of that length, after
-- the waits so far, comes back without an exception.
pub record ExecutionRuntime : Type 0 where
  pub monotonic : ℕ → Option ℕ
  pub wall_time : ℕ → Option ℕ
  pub jitter : ℕ → ℕ → Option ℕ
  pub sleep : List ℕ → ℕ → Bool

-- The fields of `_Budget`, the `last_error`, the calls of the runtime so far, the waits it was asked
-- for and the resources whose callback ran, each with the latest first.
pub record Run : Type 0 where
  pub attempts : ℕ
  pub requests : ℕ
  pub elapsed : ℕ
  pub waited : ℕ
  pub start : ℕ
  pub last : ℕ
  pub last_error : Option Reason
  pub readings : ℕ
  pub wall_readings : ℕ
  pub jitters : ℕ
  pub sleeps : List ℕ
  pub dispatched : List ResourceRef

-- `_Budget.__init__`, after its first reading
unfoldable pub new_run : ℕ → Run
new_run now = record {
  attempts = 0;
  requests = 0;
  elapsed = 0;
  waited = 0;
  start = now;
  last = now;
  last_error = none;
  readings = 1;
  wall_readings = 0;
  jitters = 0;
  sleeps = [];
  dispatched = [];
}

abbrev pub Action {ℓ} : Type ℓ → Type ℓ
Action A = Run → Outcome A × Run

abbrev pub continue {ℓ κ} :
    {A : Type ℓ} {B : Type κ} → Outcome A → (A → Action B) → Run → Outcome B × Run
continue (done a) next b = next a b
continue (threw e) next b = (threw e, b)

infixl 5 ◌>>=◌ ◌>>◌
unfoldable pub ◌>>=◌ {ℓ κ} : {A : Type ℓ} {B : Type κ} → Action A → (A → Action B) → Action B
◌>>=◌ m next b = let (o, b') = m b in continue o next b'

abbrev pub ◌>>◌ {ℓ κ} : {A : Type ℓ} {B : Type κ} → Action A → Action B → Action B
m >> next = m >>= λ _. next

module _ {ℓ} {A : Type ℓ} where
  unfoldable pub pure : A → Action A
  pure a b = (done a, b)

  -- `raise ExecutionError(reason)`
  unfoldable pub raise_for : Reason → Action A
  raise_for e b = (threw (execution_error e), b)

  unfoldable pub lift : Outcome A → Action A
  lift o b = (o, b)

  -- `except Exception as exc`
  unfoldable pub caught : Action A → Action (Outcome A)
  caught m b = let (o, b') = m b in (done o, b')

-- what the budget says now
unfoldable pub read {ℓ} : {A : Type ℓ} → (Run → A) → Action A
read f b = (done (f b), b)

unfoldable pub update : (Run → Run) → Action (Unit {0})
update f b = (done tt, f b)

module _ (rt : ExecutionRuntime) where
  abbrev clock_outcome : Option ℕ → Outcome ℕ
  clock_outcome none = threw (execution_error runtime)
  clock_outcome (some t) = done t

  -- `_clock`
  unfoldable pub clock : Action ℕ
  clock b = (clock_outcome (rt.monotonic b.readings), record b { readings = b.readings + 1 })

  abbrev measured : ℕ → Run → Run
  measured now b = record b { last = now; elapsed = now - b.start }

  -- `sample`: the time that remains of the total
  unfoldable pub sample : ℕ → Action ℕ
  unfolding clock ◌>>=◌
  sample total = do
    now ← clock
    (λ b.
        if ltb now b.last
        then (threw (execution_error runtime), b)
        else (done (total - (now - b.start)), measured now b))

  -- `if remaining <= 0`
  unfoldable pub in_time : ℕ → Action ℕ
  unfolding pure raise_for
  in_time zero = raise_for time_budget
  in_time (suc n) = pure (suc n)

  -- `check_time`
  unfoldable pub check_time : ℕ → Action ℕ
  unfolding sample ◌>>=◌ in_time
  check_time total = sample total >>= in_time

-- What `operation` returns: an observation with a Boolean `complete`, or anything else.
pub data Observation : Type 0 where
  observation : Value → Bool → Observation
  no_observation : Observation

-- An operation, as the calls that it makes of `request`: whether the context is this attempt's or a
-- closed one, the resource, the callback with what it gives for the time that remains, and what the
-- operation does with what `request` returns or raises.
pub data Program : Type 0 where
  returns : Observation → Program
  raises : Raised → Program
  calls : Bool → ResourceRef → (ℕ → Outcome Value) → (Outcome Value → Program) → Program

module _ (rt : ExecutionRuntime) (task : SourceTask) where
  abbrev pub dispatch : ResourceRef → Run → Run
  dispatch ref b = record b { requests = b.requests + 1; dispatched = ref ∷ b.dispatched }

  -- the callback, and the time after it
  unfoldable pub call_back : (ℕ → Outcome Value) → ℕ → Action Value
  unfolding ◌>>=◌ lift check_time pure
  call_back callback remaining = do
    answer ← lift (callback remaining)
    _ ← check_time rt task.policy.total
    pure answer

  -- `AttemptContext.request`
  unfoldable pub request : Bool → ResourceRef → (ℕ → Outcome Value) → Action Value
  unfolding ◌>>=◌ raise_for check_time read update call_back
  request active ref callback =
      if not active || not (has_ref ref task.resources) || not (has_ref ref task.policy.resources)
      then raise_for selection
      else (do
        remaining ← check_time rt task.policy.total
        made ← read (λ b. b.requests)
        if leb task.policy.max_requests made
            then raise_for request_budget
            else update (dispatch ref) >> call_back callback remaining)

  -- `task.operation(context)`
  unfoldable pub operate : Program → Action Observation
  unfolding request
  operate (returns o) b = (done o, b)
  operate (raises e) b = (threw e, b)
  operate (calls active ref callback next) b =
      let (o, b') = request active ref callback b in operate (next o) b'
