-- ===== src/Discovery/Waiting.antt =====
-- database/poc/discovery_execution.py: what follows an error of an attempt in `execute_source`, the wait
-- before the next one, and the reasons to have none.
use pepeuchiacluster.Prelude.{
  ℕ, ◌+◌, ◌-◌, min, max, Bool, true, false, ◌||◌, not, ◌∷◌, Option, none, some, leb, ltb, ◌==◌,
  if◌then◌else◌,
}
use pepeuchiacluster.Discovery.Errors.{
  Status, deferred, failed, Reason, runtime, request_budget, attempt_budget, time_budget,
  retry_after_budget, delay_limit, wait_interrupted, retry_after_extreme, execution_error, Outcome,
  threw, done, ClassifiedError, RetryAfter, not_before, legacy_date,
}
use pepeuchiacluster.Discovery.Metadata.{Library}
use pepeuchiacluster.Discovery.Policy.{SourceTask}
use pepeuchiacluster.Discovery.Delays.{Wait, wait, refused, backoff_delay, server_delay}
use pepeuchiacluster.Discovery.Runtime.{
  ExecutionRuntime, Run, Action, ◌>>=◌, pure, raise_for, read, update, sample, check_time, Program,
}

-- How an execution ends without a snapshot.
pub data Ending : Type 0 where
  defer : Reason → Ending
  fail : Reason → Ending

abbrev pub ending_status : Ending → Status
ending_status (defer e) = deferred
ending_status (fail e) = failed

abbrev pub ending_reason : Ending → Reason
ending_reason (defer e) = e
ending_reason (fail e) = e

abbrev pub deferring : Reason → Option Ending
deferring e = some (defer e)

abbrev pub failing : Reason → Option Ending
failing e = some (fail e)

-- `error.reason in (REQUEST_BUDGET, TIME_BUDGET)`
abbrev spends_budget : Reason → Bool
spends_budget request_budget = true
spends_budget time_budget = true
spends_budget _ = false

-- `exc.reason in (TIME_BUDGET, RETRY_AFTER_EXTREME)`
abbrev pub defers : Reason → Bool
defers time_budget = true
defers retry_after_extreme = true
defers _ = false

-- the rest, unless the execution ends here
unfoldable pub unless : Option Ending → Action (Option Ending) → Action (Option Ending)
unless (some e) rest b = (done (some e), b)
unless none rest b = rest b

abbrev pub reads_wall_time : Option RetryAfter → Bool
reads_wall_time (some (not_before t)) = true
reads_wall_time (some (legacy_date d)) = true
reads_wall_time _ = false

abbrev pub wait_outcome : Wait → Outcome ℕ
wait_outcome (wait n) = done n
wait_outcome (refused e) = threw (execution_error e)

abbrev pub number_outcome : Option ℕ → Outcome ℕ
number_outcome none = threw (execution_error runtime)
number_outcome (some n) = done n

module _ (lib : Library) (rt : ExecutionRuntime) (task : SourceTask) (operation : ℕ → Program) where
  open task use {policy}

  -- The returns before a wait is planned.
  unfoldable pub no_retry : ClassifiedError → ℕ → Run → Option Ending
  no_retry e remaining b =
      if spends_budget e.reason
      then deferring e.reason
      else if not e.retryable || not task.idempotent
      then failing e.reason
      else if remaining == 0
      then deferring time_budget
      else if leb policy.max_requests b.requests
      then deferring request_budget
      else if leb policy.max_attempts b.attempts
      then deferring attempt_budget
      else none

  unfoldable pub too_long : ℕ → ℕ → Option Ending
  too_long server remaining =
      if leb remaining server
      then deferring retry_after_budget
      else if ltb policy.max_delay server
      then deferring delay_limit
      else none

  -- `_server_delay`, with the wall clock's next reading
  unfoldable pub asked_delay : Option RetryAfter → Action ℕ
  unfolding server_delay
  asked_delay answer b = (
    wait_outcome (server_delay answer (rt.wall_time b.wall_readings)),
    (if reads_wall_time answer then record b { wall_readings = b.wall_readings + 1 } else b),
  )

  -- `number(runtime.jitter(base))`
  unfoldable pub jitter_for : ℕ → Action ℕ
  jitter_for base b =
      (number_outcome (rt.jitter b.jitters base), record b { jitters = b.jitters + 1 })

  abbrev pub waited_since : ℕ → Run → Run
  waited_since before b = record b { waited = b.waited + (b.last - before) }

  -- `runtime.sleep(delay)`: whether it comes back without an exception
  unfoldable pub sleep_once : ℕ → Action Bool
  sleep_once delay b = (done (rt.sleep b.sleeps delay), record b { sleeps = delay ∷ b.sleeps })

  unfoldable pub after_sleep : ℕ → Bool → Action (Unit {0})
  unfolding sample update raise_for pure ◌>>=◌
  after_sleep before true = pure tt
  after_sleep before false = do
    _ ← sample rt policy.total
    _ ← update (waited_since before)
    raise_for runtime

  -- the wait, and what follows an exception of it
  unfoldable pub sleep_for : ℕ → ℕ → Action (Unit {0})
  unfolding sleep_once after_sleep ◌>>=◌
  sleep_for delay before = sleep_once delay >>= after_sleep before

  unfoldable pub after_wait : ℕ → ℕ → ℕ → Run → Option Ending
  after_wait delay before remaining b =
      if remaining == 0
      then deferring time_budget
      else if ltb (b.last - before) delay
      then deferring wait_interrupted
      else none

  -- from `before = budget.last` on
  unfoldable pub wait_out : ℕ → Action (Option Ending)
  unfolding sleep_for sample update read pure after_wait ◌>>=◌
  wait_out delay = do
    before ← read (λ b. b.last)
    _ ← if delay == 0 then pure tt else sleep_for delay before
    remaining ← sample rt policy.total
    _ ← if delay == 0 then pure tt else update (waited_since before)
    read (after_wait delay before remaining)

  -- the delay: the server's, or the local one with its jitter
  abbrev pub delay_of : ℕ → ℕ → ℕ → ℕ
  delay_of server base extra = max server (base + min extra (policy.max_delay - base))

  -- The returns before the wait begins.
  unfoldable pub no_time : ℕ → ℕ → ℕ → Option Ending
  no_time server delay remaining =
      if leb remaining server
      then deferring retry_after_budget
      else if leb remaining delay
      then deferring time_budget
      else none

  unfoldable pub plan_wait : ℕ → Action (Option Ending)
  unfolding backoff_delay jitter_for check_time read no_time wait_out unless ◌>>=◌
  plan_wait server = do
    base ← read (λ b. backoff_delay policy.max_delay policy.backoff b.attempts)
    extra ← jitter_for base
    remaining ← check_time rt policy.total
    unless (no_time server (delay_of server base extra) remaining)
        (wait_out (delay_of server base extra))

  -- what follows an attempt's exception: how the execution ends, or `none` for another attempt
  unfoldable pub after_error : ClassifiedError → Action (Option Ending)
  unfolding sample update read no_retry asked_delay too_long plan_wait unless ◌>>=◌
  after_error e = do
    _ ← update (λ b. record b { last_error = some e.reason })
    remaining ← sample rt policy.total
    stop ← read (no_retry e remaining)
    unless stop (do
      server ← asked_delay e.retry_after
      unless (too_long server remaining) (plan_wait server))
