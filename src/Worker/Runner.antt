-- ===== src/Worker/Runner.antt =====
-- pepeuch_worker/runner.py, `IndependentRunner.run_once`, on the effects of Machine.
use pepeuchiacluster.Prelude.{
  Bool, true, false, ◌&&◌, ◌||◌, not, String, same, [], Option, none, some, if◌then◌else◌,
}
use pepeuchiacluster.Contracts.{Result, ok, refuse, ◌>>=◌ as and_then}
use pepeuchiacluster.Contracts.Values.{Value, null}
use pepeuchiacluster.Contracts.Lifecycle.{State, cancelled, failed, interrupted, state_name}
use pepeuchiacluster.Contracts.Outcomes.{ExecutionResult, from_dict, to_dict}
use pepeuchiacluster.Worker.Requests.{
  Request, check_request, check_state, check_acknowledgement, claimed_request,
}
use pepeuchiacluster.Worker.Machine.{
  claim, state_of, finish, produced, keyboard, refused, Surroundings, Journal, Action, ◌>>=◌, ◌>>◌,
  pure, raise, lift, save, draw, call, isolation, start, load,
}

module _ (s : Surroundings) where
  open s use {config}

  -- the journal is another worker's
  abbrev is_foreign : Journal → Bool
  is_foreign j = not (same j.worker_id config.worker_id)

  abbrev is_stale : Journal → Bool
  is_stale j =
      not (same j.credential_sha256 config.fingerprint)
      || not (same j.backend_url config.backend_url)

  -- The checks on a journal, and whether it is pending.
  unfoldable pub is_pending : Option Journal → Result Bool
  is_pending none = ok false
  is_pending (some j) =
      if is_foreign j
      then refuse "worker_journal_identity_mismatch"
      else if not (s.is_uuid j.claim_id)
      then refuse "invalid_operation_id"
      else if not j.is_done && is_stale j
      then refuse "worker_journal_identity_mismatch"
      else ok (not j.is_done)

  -- `_state`
  unfoldable pub fetch_state : Request → Action String
  unfolding call check_state lift ◌>>=◌
  fetch_state request = do
    reply ← call s (state_of request.attempt_id)
    lift (check_state request reply)

  unfoldable pub new_journal : String → Journal
  new_journal id = record {
    worker_id = config.worker_id;
    backend_url = config.backend_url;
    credential_sha256 = config.fingerprint;
    claim_id = id;
    request = none;
    result = none;
    is_done = false;
  }

  abbrev result_of : Request → State → Option String → ExecutionResult
  result_of request state code = record {
    attempt_id = request.attempt_id;
    generation = request.generation;
    status = state;
    outputs = [];
    error_code = code;
  }

  -- the result of an execution that is started now
  unfoldable pub run_task : Journal → Request → Action ExecutionResult
  unfolding isolation start pure ◌>>=◌
  run_task j request = do
    isolation s
    e ← start s j.claim_id request.document
    pure (elim e [
      | produced r ↦ r
      | keyboard ↦ result_of request interrupted (some "cpu_interrupted")
      | refused ↦ result_of request failed (some "cpu_execution_failed")
    ])

  -- a result that the journal has
  unfoldable pub recorded_result : Request → Value → Result ExecutionResult
  recorded_result request document = and_then (from_dict document) (λ r.
      if same r.attempt_id request.attempt_id && same r.generation request.generation
      then ok r
      else refuse "worker_journal_attempt_mismatch")

  -- the result, when no cancellation is requested
  unfoldable pub own_result : Bool → Journal → Request → Option Value → Action ExecutionResult
  unfolding lift recorded_result pure run_task
  own_result pending j request (some document) = lift (recorded_result request document)
  own_result true j request none = pure (result_of request interrupted (some "cpu_interrupted"))
  own_result false j request none = run_task j request

  unfoldable pub find_result : Bool → Bool → Journal → Request → Action ExecutionResult
  unfolding own_result pure
  find_result true pending j request = pure (result_of request cancelled none)
  find_result false pending j request = own_result pending j request j.result

  unfoldable pub close : Journal → String → Action String
  unfolding save pure ◌>>=◌
  close j answer = do save s (record j { is_done = true }); pure answer

  abbrev is_live : String → Bool
  is_live state = same state "running" || same state "cancel_requested"

  -- the journal with a result
  abbrev pub with_result : Journal → ExecutionResult → Journal
  with_result j r = record j { result = some (to_dict r) }

  -- the result that is published: a late cancellation replaces it, in the journal too
  unfoldable pub settle_if : Bool → Journal → Request → ExecutionResult → Action ExecutionResult
  unfolding save pure ◌>>=◌
  settle_if false j request r = pure r
  settle_if true j request r = do
    save s (with_result j (result_of request cancelled none))
    pure (result_of request cancelled none)

  unfoldable pub observe_state :
      String → Journal → Request → ExecutionResult → Action ExecutionResult
  unfolding settle_if
  observe_state state j request r =
      settle_if (same state "cancel_requested" && not (same (state_name r.status) "cancelled")) j
        request r

  unfoldable pub submit : Journal → Request → ExecutionResult → Action String
  unfolding isolation call lift check_acknowledgement close ◌>>=◌
  submit j request r = do
    isolation s
    reply ← call s (finish request.attempt_id (to_dict r))
    lift (check_acknowledgement request reply)
    close (with_result j r) (state_name r.status)

  -- what follows the second look at the state
  unfoldable pub deliver_if : Bool → String → Journal → Request → ExecutionResult → Action String
  unfolding close observe_state submit ◌>>=◌
  deliver_if true state j request r = observe_state state j request r >>= submit j request
  deliver_if false state j request r = close j state

  -- from the second look at the state on
  unfoldable pub deliver : Journal → Request → ExecutionResult → Action String
  unfolding fetch_state deliver_if ◌>>=◌
  deliver j request r = do state ← fetch_state request; deliver_if (is_live state) state j request r

  -- what follows the first look at the state
  unfoldable pub complete_task : Bool → Bool → Journal → Request → String → Action String
  unfolding close find_result save deliver ◌>>=◌
  complete_task false pending j request state = close j state
  complete_task true pending j request state = do
    r ← find_result (same state "cancel_requested") pending j request
    save s (with_result j r)
    deliver (with_result j r) request r

  -- from the request of the journal on
  unfoldable pub follow_request : Bool → Journal → Value → Action String
  unfolding lift check_request fetch_state complete_task ◌>>=◌
  follow_request pending j document = do
    request ← lift (check_request s.instants config.worker_id document)
    state ← fetch_state request
    complete_task (is_live state) pending j request state

  -- a claim that gives a request
  unfoldable pub take_given : Bool → Journal → Value → Action String
  unfolding lift check_request save follow_request ◌>>=◌
  take_given pending j document = do
    _ ← lift (check_request s.instants config.worker_id document)
    save s (record j { request = some document })
    follow_request pending (record j { request = some document }) document

  unfoldable pub take_request : Bool → Journal → Value → Action String
  unfolding close take_given
  take_request pending j null = close j "idle"
  take_request pending j document = take_given pending j document

  unfoldable pub continue_with : Bool → Journal → Option Value → Action String
  unfolding call lift claimed_request take_request follow_request ◌>>=◌
  continue_with pending j (some document) = follow_request pending j document
  continue_with pending j none = do
    reply ← call s (claim j.claim_id)
    document ← lift (claimed_request reply)
    take_request pending j document

  -- the branches on `pending` and `recover`
  unfoldable pub begin : Bool → Bool → Option Journal → Action String
  unfolding raise pure draw save new_journal continue_with ◌>>=◌
  begin true false j = raise "explicit_worker_recovery_required" 409
  begin true true none = pure "nothing_to_recover"
  begin true true (some j) = continue_with true j j.request
  begin false true j = pure "nothing_to_recover"
  begin false false j = do
    id ← draw s
    save s (new_journal id)
    continue_with false (new_journal id) none

  -- `run_once`, with `recover`
  unfoldable pub run_once : Bool → Action String
  unfolding isolation load lift is_pending begin ◌>>=◌
  run_once recover = do
    isolation s
    j ← load s
    pending ← lift (is_pending j)
    begin pending recover j
