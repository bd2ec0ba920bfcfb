-- ===== src/Discovery/Errors.antt =====
-- database/poc/execution_models.py, `Status` and `Reason`; database/poc/retry_after.py, `RetryAfter`;
-- database/poc/discovery_execution.py, `classify_error`: the exceptions, and what they become.
pub mod Gives
pub mod Transient
use pepeuchiacluster.Prelude.{
  ℕ, Bool, true, false, ◌&&◌, ◌||◌, not, String, same, List, [], ◌∷◌, Option, none, some, any, leb,
  ltb, ◌==◌, if◌then◌else◌,
}

pub data Status : Type 0 where
  success unchanged deferred failed : Status

pub data Reason : Type 0 where
  authentication forbidden target_unavailable nim_tag_unavailable quota provider : Reason
  http_error redirect cache_required timeout connection invalid_json invalid_schema : Reason
  identity selection incomplete request_budget attempt_budget time_budget : Reason
  retry_after_budget retry_after_extreme delay_limit wait_interrupted runtime unexpected : Reason

-- `status.value`
abbrev pub status_value : Status → String
status_value success = "success"
status_value unchanged = "unchanged"
status_value deferred = "deferred"
status_value failed = "failed"

-- `reason.value`
abbrev pub reason_value : Reason → String
reason_value authentication = "authentication_refused"
reason_value forbidden = "access_forbidden"
reason_value target_unavailable = "target_unavailable"
reason_value nim_tag_unavailable = "metadata_unavailable_for_tag"
reason_value quota = "temporary_quota"
reason_value provider = "temporary_provider_error"
reason_value http_error = "http_error"
reason_value redirect = "redirect_rejected"
reason_value cache_required = "validated_cache_required"
reason_value timeout = "timeout"
reason_value connection = "connection_interrupted"
reason_value invalid_json = "invalid_json_or_response"
reason_value invalid_schema = "invalid_schema"
reason_value identity = "identity_mismatch"
reason_value selection = "selection_forbidden"
reason_value incomplete = "selection_incomplete"
reason_value request_budget = "request_budget_exhausted"
reason_value attempt_budget = "attempt_budget_exhausted"
reason_value time_budget = "time_budget_exhausted"
reason_value retry_after_budget = "retry_after_exceeds_time_budget"
reason_value retry_after_extreme = "retry_after_excessive"
reason_value delay_limit = "retry_delay_exceeds_policy"
reason_value wait_interrupted = "retry_wait_interrupted"
reason_value runtime = "invalid_execution_runtime"
reason_value unexpected = "unexpected_error"

-- `reason == Reason.TIME_BUDGET`
abbrev pub is_time_budget : Reason → Bool
is_time_budget Reason.time_budget = true
is_time_budget _ = false

-- `legacy_date`: yy, month, day, hour, minute, second, weekday
pub record LegacyDate : Type 0 where
  pub yy : ℕ
  pub month : ℕ
  pub day : ℕ
  pub hour : ℕ
  pub minute : ℕ
  pub second : ℕ
  pub weekday : ℕ

-- One normalized value, as the constructor's check has it: seconds, an instant in microseconds of
-- 1970, a date whose century is open, or an excessive number.
pub data RetryAfter : Type 0 where
  seconds : ℕ → RetryAfter
  not_before : ℕ → RetryAfter
  legacy_date : LegacyDate → RetryAfter
  excessive : RetryAfter

-- The exceptions that are told apart. An `HTTPError` has its code, `none` where that is not an
-- integer, and what its header's reading gave: `none` where the reading raises or has another type.
-- An `URLError` says whether its reason is a `TimeoutError`.
pub data Raised : Type 0 where
  execution_error : Reason → Raised
  http_status : Option ℕ → Option (Option RetryAfter) → Raised
  timeout_error : Raised
  url_error : Bool → Raised
  network_error connection_error incomplete_read : Raised
  response_error decode_error unicode_error : Raised
  value_error type_error key_error : Raised
  other_error : Raised

-- What a function that may raise returns.
pub data Outcome {ℓ} (A : Type ℓ) : Type ℓ where
  threw : Raised → Outcome A
  done : A → Outcome A

infixl 5 ◌>>=◌ ◌>>◌
unfoldable pub ◌>>=◌ {ℓ κ} : {A : Type ℓ} {B : Type κ} → Outcome A → (A → Outcome B) → Outcome B
threw e >>= next = threw e
done a >>= next = next a

abbrev pub ◌>>◌ {ℓ} : {B : Type ℓ} → Outcome (Unit {0}) → Outcome B → Outcome B
check >> next = check >>= λ _. next

-- `if not test: raise ValueError(...)`
abbrev pub require : Bool → Outcome (Unit {0})
require true = done tt
require false = threw value_error

-- `if not test: raise ExecutionError(reason)`
abbrev pub require_for : Bool → Reason → Outcome (Unit {0})
require_for true e = done tt
require_for false e = threw (execution_error e)

pub record ClassifiedError : Type 0 where
  pub reason : Reason
  pub retryable : Bool
  pub retry_after : Option RetryAfter

abbrev pub classified : Reason → Bool → ClassifiedError
classified e b = record { reason = e; retryable = b; retry_after = none }

-- the reason of a status: the dictionary, then its default
unfoldable pub status_reason : String → ℕ → Reason
status_reason source code =
    if code == 401
    then authentication
    else if code == 403
    then forbidden
    else if code == 404
    then (if same source "nvidia-nim-metadata" then nim_tag_unavailable else target_unavailable)
    else if code == 429
    then quota
    else if code == 304
    then cache_required
    else if any (λ c. code == c) (500 ∷ 502 ∷ 503 ∷ 504 ∷ [])
    then provider
    else if leb 300 code && ltb code 400
    then redirect
    else http_error

-- the branch of an `HTTPError`
unfoldable pub classify_status :
    String → List ℕ → Option ℕ → Option (Option RetryAfter) → ClassifiedError
unfolding status_reason
classify_status source statuses none header = classified invalid_schema false
classify_status source statuses (some code) none = classified invalid_schema false
classify_status source statuses (some code) (some header) =
    if leb 100 code && leb code 599
    then record {
      reason = status_reason source code;
      retryable = any (λ c. code == c) statuses;
      retry_after = header;
    }
    else classified invalid_schema false

-- `classify_error`: the policy's part in it is its retried statuses and its `retry_transport_errors`
unfoldable pub classify_error : String → List ℕ → Bool → Raised → ClassifiedError
unfolding classify_status
classify_error source statuses transport (execution_error e) = classified e false
classify_error source statuses transport (http_status code header) =
    classify_status source statuses code header
classify_error source statuses transport timeout_error = classified timeout transport
classify_error source statuses transport (url_error true) = classified timeout transport
classify_error source statuses transport (url_error false) = classified connection transport
classify_error source statuses transport network_error = classified connection transport
classify_error source statuses transport connection_error = classified connection transport
classify_error source statuses transport incomplete_read = classified connection transport
classify_error source statuses transport response_error = classified invalid_json false
classify_error source statuses transport decode_error = classified invalid_json false
classify_error source statuses transport unicode_error = classified invalid_json false
classify_error source statuses transport value_error = classified invalid_schema false
classify_error source statuses transport type_error = classified invalid_schema false
classify_error source statuses transport key_error = classified invalid_schema false
classify_error source statuses transport other_error = classified unexpected false
