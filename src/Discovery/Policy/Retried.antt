-- ===== src/Discovery/Policy/Retried.antt =====
-- What a policy of database/poc/execution_models.py lets an execution retry.
use pepeuchiacluster.Prelude.{◌≡◌, ◌⊎◌, true, String}
use pepeuchiacluster.Discovery.Errors.{Raised, done, classify_error}
use pepeuchiacluster.Discovery.Errors.Gives.{Gives, Gives-bind, require-Gives}
use pepeuchiacluster.Discovery.Errors.Transient.{IsTransient, IsTransport, IsListed, retried}
use pepeuchiacluster.Discovery.Policy.{ExecutionPolicy, check_policy}

check_policy-IsTransient :
    (p : ExecutionPolicy) → Gives (λ _. IsTransient p.retry_http_statuses) (check_policy p)
unfolding check_policy
check_policy-IsTransient p =
    Gives-bind _ λ _. Gives-bind _ λ _. Gives-bind _ λ _. Gives-bind _ λ _. require-Gives _

-- Under a policy that passes its check, an error is retryable only where it is a failure of the
-- connection or of its time limit and the policy retries those, or where it is an HTTP status that the
-- policy lists, which is 429, 500, 502, 503 or 504, with a header that could be read.
pub classify_error-retryable :
    (p : ExecutionPolicy) (source : String) (e : Raised)
    → check_policy p ≡ done tt
    → (classify_error source p.retry_http_statuses p.retry_transport_errors e).retryable ≡ true
    → ((p.retry_transport_errors ≡ true) × IsTransport e) ⊎ IsListed p.retry_http_statuses e
classify_error-retryable p source e checked =
    retried source p.retry_http_statuses p.retry_transport_errors e
      ((check_policy-IsTransient p).gives tt checked)
