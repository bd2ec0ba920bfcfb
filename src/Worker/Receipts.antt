-- ===== src/Worker/Receipts.antt =====
-- pepeuch_worker/verification.py, `receipt_errors`: the scope and the freshness of a receipt of the
-- isolation. The digest of a document (`none` where it has none) is an argument, and so are the instants: the microseconds from
-- an origin before all of them, which the comparisons do not depend on, `none` where a value is not a
-- finite number.
pub mod Accepted
use pepeuchiacluster.Prelude.{
  ℕ, ◌+◌, Bool, true, false, ◌&&◌, not, String, same, List, [], ◌∷◌, Option, none, some, all, leb,
  ltb, if◌then◌else◌,
}
use Prim.Native.String.{◌++◌ as concat}
use pepeuchiacluster.Contracts.{Result, ok, err, ◌>>=◌}
use pepeuchiacluster.Contracts.Values.{
  Value, text, object, Members, none_left, member, keys, contains, fields, at,
}
use pepeuchiacluster.Contracts.Texts.{is_digest}

pub record Readings : Type 0 where
  pub digest : Value → Option String
  pub instant : Value → Option ℕ

-- `NEGATIVE`
abbrev pub negative_tests : List String
negative_tests =
    "secret" ∷ "sqlite" ∷ "workspace" ∷ "outside_write" ∷ "docker" ∷ "gpu" ∷ "backend_connect"
    ∷ "other_loopback" ∷ "controlled_peer" ∷ "ipv6" ∷ "child_stop" ∷ "expiration"
    ∷ "results_preserved" ∷ []

abbrev pub receipt_schema : String
receipt_schema = "pepeuch.worker/isolation-receipt/v1"

abbrev pub equals_text : String → Value → Bool
equals_text s (text t) = same t s
equals_text s _ = false

abbrev pub is_digest_text : Value → Bool
is_digest_text (text t) = is_digest t
is_digest_text _ = false

abbrev pub is_proof : Value → Value → Value → Bool
is_proof outcome method evidence =
    equals_text "pass" outcome
    && equals_text "independent-os-probe/v1" method
    && is_digest_text evidence

-- the result of one test is proved; an error is a missing or a further field
unfoldable pub is_proved : Value → Result Bool
is_proved result = do
  m ← fields result ("outcome" ∷ "method" ∷ "evidence_sha256" ∷ []) []
  outcome ← at "outcome" m
  method ← at "method" m
  evidence ← at "evidence_sha256" m
  ok (is_proof outcome method evidence)

abbrev pub proof_errors : String → Result Bool → List String → List String
proof_errors name (err p) rest = "invalid_receipt" ∷ []
proof_errors name (ok false) rest = concat "negative_test_not_proved:" name ∷ []
proof_errors name (ok true) rest = rest

-- the loop over the tests
unfoldable pub test_errors : Members → List String
unfolding is_proved
test_errors none_left = []
test_errors (member name result rest) =
    let more = test_errors rest in proof_errors name (is_proved result) more

abbrev pub same_names : List String → List String → Bool
same_names xs ys = all (λ x. contains x ys) xs && all (λ y. contains y xs) ys

-- `set(receipt["tests"]) == set(NEGATIVE)`, and the loop
unfoldable pub tests_errors : Value → List String
unfolding test_errors
tests_errors (object tests) =
    if same_names (keys tests) negative_tests
    then test_errors tests
    else "negative_tests_incomplete" ∷ []
tests_errors _ = "negative_tests_incomplete" ∷ []

-- `issued <= now < expires <= issued + max_age`
unfoldable pub is_fresh : Option ℕ → ℕ → Option ℕ → Option ℕ → Bool
is_fresh (some now) max_age (some issued) (some expires) =
    leb issued now && ltb now expires && leb expires (issued + max_age)
is_fresh _ max_age _ _ = false

-- The five fields of a receipt.
pub record Receipt : Type 0 where
  pub schema : Value
  pub binding : Value
  pub issued : Value
  pub expires : Value
  pub tests : Value

unfoldable pub read_receipt : Value → Result Receipt
read_receipt document =
    elim (fields document
      ("schema" ∷ "binding" ∷ "issued_monotonic" ∷ "expires_monotonic" ∷ "tests" ∷ []) []) [
        | err p ↦ err p
        | ok m ↦
            gather (at "schema" m) (at "binding" m) (at "issued_monotonic" m)
              (at "expires_monotonic" m) (at "tests" m)
      ]
  where
    gather :
        Result Value → Result Value → Result Value → Result Value → Result Value → Result Receipt
    gather (ok a) (ok b) (ok c) (ok d) (ok e) =
        ok (record { schema = a; binding = b; issued = c; expires = d; tests = e })
    gather (err p) _ _ _ _ = err p
    gather _ (err p) _ _ _ = err p
    gather _ _ (err p) _ _ = err p
    gather _ _ _ (err p) _ = err p
    gather _ _ _ _ (err p) = err p

-- `digest(receipt["binding"]) != digest(context)`, and what follows
abbrev pub bound_errors : Option String → Option String → List String → List String
bound_errors (some given) (some expected) rest =
    if not (same given expected) then "receipt_binding_mismatch" ∷ [] else rest
bound_errors _ _ rest = "invalid_receipt" ∷ []

module _ (readings : Readings) (context : Value) (now : Option ℕ) (max_age : ℕ) where
  unfoldable pub checked_errors : Result Receipt → List String
  unfolding is_fresh tests_errors
  checked_errors (err p) = "invalid_receipt" ∷ []
  checked_errors (ok r) =
      if not (equals_text receipt_schema r.schema)
      then "receipt_binding_mismatch" ∷ []
      else bound_errors (readings.digest r.binding) (readings.digest context) (
          if not (is_fresh now max_age (readings.instant r.issued) (readings.instant r.expires))
          then "receipt_expired_or_invalid_time" ∷ []
          else tests_errors r.tests)

  -- `receipt_errors`
  unfoldable pub receipt_errors : Option Value → List String
  unfolding read_receipt checked_errors
  receipt_errors none = "receipt_missing" ∷ []
  receipt_errors (some document) = checked_errors (read_receipt document)
