-- ===== src/Tests/Worker.antt =====
-- A worker of pepeuch_worker/runner.py that dies before it publishes a result, and recovers, and a
-- receipt that pepeuch_worker/verification.py accepts.
use Prim.Native.String.{◌++◌ as concat}
use pepeuchiacluster.Prelude.{
  ℕ, zero, suc, ◌≡◌, refl, sym, ap, ◌∙◌, Bool, true, false, not, ◌==◌, String, [], ◌∷◌, length,
  head?, List, All, Option, none, some, arith,
}
use pepeuchiacluster.Contracts.{ok}
use pepeuchiacluster.Contracts.Values.{
  Value, null, bool, int, text, array, object, nil, Members, none_left, member, fields, at,
}
use pepeuchiacluster.Contracts.Texts.{codes, identifier, checked_text, is_digest}
use pepeuchiacluster.Contracts.Lifecycle.{completed}
use pepeuchiacluster.Contracts.Outcomes.{ExecutionResult, to_dict, from_dict}
use pepeuchiacluster.Capabilities.{spec_of}
use pepeuchiacluster.Worker.Machine.{
  Surroundings, Machine, Journal, Call, claim, state_of, finish, produced,
}
use pepeuchiacluster.Worker.Runner.{run_once}
use pepeuchiacluster.Worker.Receipts.{
  Readings, negative_tests, receipt_schema, is_proved, test_errors, tests_errors, is_fresh, Receipt,
  read_receipt, checked_errors, receipt_errors,
}
use pepeuchiacluster.Worker.Receipts.Accepted.{IsReceipt, receipt_errors-IsReceipt}
use pepeuchiacluster.Worker.Once.{Distinct, Drawn, runs, untouched, runs-Once}

abbrev pub digits : String
digits = "00000000000000000000000000000000"

-- the n-th identity has n characters
ticks : ℕ → String
ticks zero = String.[]
ticks (suc n) = String.◌∷◌ "x" (ticks n)

length-ticks : (n : ℕ) → length (codes (ticks n)) ≡ n
unfolding ticks
length-ticks zero = refl
length-ticks (suc n) = omega (arith, length-ticks n)

ticks_distinct : (i j : ℕ) → ticks i ≡ ticks j → i ≡ j
ticks_distinct i j e = sym (length-ticks i) ∙ ap (λ t. length (codes t)) e ∙ length-ticks j

abbrev pub request_members : Members
request_members = member "schema" (text "pepeuch.control-plane/execution-request/v1") (
    member "attempt_id" (text (concat "a_" digits)) (
      member "generation" (text (concat "g_" digits)) (
        member "task"
          (object (
            member "schema" (text "pepeuch.control-plane/task/v1") (
              member "id" (text (concat "t_" digits)) (
                member "mission_id" (text (concat "m_" digits)) (
                  member "role" (text "cpu-text-digest") (
                    member "capability" (text "cpu.text.sha256.v1") (
                      member "worker_id" (text (concat "n_" digits)) (
                        member "state" (text "running")
                          (member "simulated" (bool false) none_left)))))))))
          (member "mission"
            (object (
              member "id" (text (concat "m_" digits))
                (member "title" (text "title") (member "objective" (text "objective") none_left))))
            (member "authorized_files" (array nil) (
              member "started_at" (text "2026-01-01T00:00:00+00:00")
                (member "deadline" (int 1000) (member "expected_version" null none_left))))))))

abbrev pub request : Value
request = object request_members

abbrev answer : Call → Value
answer (claim id) = object (member "request" request none_left)
answer (state_of id) = object (
    member "schema" (text "pepeuch.control-plane/attempt-state/v1")
      (member "state" (text "running") (member "deadline" (int 1000) none_left)))
answer (finish id result) = object (
    member "accepted" (bool true)
      (member "duplicate" (bool false) (member "mission_id" (text (concat "m_" digits)) none_left)))

abbrev done_result : ExecutionResult
done_result = record {
  attempt_id = concat "a_" digits;
  generation = concat "g_" digits;
  status = completed;
  outputs = [];
  error_code = none;
}

abbrev map_done : Option Journal → Option Bool
map_done none = none
map_done (some j) = some j.is_done

-- it dies once, before its eleventh effect, when the result is in the journal
abbrev mortal : Surroundings
mortal = record {
  config = record {
    worker_id = concat "n_" digits;
    backend_url = "http://127.0.0.1:8080";
    fingerprint = "fingerprint";
  };
  instants = record { instant = λ r. true; is_aware = λ t. true };
  is_uuid = λ t. true;
  uuid = ticks;
  reply = λ n c. ok (answer c);
  execute = λ n document. produced done_result;
  guard = λ n. ok tt;
  lives = λ n. not (n == 10);
}

runs-Once_example :
    Distinct (runs mortal (false ∷ true ∷ []) untouched).executed
    × All
        (Drawn mortal (runs mortal (false ∷ true ∷ []) untouched).draws)
        (runs mortal (false ∷ true ∷ []) untouched).executed
runs-Once_example = runs-Once mortal (false ∷ true ∷ []) ticks_distinct

abbrev last_call : Machine → Option Call
last_call w = head? w.sent

-- one execution, in the first run; the second run publishes its result
recovers :
    let w = runs mortal (false ∷ true ∷ []) untouched in
    (length w.executed ≡ 1)
    × (map_done w.journal ≡ some true)
    × (last_call w ≡ some (finish (concat "a_" digits) (to_dict done_result)))
unfolding runs run_once ticks to_dict from_dict fields at identifier checked_text spec_of
recovers = (refl, refl, refl)

abbrev proved_tests : List String → Members
proved_tests [] = none_left
proved_tests (name ∷ rest) =
    member name
      (object (
        member "outcome" (text "pass") (
          member "method" (text "independent-os-probe/v1") (
            member "evidence_sha256"
              (text "0000000000000000000000000000000000000000000000000000000000000000")
              none_left))))
      (proved_tests rest)

abbrev receipt : Value
receipt = object (
    member "schema" (text receipt_schema) (
      member "binding" null (
        member "issued_monotonic" (int 10) (
          member "expires_monotonic" (int 20)
            (member "tests" (object (proved_tests negative_tests)) none_left)))))

abbrev seconds : Value → Option ℕ
seconds (int n) = some n
seconds _ = none

abbrev readings : Readings
readings = record { digest = λ v. some "digest"; instant = seconds }

receipt_accepted : receipt_errors readings null (some 15) 60 (some receipt) ≡ []
unfolding receipt_errors checked_errors read_receipt tests_errors test_errors is_proved is_fresh
    fields at is_digest
receipt_accepted = refl

receipt_errors-IsReceipt_example :
    (v : Value) × (r : Receipt) × (some receipt ≡ some v)
    × (read_receipt v ≡ ok r)
    × IsReceipt readings null (some 15) 60 r
receipt_errors-IsReceipt_example =
    receipt_errors-IsReceipt readings null (some 15) 60 (some receipt) receipt_accepted
