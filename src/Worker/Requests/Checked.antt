-- ===== src/Worker/Requests/Checked.antt =====
-- What `validate_request` of control_plane/worker_client.py has checked of a request.
use pepeuchiacluster.Prelude.{◌≡◌, sym, ◌∙◌, subst, String, List}
use pepeuchiacluster.Contracts.{ok, require, required, ok-injective, ◌>>=◌, >>=-eq-ok}
use pepeuchiacluster.Contracts.Values.{Value, text, Members, fields, at}
use pepeuchiacluster.Contracts.Texts.{
  codes, identifier, checked_text, is_identifier, check_identifier,
}
use pepeuchiacluster.Worker.Requests.{
  text_of, Instants, is_task_of, is_deadline, is_start, capability_spec, check_references,
  check_version, validate_request,
}

-- what is kept of the checks of a request
pub record IsChecked (m : Members) : Type 0 where
  pub attempt_id : (k : String) × ((at "attempt_id" m >>= identifier) ≡ ok k)
  pub generation : (k : String) × ((at "generation" m >>= identifier) ≡ ok k)
  pub version : (at "expected_version" m >>= check_version) ≡ ok tt

pub validate_request-IsChecked :
    (i : Instants) (capabilities : List String) (v : Value) (m : Members)
    → validate_request i capabilities v ≡ ok m
    → IsChecked m
unfolding validate_request
validate_request-IsChecked i capabilities v m e =
    let (request, _, e1) = >>=-eq-ok (fields v _ _) _ e in
    let (task, _, e2) = >>=-eq-ok (at "task" request >>= _) _ e1 in
    let (mission, _, e3) = >>=-eq-ok (at "mission" request >>= _) _ e2 in
    let (attempt, attempt_, e4) = >>=-eq-ok (at "attempt_id" request >>= identifier) _ e3 in
    let (generation_, generated, e5) = >>=-eq-ok (at "generation" request >>= identifier) _ e4 in
    let (_, _, e6) = >>=-eq-ok (at "id" task >>= identifier) _ e5 in
    let (_, _, e7) = >>=-eq-ok (at "id" mission >>= identifier) _ e6 in
    let (_, _, e8) = >>=-eq-ok (at "title" mission >>= checked_text 160) _ e7 in
    let (_, _, e9) = >>=-eq-ok (at "objective" mission >>= checked_text 4000) _ e8 in
    let (spec, _, e10) = >>=-eq-ok (at "capability" task >>= capability_spec capabilities) _ e9 in
    let (mission_id, _, e11) = >>=-eq-ok (at "id" mission) _ e10 in
    let (schema, _, e12) = >>=-eq-ok (at "schema" request) _ e11 in
    let (fits, _, e13) = >>=-eq-ok (is_task_of spec task mission_id schema) _ e12 in
    let (_, _, e14) = >>=-eq-ok (require fits "invalid_worker_response") _ e13 in
    let (_, _, e15) = >>=-eq-ok (at "authorized_files" request >>= check_references) _ e14 in
    let (_, version_, e16) = >>=-eq-ok (at "expected_version" request >>= check_version) _ e15 in
    let (deadline, _, e17) = >>=-eq-ok (at "deadline" request) _ e16 in
    let (_, _, e18) =
      >>=-eq-ok (require (is_deadline i deadline) "invalid_worker_response") _ e17 in
    let (started, _, e19) = >>=-eq-ok (at "started_at" request) _ e18 in
    let (_, _, e20) = >>=-eq-ok (require (is_start i started) "invalid_worker_response") _ e19 in
    subst IsChecked (ok-injective request m e20) (record {
      attempt_id = (attempt, attempt_);
      generation = (generation_, generated);
      version = version_;
    })

-- an identifier is the text that is checked
pub identifier-itself : (t j : String) → identifier (text t) ≡ ok j → identifier (text t) ≡ ok t
unfolding identifier check_identifier
identifier-itself t j e =
    let (_, same_) = required (is_identifier (codes t)) _ t j e in
    subst (λ x. check_identifier t ≡ ok x) (sym same_) e

text_of-identifier :
    (v : Value) (j k : String) → identifier v ≡ ok j → text_of v ≡ ok k → identifier (text k) ≡ ok k
unfolding text_of
text_of-identifier (text t) j k e f =
    subst (λ x. identifier (text x) ≡ ok x) (ok-injective t k f) (identifier-itself t j e)
text_of-identifier _ j k e f = cc

-- a text that is read where an identifier has been checked
pub read-identifier :
    (key : String) (m : Members) (j k : String)
    → (at key m >>= identifier) ≡ ok j
    → (at key m >>= text_of) ≡ ok k
    → identifier (text k) ≡ ok k
read-identifier key m j k e f =
    let (v, here, checked) = >>=-eq-ok (at key m) identifier e in
    let (u, there, read_) = >>=-eq-ok (at key m) text_of f in
    text_of-identifier v j k checked
      (subst (λ x. text_of x ≡ ok k) (ok-injective u v (sym there ∙ here)) read_)
