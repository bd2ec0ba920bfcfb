-- ===== src/Worker/Executor/Accepted.antt =====
-- The results of pepeuch_worker/executor.py before the checks of the control plane: `from_dict` of
-- control_plane/contracts.py and `output_data` of control_plane/workspace.py.
use mathlib.Core.Option.{some-injective}
use pepeuchiacluster.Prelude.Lists.{All-append}
use pepeuchiacluster.Prelude.{
  ℕ, ◌+◌, ◌*◌, ◌/◌, ◌≤◌, ◌<◌, ◌≡◌, refl, sym, ap, ◌∙◌, subst, Bool, true, false, ◌||◌,
  if◌then◌else◌, String, same_refl, List, [], ◌∷◌, All, Option, none, some, arith, length, leb,
  ◌==◌,
}
use pepeuchiacluster.Contracts.{ok, ok-injective, ◌>>=◌, >>=-eq-ok}
use pepeuchiacluster.Contracts.Values.{Value, null, text, array, Members, fields, at, contains}
use pepeuchiacluster.Contracts.Texts.{codes, identifier, is_digest, file_name}
use pepeuchiacluster.Contracts.Outcomes.{
  ExecutionResult, to_dict, from_dict, error_codes, status_of, outputs_of, error_code_of,
  error_value, array_of,
}
use pepeuchiacluster.Contracts.Lifecycle.{State, state_name, completed, interrupted, cancelled}
use pepeuchiacluster.Capabilities.{cpu_digest, result_name}
use pepeuchiacluster.Contracts.RoundTrip.{IsReported, from_dict-to_dict}
use pepeuchiacluster.Storage.Actions.{Env}
use pepeuchiacluster.Workspace.Output.{output_data, expected_of}
use pepeuchiacluster.Worker.Requests.{text_of, check_version, validate_request}
use pepeuchiacluster.Worker.Requests.Checked.{
  IsChecked, validate_request-IsChecked, read-identifier, identifier-itself,
}
use pepeuchiacluster.Worker.Executor.{
  Machinery, Limits, Work, report, look, content_of, output_of, read_work, execute,
}
use pepeuchiacluster.Worker.Executor.Refines.{
  HashesJoined, digest_content, digest_output, IsExecution, no_run, cut_off, full_run,
  execute-IsExecution,
}

abbrev pub version_value : Option String → Value
version_value none = null
version_value (some k) = text k

-- a version that passes the check of a request passes that of an output
check_version-expected_of :
    (v : Value)
    → check_version v ≡ ok tt
    → (o : Option String) × (expected_of v ≡ ok o) × (v ≡ version_value o)
unfolding check_version identifier
check_version-expected_of null e = (none, refl, refl)
check_version-expected_of (text t) e =
    let (j, valid, _) = >>=-eq-ok (identifier (text t)) _ e in
    (some t, rw (identifier-itself t j valid) refl, refl)
check_version-expected_of _ e = cc

record IsRead (m : Members) (w : Work) : Type 0 where
  attempt_id : (at "attempt_id" m >>= text_of) ≡ ok w.attempt_id
  generation : (at "generation" m >>= text_of) ≡ ok w.generation
  expected_version : at "expected_version" m ≡ ok w.expected_version

read_work-IsRead : (m : Members) (w : Work) → read_work m ≡ ok w → IsRead m w
unfolding read_work
read_work-IsRead m w e =
    let (attempt, attempt_, e1) = >>=-eq-ok (at "attempt_id" m >>= text_of) _ e in
    let (generation_, generated, e2) = >>=-eq-ok (at "generation" m >>= text_of) _ e1 in
    let (mission, _, e3) = >>=-eq-ok (at "mission" m >>= _) _ e2 in
    let (mission_id, _, e4) = >>=-eq-ok (at "id" mission) _ e3 in
    let (objective, _, e5) = >>=-eq-ok (at "objective" mission >>= text_of) _ e4 in
    let (deadline, _, e6) = >>=-eq-ok (at "deadline" m) _ e5 in
    let (expected, version_, e7) = >>=-eq-ok (at "expected_version" m) _ e6 in
    subst (IsRead m) (ok-injective _ w e7)
      (record { attempt_id = attempt_; generation = generated; expected_version = version_ })

abbrev pub IsBytes : List ℕ → Type 0
IsBytes raw = All (λ b. b < 256) raw

-- The libraries on both sides: texts and documents as bytes, one digest, of 64 hexadecimal digits, and
-- a strict base64 without line breaks.
pub record Agrees (m : Machinery) (env : Env) : Type 0 where
  pub same_digest : (raw : List ℕ) → env.sha256 raw ≡ m.sha256 raw
  pub digest_form : (raw : List ℕ) → is_digest (m.sha256 raw) ≡ true
  pub utf8_bytes : (t : String) → IsBytes (m.utf8 t)
  pub canonical_bytes : (v : Value) → IsBytes (m.canonical v)
  pub decodes : (raw : List ℕ) → IsBytes raw → env.decode_base64 (m.encode_base64 raw) ≡ some raw
  pub encoded_length :
      (raw : List ℕ) → length (codes (m.encode_base64 raw)) ≡ (length raw + 2) / 3 * 4

module _ (m : Machinery) (l : Limits) (env : Env) (agrees : Agrees m env) where
  content_of-IsBytes : (document : Value) → IsBytes (content_of m l document)
  unfolding content_of
  content_of-IsBytes document =
      All-append _ _ _ (agrees.utf8_bytes _)
        (All-append _ _ _ (agrees.canonical_bytes document) (agrees.utf8_bytes _))

  output_of-accepted :
      (w : Work) (content : List ℕ) (expected : Option String) (limit : ℕ)
      → IsBytes content
      → length content ≤ limit
      → expected_of w.expected_version ≡ ok expected
      → output_data env (output_of m l w content) limit
        ≡ ok (record { name = result_name; raw = content; expected = expected })
  unfolding output_data output_of fields at file_name
  output_of-accepted w content expected limit bytes short e =
      let fits : leb (length content) limit ≡ true = ground (arith, short) in
      let encoded : leb (length (codes (m.encode_base64 content))) ((limit + 2) / 3 * 4) ≡ true =
        ground (arith, short, agrees.encoded_length content) in
      let whole : (length content == length content) ≡ true = ground arith in
      rw (agrees.digest_form content) (
        rw (fits, e)
          (rw encoded (
            rw (agrees.decodes content bytes)
              (rw (whole, agrees.same_digest content) (rw (same_refl (m.sha256 content)) refl)))))

  look-known :
      (deadline : Value) (n : ℕ) (code : String)
      → look m l deadline n ≡ some code
      → contains code error_codes ≡ true
  unfolding look
  look-known deadline n code e =
      known (m.is_stopped n)
        (m.is_late n deadline || leb (m.started + l.seconds * 1000000) (m.monotonic n)) e
    where
      known :
          (a b : Bool)
          → (if a then some "cpu_interrupted" else if b then some "cpu_deadline_exceeded" else none)
            ≡ some code
          → contains code error_codes ≡ true
      known true b e = subst (λ c. contains c error_codes ≡ true) (some-injective _ _ e) refl
      known false true e = subst (λ c. contains c error_codes ≡ true) (some-injective _ _ e) refl
      known false false e = cc

  -- a report of the executor, whose state, outputs and error are those of the contract
  report-IsReported :
      (request : Members) (w : Work) (state : State) (outputs : List Value) (code : Option String)
      → IsChecked request
      → IsRead request w
      → status_of (text (state_name state)) ≡ ok state
      → outputs_of (array (array_of outputs)) ≡ ok outputs
      → error_code_of (error_value code) ≡ ok code
      → IsReported (report w state outputs code)
  report-IsReported request w state outputs code checked is_read is_state is_list is_code = record {
    attempt_id =
        read-identifier "attempt_id" request _ w.attempt_id checked.attempt_id.1 is_read.attempt_id;
    generation =
        read-identifier "generation" request _ w.generation checked.generation.1 is_read.generation;
    status = is_state;
    outputs = is_list;
    error_code = is_code;
  }

  -- an output that the control plane takes for the result of a request
  abbrev pub IsTaken : Members → ℕ → Value → Type 0
  IsTaken request limit output =
      (content : List ℕ) × (expected : Option String) × (output_data env output limit
        ≡ ok (record { name = result_name; raw = content; expected = expected }))
      × (at "expected_version" request ≡ ok (version_value expected))

  IsExecution-IsTaken :
      (mode : String) (request : Members) (w : Work) (limit : ℕ) (r : ExecutionResult)
      → IsChecked request
      → IsRead request w
      → l.output_bytes ≤ limit
      → IsExecution m l mode w r
      → IsReported r × All (IsTaken request limit) r.outputs
  unfolding status_of outputs_of error_code_of
  IsExecution-IsTaken mode request w limit r checked is_read fits (no_run e) =
      (report-IsReported request w cancelled [] none checked is_read refl refl refl, tt)
  IsExecution-IsTaken mode request w limit r checked is_read fits (cut_off code n le e) = (
    report-IsReported request w interrupted [] (some code) checked is_read refl refl
        (rw (look-known w.deadline n code e) refl),
    tt,
  )
  IsExecution-IsTaken mode request w limit r checked is_read fits (full_run a b c short) =
      let (e, there, version_) =
        >>=-eq-ok (at "expected_version" request) check_version checked.version in
      let same_ : e ≡ w.expected_version =
        ok-injective _ _ (sym there ∙ is_read.expected_version) in
      let (expected, found, is) =
        check_version-expected_of w.expected_version
          (subst (λ v. check_version v ≡ ok tt) same_ version_) in
      (
        report-IsReported request w completed (digest_output m l w ∷ []) none checked is_read refl
            refl refl,
        (
          (
            digest_content m l w,
            expected,
            output_of-accepted w (digest_content m l w) expected limit (content_of-IsBytes _)
                (omega (arith, short, fits)) found,
            is_read.expected_version ∙ ap ok is,
          ),
          tt,
        ),
      )

  -- Whatever the executor returns is a result that the control plane decodes as it was sent, and every
  -- output of it passes the checks of an output within any limit that is at least the executor's own:
  -- under the name of the contract, with the version that the request expects.
  pub execute-IsTaken :
      (law : HashesJoined m) (mode : String) (request : Value) (limit : ℕ) (r : ExecutionResult)
      → l.output_bytes ≤ limit
      → execute m l mode request ≡ ok r
      → (from_dict (to_dict r) ≡ ok r)
        × ((members : Members) × (validate_request m.instants (cpu_digest ∷ []) request
              ≡ ok members)
            × All (IsTaken members limit) r.outputs)
  execute-IsTaken law mode request limit r fits e =
      let (members, w, valid, read_, is_execution) = execute-IsExecution m l law mode request r e in
      let (reported, taken) =
        IsExecution-IsTaken mode members w limit r
          (validate_request-IsChecked m.instants (cpu_digest ∷ []) request members valid)
          (read_work-IsRead members w read_) fits is_execution in
      (from_dict-to_dict r reported, (members, valid, taken))
