-- ===== src/Contracts/Outcomes.antt =====
-- control_plane/contracts.py, `ExecutionResult`: what a worker reports, its strict decoding and its
-- document.
use pepeuchiacluster.Prelude.{
  Bool, false, String, same, List, [], ◌∷◌, Option, none, some, length, leb, if◌then◌else◌,
}
use pepeuchiacluster.Contracts.Problems.{Result, ok, refuse, require, ◌>>=◌, ◌>>◌}
use pepeuchiacluster.Contracts.Values.{
  Value, null, text, array, object, member, none_left, Items, nil, cons, fields, at, items,
  contains,
}
use pepeuchiacluster.Contracts.Texts.{identifier}
use pepeuchiacluster.Contracts.Lifecycle.{
  State, completed, failed, interrupted, cancelled, state_name,
}

pub record ExecutionResult : Type 0 where
  pub attempt_id : String
  pub generation : String
  pub status : State
  pub outputs : List Value
  pub error_code : Option String

abbrev pub result_schema : String
result_schema = "pepeuch.control-plane/execution-result/v1"

abbrev pub error_codes : List String
error_codes =
    "simulated_failure" ∷ "simulated_interruption" ∷ "cpu_execution_failed" ∷ "cpu_interrupted"
    ∷ "cpu_deadline_exceeded" ∷ []

-- the four states in which a result may leave an attempt
unfoldable pub status_of : Value → Result State
status_of (text s) =
    if same s "completed"
    then ok completed
    else if same s "failed"
    then ok failed
    else if same s "interrupted"
    then ok interrupted
    else if same s "cancelled"
    then ok cancelled
    else refuse "invalid_result_state"
status_of _ = refuse "invalid_result_state"

unfoldable pub outputs_of : Value → Result (List Value)
outputs_of (array vs) = do require (leb (length (items vs)) 1) "invalid_outputs"; ok (items vs)
outputs_of _ = refuse "invalid_outputs"

unfoldable pub error_code_of : Value → Result (Option String)
error_code_of null = ok none
error_code_of (text s) = do require (contains s error_codes) "invalid_error_code"; ok (some s)
error_code_of _ = refuse "invalid_error_code"

abbrev is_schema : Value → Bool
is_schema (text s) = same s result_schema
is_schema _ = false

-- `ExecutionResult.from_dict`
unfoldable pub from_dict : Value → Result ExecutionResult
unfolding status_of outputs_of error_code_of
from_dict document = do
  m ←
      fields document
        ("schema" ∷ "attempt_id" ∷ "generation" ∷ "status" ∷ "outputs" ∷ "error_code" ∷ []) []
  schema ← at "schema" m
  require (is_schema schema) "invalid_schema"
  attempt_id ← at "attempt_id" m >>= identifier
  generation ← at "generation" m >>= identifier
  status ← at "status" m >>= status_of
  outputs ← at "outputs" m >>= outputs_of
  error_code ← at "error_code" m >>= error_code_of
  ok (record {
    attempt_id = attempt_id;
    generation = generation;
    status = status;
    outputs = outputs;
    error_code = error_code;
  })

abbrev pub array_of : List Value → Items
array_of [] = nil
array_of (v ∷ vs) = cons v (array_of vs)

abbrev pub error_value : Option String → Value
error_value none = null
error_value (some s) = text s

-- `to_dict`
unfoldable pub to_dict : ExecutionResult → Value
to_dict r = object (
    member "schema" (text result_schema) (
      member "attempt_id" (text r.attempt_id) (
        member "generation" (text r.generation) (
          member "status" (text (state_name r.status)) (
            member "outputs" (array (array_of r.outputs))
              (member "error_code" (error_value r.error_code) none_left))))))
