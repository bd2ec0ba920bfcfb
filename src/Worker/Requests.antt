-- ===== src/Worker/Requests.antt =====
-- control_plane/worker_client.py, `validate_request`: what a worker accepts as a request.
pub mod Checked
use pepeuchiacluster.Prelude.{
  ℕ, Bool, true, false, ◌&&◌, ◌||◌, not, String, same, List, [], ◌∷◌, none, some, all, length, leb,
  ltb, ◌==◌,
}
use pepeuchiacluster.Contracts.{Result, ok, refuse, require, ◌>>=◌, ◌>>◌}
use pepeuchiacluster.Contracts.Values.{
  Value, null, bool, int, negative, real, nil, text, array, Members, fields, at, items, contains,
}
use pepeuchiacluster.Contracts.Texts.{codes, is_hex, identifier, checked_text}
use pepeuchiacluster.Capabilities.{Spec, spec_of, cpu_digest}
use pepeuchiacluster.Discovery.Metadata.{same_value}

-- The instants that are not integers are told apart by `instant`: whether the float is above 0 and at
-- most 253402300799. `is_aware` says that a text is an ISO date with a time zone.
pub record Instants : Type 0 where
  pub instant : ℕ → Bool
  pub is_aware : String → Bool

abbrev is_worker_name : List ℕ → Bool
is_worker_name (p ∷ u ∷ hex) = p == b'n' && u == b'_' && all is_hex hex && length hex == 32
is_worker_name _ = false

-- `fake-cpu`, or `n_` and 32 hexadecimal digits
abbrev pub is_worker_text : Value → Bool
is_worker_text (text s) = same s "fake-cpu" || is_worker_name (codes s)
is_worker_text _ = false

abbrev pub is_text : String → Value → Bool
is_text s (text t) = same t s
is_text s _ = false

abbrev pub same_text : Value → Value → Bool
same_text (text s) v = is_text s v
same_text _ v = false

abbrev pub is_bool : Bool → Value → Bool
is_bool true (bool b) = b
is_bool false (bool b) = not b
is_bool b _ = false

abbrev pub is_deadline : Instants → Value → Bool
is_deadline i (int n) = ltb 0 n && leb n 253402300799
is_deadline i (real r) = i.instant r
is_deadline i _ = false

abbrev pub is_start : Instants → Value → Bool
is_start i (text s) = leb (length (codes s)) 64 && i.is_aware s
is_start i _ = false

unfoldable pub capability_spec : List String → Value → Result Spec
capability_spec capabilities (text s) = elim (spec_of s) [
  | none ↦ refuse "invalid_worker_response"
  | some spec ↦ (do require (contains s capabilities) "invalid_worker_response"; ok spec)
]
capability_spec capabilities _ = refuse "invalid_worker_response"

unfoldable pub all_identifiers : List Value → Result (Unit {0})
all_identifiers [] = ok tt
all_identifiers (v ∷ vs) = do _ ← identifier v; all_identifiers vs

-- a list of at most 32 identifiers
unfoldable pub check_references : Value → Result (Unit {0})
unfolding all_identifiers
check_references (array vs) = do
  require (leb (length (items vs)) 32) "invalid_worker_response"
  all_identifiers (items vs)
check_references _ = refuse "invalid_worker_response"

unfoldable pub check_version : Value → Result (Unit {0})
check_version null = ok tt
check_version v = do _ ← identifier v; ok tt

-- the task's fields against the specification of its capability
abbrev pub is_task_of : Spec → Members → Value → Value → Result Bool
is_task_of spec task mission_id schema = do
  task_schema ← at "schema" task
  role ← at "role" task
  state ← at "state" task
  simulated ← at "simulated" task
  owner ← at "mission_id" task
  worker ← at "worker_id" task
  ok (
      is_text "pepeuch.control-plane/execution-request/v1" schema
      && is_text "pepeuch.control-plane/task/v1" task_schema
      && is_text spec.role role
      && is_text "running" state
      && is_bool spec.simulated simulated
      && same_text owner mission_id
      && is_worker_text worker)

-- `validate_request`
unfoldable pub validate_request : Instants → List String → Value → Result Members
unfolding capability_spec check_references check_version
validate_request i capabilities value = do
  request ←
      fields value
        ("schema" ∷ "attempt_id" ∷ "generation" ∷ "task" ∷ "mission" ∷ "authorized_files"
          ∷ "started_at" ∷ "deadline" ∷ "expected_version" ∷ [])
        []
  task ← at "task" request >>= λ v.
      fields v
        ("schema" ∷ "id" ∷ "mission_id" ∷ "role" ∷ "capability" ∷ "worker_id" ∷ "state"
          ∷ "simulated" ∷ [])
        []
  mission ← at "mission" request >>= λ v. fields v ("id" ∷ "title" ∷ "objective" ∷ []) []
  _ ← at "attempt_id" request >>= identifier
  _ ← at "generation" request >>= identifier
  _ ← at "id" task >>= identifier
  _ ← at "id" mission >>= identifier
  _ ← at "title" mission >>= checked_text 160
  _ ← at "objective" mission >>= checked_text 4000
  spec ← at "capability" task >>= capability_spec capabilities
  mission_id ← at "id" mission
  schema ← at "schema" request
  fits ← is_task_of spec task mission_id schema
  require fits "invalid_worker_response"
  at "authorized_files" request >>= check_references
  at "expected_version" request >>= check_version
  deadline ← at "deadline" request
  require (is_deadline i deadline) "invalid_worker_response"
  started ← at "started_at" request
  require (is_start i started) "invalid_worker_response"
  ok request

-- The parts of a request that the runner reads.
pub record Request : Type 0 where
  pub document : Value
  pub attempt_id : String
  pub generation : String
  pub mission_id : Value
  pub deadline : Value

unfoldable pub text_of : Value → Result String
text_of (text t) = ok t
text_of _ = refuse "operation_failed"

abbrev pub is_empty_list : Value → Bool
is_empty_list (array nil) = true
is_empty_list _ = false

-- `_request` for a worker, and what is read of a request that passes
unfoldable pub check_request : Instants → String → Value → Result Request
unfolding validate_request text_of
check_request i worker document = do
  m ← validate_request i (cpu_digest ∷ []) document
  task ← at "task" m >>= λ v.
      fields v
        ("schema" ∷ "id" ∷ "mission_id" ∷ "role" ∷ "capability" ∷ "worker_id" ∷ "state"
          ∷ "simulated" ∷ [])
        []
  worker_id ← at "worker_id" task
  files ← at "authorized_files" m
  require (is_text worker worker_id && is_empty_list files) "worker_scope_mismatch"
  attempt_id ← at "attempt_id" m >>= text_of
  generation ← at "generation" m >>= text_of
  mission ← at "mission" m >>= λ v. fields v ("id" ∷ "title" ∷ "objective" ∷ []) []
  mission_id ← at "id" mission
  deadline ← at "deadline" m
  ok (record {
    document = document;
    attempt_id = attempt_id;
    generation = generation;
    mission_id = mission_id;
    deadline = deadline;
  })

abbrev is_number : Value → Bool
is_number (int n) = true
is_number (negative n) = true
is_number (real r) = true
is_number _ = false

abbrev attempt_states : List String
attempt_states =
    "running" ∷ "cancel_requested" ∷ "completed" ∷ "failed" ∷ "interrupted" ∷ "cancelled" ∷ []

abbrev known_state : Value → Bool
known_state (text t) = contains t attempt_states
known_state _ = false

-- the checks of `_state` on a reply, and the state in it
unfoldable pub check_state : Request → Value → Result String
unfolding text_of same_value
check_state request reply = do
  m ← fields reply ("schema" ∷ "state" ∷ "deadline" ∷ []) []
  schema ← at "schema" m
  deadline ← at "deadline" m
  state ← at "state" m
  require
      (is_text "pepeuch.control-plane/attempt-state/v1" schema
        && is_number deadline
        && same_value deadline request.deadline
        && known_state state)
      "invalid_worker_response"
  text_of state

abbrev pub is_boolean : Value → Bool
is_boolean (bool b) = true
is_boolean _ = false

-- the checks on the acknowledgement of a result
unfoldable pub check_acknowledgement : Request → Value → Result (Unit {0})
check_acknowledgement request reply = do
  m ← fields reply ("accepted" ∷ "duplicate" ∷ "mission_id" ∷ []) []
  accepted ← at "accepted" m
  duplicate ← at "duplicate" m
  mission_id ← at "mission_id" m
  require (is_bool true accepted && is_boolean duplicate && same_text mission_id request.mission_id)
      "invalid_worker_response"

-- `response["request"]` of a claim
unfoldable pub claimed_request : Value → Result Value
claimed_request reply = do m ← fields reply ("request" ∷ []) []; at "request" m
