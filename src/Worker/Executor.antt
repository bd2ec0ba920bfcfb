-- ===== src/Worker/Executor.antt =====
-- pepeuch_worker/executor.py, `CPUTextDigest`: the digest of a mission's objective, in pieces of 512
-- bytes with a look at the clocks before each. `integer` is of pepeuch_worker/contracts.py.
pub mod Pieces
pub mod Refines
pub mod Accepted
use Prim.Native.String.{◌++◌ as concat}
use pepeuchiacluster.Prelude.{
  ℕ, zero, suc, ◌+◌, ◌*◌, ◌/◌, Bool, true, false, ◌&&◌, ◌||◌, String, same, List, [], ◌∷◌, ◌++◌,
  Option, none, some, length, take, drop, leb, ltb, if◌then◌else◌,
}
use pepeuchiacluster.Contracts.{Result, ok, refuse, require, ◌>>=◌, ◌>>◌}
use pepeuchiacluster.Contracts.Values.{
  Value, bool, int, text, Members, member, none_left, object, fields, at,
}
use pepeuchiacluster.Contracts.Lifecycle.{State, completed, interrupted, cancelled}
use pepeuchiacluster.Contracts.Outcomes.{ExecutionResult}
use pepeuchiacluster.Capabilities.{cpu_digest}
use pepeuchiacluster.Worker.Requests.{Instants, validate_request, is_empty_list, text_of}

-- What the executor takes from outside. `is_stopped`, `is_late` and `monotonic` are what the n-th look
-- sees: the event `stop`, whether the wall clock has reached a deadline, and the monotonic clock in
-- microseconds. A hasher is an object of `hashlib.sha256`.
pub record Machinery : Type 1 where
  pub instants : Instants
  pub is_stopped : ℕ → Bool
  pub is_late : ℕ → Value → Bool
  pub started : ℕ
  pub monotonic : ℕ → ℕ
  pub Hasher : Type 0
  pub fresh : Hasher
  pub update : Hasher → List ℕ → Hasher
  pub hexdigest : Hasher → String
  pub sha256 : List ℕ → String
  pub utf8 : String → List ℕ
  pub canonical : Value → List ℕ
  pub encode_base64 : List ℕ → String

pub record Limits : Type 0 where
  pub input_bytes : ℕ
  pub output_bytes : ℕ
  pub seconds : ℕ
  pub tasks : ℕ

-- `integer`
unfoldable pub integer : ℕ → ℕ → Value → Result ℕ
integer low high (int n) = do require (leb low n && leb n high) "invalid_worker_policy"; ok n
integer low high _ = refuse "invalid_worker_policy"

-- `__init__` on its limits
unfoldable pub check_limits : Value → Result Limits
unfolding integer
check_limits document = do
  m ← fields document ("input_bytes" ∷ "output_bytes" ∷ "seconds" ∷ "tasks" ∷ []) []
  input ← at "input_bytes" m >>= integer 1 16000
  output ← at "output_bytes" m >>= integer 1 65536
  time ← at "seconds" m >>= integer 1 30
  number ← at "tasks" m >>= integer 1 1
  ok (record { input_bytes = input; output_bytes = output; seconds = time; tasks = number })

-- What is read of a request that passes its checks.
pub record Work : Type 0 where
  pub attempt_id : String
  pub generation : String
  pub mission_id : Value
  pub objective : String
  pub deadline : Value
  pub expected_version : Value

unfoldable pub read_work : Members → Result Work
unfolding text_of
read_work m = do
  attempt_id ← at "attempt_id" m >>= text_of
  generation ← at "generation" m >>= text_of
  mission ← at "mission" m >>= λ v. fields v ("id" ∷ "title" ∷ "objective" ∷ []) []
  mission_id ← at "id" mission
  objective ← at "objective" mission >>= text_of
  deadline ← at "deadline" m
  expected ← at "expected_version" m
  ok (record {
    attempt_id = attempt_id;
    generation = generation;
    mission_id = mission_id;
    objective = objective;
    deadline = deadline;
    expected_version = expected;
  })

abbrev pub report : Work → State → List Value → Option String → ExecutionResult
report w state outputs code = record {
  attempt_id = w.attempt_id;
  generation = w.generation;
  status = state;
  outputs = outputs;
  error_code = code;
}

-- the bytes of a piece: `raw[index:index + 512]`
abbrev pub piece : ℕ
piece = 512

-- the length of `range(0, len(raw), 512)`
abbrev pub rounds : List ℕ → ℕ
rounds raw = (length raw + 511) / 512

module _ (m : Machinery) (l : Limits) where
  open m use {Hasher, update}

  -- `interrupted`: the error of the n-th look
  unfoldable pub look : Value → ℕ → Option String
  look deadline n =
      if m.is_stopped n
      then some "cpu_interrupted"
      else if m.is_late n deadline || leb (m.started + l.seconds * 1000000) (m.monotonic n)
      then some "cpu_deadline_exceeded"
      else none

  pub data Progress : Type 0 where
    hashed : Hasher → Progress
    halted : String → Progress

  abbrev pub go_on : Option String → Progress → Progress
  go_on none rest = rest
  go_on (some code) rest = halted code

  -- the loop, with the rounds left, the number of the look, and the bytes left
  unfoldable pub hash_pieces : Value → ℕ → ℕ → List ℕ → Hasher → Progress
  unfolding look
  hash_pieces deadline zero n raw h = hashed h
  hash_pieces deadline (suc left) n raw h =
      let rest = hash_pieces deadline left (suc n) (drop piece raw) (update h (take piece raw)) in
      go_on (look deadline n) rest

  unfoldable pub document_of : Work → ℕ → String → Value
  document_of w size digest = object (
      member "schema" (text "pepeuch.worker/cpu-text-digest/v1") (
        member "capability" (text cpu_digest) (
          member "mission_id" w.mission_id (
            member "attempt_id" (text w.attempt_id) (
              member "input_bytes" (int size) (
                member "input_sha256" (text digest) (
                  member "encoding" (text "UTF-8")
                    (member "ai_inference" (bool false) none_left))))))))

  -- the report, around the document
  unfoldable pub content_of : Value → List ℕ
  content_of document =
      m.utf8 "# Calcul CPU déterministe\n\nAucune inférence IA.\n\n```json\n"
      ++ (m.canonical document ++ m.utf8 "\n```\n")

  unfoldable pub output_of : Work → List ℕ → Value
  output_of w content = object (
      member "name" (text "resultat.md") (
        member "content_base64" (text (m.encode_base64 content)) (
          member "size" (int (length content)) (
            member "sha256" (text (m.sha256 content))
              (member "expected_version" w.expected_version none_left)))))

  abbrev pub last_look : Work → Value → Option String → ExecutionResult
  last_look w output none = report w completed (output ∷ []) none
  last_look w output (some code) = report w interrupted [] (some code)

  -- from the content on
  unfoldable pub publish_content : Work → ℕ → List ℕ → Result ExecutionResult
  unfolding look output_of
  publish_content w n content = do
    require (leb (length content) l.output_bytes) "cpu_output_limit"
    ok (last_look w (output_of w content) (look w.deadline n))

  -- from the end of the loop on
  unfoldable pub after_pieces : Work → List ℕ → Progress → Result ExecutionResult
  unfolding document_of content_of publish_content
  after_pieces w raw (halted code) = ok (report w interrupted [] (some code))
  after_pieces w raw (hashed h) =
      publish_content w (rounds raw) (content_of (document_of w (length raw) (m.hexdigest h)))

  -- the branches on `mode`
  unfoldable pub run_mode : String → Work → Result ExecutionResult
  unfolding hash_pieces after_pieces
  run_mode mode w =
      if same mode "cancel"
      then ok (report w cancelled [] none)
      else if same mode "success"
      then (let raw = m.utf8 w.objective in
          if leb (length raw) l.input_bytes
          then after_pieces w raw (hash_pieces w.deadline (rounds raw) 0 raw m.fresh)
          else refuse "cpu_input_limit")
      else refuse "unsupported_cpu_mode"

  -- `execute`
  unfoldable pub execute : String → Value → Result ExecutionResult
  unfolding validate_request read_work run_mode
  execute mode request = do
    members ← validate_request m.instants (cpu_digest ∷ []) request
    files ← at "authorized_files" members
    require (is_empty_list files) "unsupported_cpu_inputs"
    w ← read_work members
    run_mode mode w
