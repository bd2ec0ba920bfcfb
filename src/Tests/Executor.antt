-- ===== src/Tests/Executor.antt =====
-- A worker of pepeuch_worker/executor.py with a small objective, and libraries that agree with those
-- of the control plane.
use Prim.Native.Char.{Char, char, code, nul, IsScalar}
use Prim.Native.Nat.{compare, Ordering}
use mathlib.Core.Logic.{dite}
use native.Mathlib.Decide.{dec_lt}
use pepeuchiacluster.Prelude.{
  ℕ, ◌+◌, ◌*◌, ◌/◌, ◌%◌, ◌<◌, ◌≡◌, refl, ap, true, false, String, List, [], ◌∷◌, ◌++◌, Option, none,
  some, All, arith, length, ◌==◌, if◌then◌else◌,
}
use Prim.Native.String.{◌++◌ as concat}
use pepeuchiacluster.Contracts.{ok}
use pepeuchiacluster.Contracts.Values.{null, int, text, array, nil, Members, fields, at}
use pepeuchiacluster.Contracts.Texts.{codes, is_digest, identifier, checked_text}
use pepeuchiacluster.Contracts.Lifecycle.{completed}
use pepeuchiacluster.Contracts.Outcomes.{ExecutionResult, to_dict, from_dict}
use pepeuchiacluster.Capabilities.{cpu_digest, spec_of}
use pepeuchiacluster.Storage.Actions.{Env}
use pepeuchiacluster.Worker.Requests.{validate_request}
use pepeuchiacluster.Worker.Executor.{
  Machinery, Limits, Work, report, read_work, execute, content_of, look,
}
use pepeuchiacluster.Worker.Executor.Refines.{
  digest_output, IsUncut, IsExecution, execute-IsExecution, execute-full_run,
}
use pepeuchiacluster.Worker.Executor.Accepted.{Agrees, IsTaken, execute-IsTaken}
use pepeuchiacluster.Tests.Data.{env_example}
use pepeuchiacluster.Tests.Worker.{digits, request, request_members}

below-IsScalar : (n : ℕ) → n < 256 → IsScalar n
below-IsScalar n h = let e : compare n 55296 ≡ Ordering.lt = ground arith in rw e tt

chr : ℕ → Char
chr n = dite (dec_lt n 256) (λ h. char n (below-IsScalar n h)) (λ _. nul)

code-chr : (n : ℕ) → n < 256 → code (chr n) ≡ n
unfolding chr
code-chr n h =
    elim (dec_lt n 256)
      as (λ d. code (dite d (λ h'. char n (below-IsScalar n h')) (λ _. nul)) ≡ n) [
        | yes p ↦ refl
        | no p ↦ absurd (p h)
      ]

-- Four characters for three bytes, the last of which counts the bytes.
encode : List ℕ → String
unfolding chr
encode [] = String.[]
encode (a ∷ []) = String.◌∷◌ (chr a) "xx1"
encode (a ∷ b ∷ []) = String.◌∷◌ (chr a) (String.◌∷◌ (chr b) "x2")
encode (a ∷ b ∷ c ∷ rest) =
    String.◌∷◌ (chr a) (String.◌∷◌ (chr b) (String.◌∷◌ (chr c) (String.◌∷◌ "3" (encode rest))))

-- the bytes of a group, by its count
group : ℕ → ℕ → ℕ → ℕ → List ℕ → List ℕ
group n a b c rest =
    if n == b'1' then a ∷ [] else if n == b'2' then a ∷ b ∷ [] else a ∷ b ∷ c ∷ rest

decode_codes : List ℕ → List ℕ
unfolding group
decode_codes (a ∷ b ∷ c ∷ n ∷ rest) = group n a b c (decode_codes rest)
decode_codes _ = []

decode : String → Option (List ℕ)
unfolding decode_codes
decode t = some (decode_codes (codes t))

decode-encode : (raw : List ℕ) → All (λ b. b < 256) raw → decode_codes (codes (encode raw)) ≡ raw
unfolding encode decode_codes
decode-encode [] bytes = refl
decode-encode (a ∷ []) bytes = rw (code-chr a bytes.0) refl
decode-encode (a ∷ b ∷ []) bytes = rw (code-chr a bytes.0, code-chr b bytes.1.0) refl
decode-encode (a ∷ b ∷ c ∷ rest) bytes =
    rw
      (
        code-chr a bytes.0,
        code-chr b bytes.1.0,
        code-chr c bytes.1.1.0,
        decode-encode rest bytes.1.1.1,
      )
      refl

length-encode : (raw : List ℕ) → length (codes (encode raw)) ≡ (length raw + 2) / 3 * 4
unfolding encode
length-encode [] = refl
length-encode (a ∷ []) = refl
length-encode (a ∷ b ∷ []) = refl
length-encode (a ∷ b ∷ c ∷ rest) = omega (arith, length-encode rest)

abbrev digest : String
digest = "0000000000000000000000000000000000000000000000000000000000000000"

-- the codes of a text, cut to bytes
bytes_of : List ℕ → List ℕ
bytes_of [] = []
bytes_of (c ∷ cs) = (c % 256) ∷ bytes_of cs

bytes_of-bytes : (cs : List ℕ) → All (λ b. b < 256) (bytes_of cs)
unfolding bytes_of
bytes_of-bytes [] = tt
bytes_of-bytes (c ∷ cs) = (omega arith, bytes_of-bytes cs)

-- no stop, and clocks that stand still
abbrev machinery : Machinery
machinery = record {
  instants = record { instant = λ r. true; is_aware = λ t. true };
  is_stopped = λ n. false;
  is_late = λ n deadline. false;
  started = 0;
  monotonic = λ n. 0;
  Hasher = List ℕ;
  fresh = [];
  update = λ h raw. h ++ raw;
  hexdigest = λ h. digest;
  sha256 = λ raw. digest;
  utf8 = λ t. bytes_of (codes t);
  canonical = λ v. bytes_of (codes "{}");
  encode_base64 = encode;
}

abbrev limits : Limits
limits = record { input_bytes = 16000; output_bytes = 65536; seconds = 30; tasks = 1 }

abbrev env : Env
env = record env_example { sha256 = λ raw. digest; decode_base64 = decode }

agrees : Agrees machinery env
unfolding decode is_digest
agrees = record {
  same_digest = λ raw. refl;
  digest_form = λ raw. refl;
  utf8_bytes = λ t. bytes_of-bytes (codes t);
  canonical_bytes = λ v. bytes_of-bytes (codes "{}");
  decodes = λ raw bytes. ap some (decode-encode raw bytes);
  encoded_length = length-encode;
}

abbrev work : Work
work = record {
  attempt_id = concat "a_" digits;
  generation = concat "g_" digits;
  mission_id = text (concat "m_" digits);
  objective = "objective";
  deadline = int 1000;
  expected_version = null;
}

abbrev completed_run : ExecutionResult
completed_run = report work completed (digest_output machinery limits work ∷ []) none

valid : validate_request machinery.instants (cpu_digest ∷ []) request ≡ ok request_members
unfolding validate_request fields at identifier checked_text spec_of
valid = refl

is_read : read_work request_members ≡ ok work
unfolding read_work fields at
is_read = refl

uncut : IsUncut machinery limits work
unfolding look content_of bytes_of
uncut = record {
  input_fits = omega arith;
  clear = (refl, tt);
  clear_last = refl;
  output_fits = omega arith;
}

files : at "authorized_files" request_members ≡ ok (array nil)
unfolding at
files = refl

runs : execute machinery limits "success" request ≡ ok completed_run
runs =
    execute-full_run machinery limits (λ ps. refl) request request_members work valid files is_read
      uncut

execute-full_run_example : execute machinery limits "success" request ≡ ok completed_run
execute-full_run_example =
    execute-full_run machinery limits (λ ps. refl) request request_members work valid files is_read
      uncut

execute-IsExecution_example :
    (members : Members) × (w : Work) × (validate_request machinery.instants
        (cpu_digest ∷ [])
        request
      ≡ ok members)
    × (read_work members ≡ ok w)
    × IsExecution machinery limits "success" w completed_run
execute-IsExecution_example =
    execute-IsExecution machinery limits (λ ps. refl) "success" request completed_run runs

execute-IsTaken_example :
    (from_dict (to_dict completed_run) ≡ ok completed_run)
    × ((members : Members) × (validate_request machinery.instants (cpu_digest ∷ []) request
          ≡ ok members)
        × All (IsTaken machinery limits env agrees members 65536) completed_run.outputs)
execute-IsTaken_example =
    execute-IsTaken machinery limits env agrees (λ ps. refl) "success" request 65536 completed_run
      (omega arith) runs
