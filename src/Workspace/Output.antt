-- ===== src/Workspace/Output.antt =====
-- control_plane/workspace.py: `output_data`, the checks of a file that a caller sends, and `_object`,
-- the store of immutable objects. Reading a staged file back is disk access, and is left out.
use pepeuchiacluster.Prelude.{
  ℕ, ◌+◌, ◌*◌, ◌/◌, Bool, true, false, ◌&&◌, ◌==◌, leb, String, same, List, [], ◌∷◌, ◌++◌, Option,
  none, some, length, if◌then◌else◌,
}
use pepeuchiacluster.Contracts.{Result, ok, err, problem, refuse, require, ◌>>=◌, ◌>>◌}
use pepeuchiacluster.Contracts.Values.{Value, null, text, int, Members, fields, at}
use pepeuchiacluster.Contracts.Texts.{codes, identifier, file_name, is_digest}
use pepeuchiacluster.Storage.Actions.{World, Action, Env}

-- What is left of a request after the checks. `expected` is the version that the caller has seen.
pub record Output : Type 0 where
  pub name : String
  pub raw : List ℕ
  pub expected : Option String

abbrev size_of : Value → Result ℕ
size_of (int n) = ok n
size_of _ = refuse "invalid_file_size"

abbrev pub expected_of : Value → Result (Option String)
expected_of null = ok none
expected_of v = do k ← identifier v; ok (some k)

abbrev digest_of : Value → Result String
digest_of (text s) = do require (is_digest s) "invalid_file_digest"; ok s
digest_of _ = refuse "invalid_file_digest"

abbrev require_status : Bool → String → ℕ → Result (Unit {0})
require_status true c s = ok tt
require_status false c s = err (problem c s)

abbrev encoded_of : ℕ → Value → Result String
encoded_of limit (text s) = do
  require_status (leb (length (codes s)) ((limit + 2) / 3 * 4)) "file_too_large" 413
  ok s
encoded_of limit _ = err (problem "file_too_large" 413)

abbrev decoded : Option (List ℕ) → Result (List ℕ)
decoded none = refuse "invalid_file_encoding"
decoded (some raw) = ok raw

module _ (env : Env) where
  -- the checks of `output_data` on the members, in their order
  unfoldable pub output_members : Members → ℕ → Result Output
  output_members m limit = do
    name ← at "name" m >>= file_name
    size ← at "size" m >>= size_of
    require_status (leb size limit) "file_too_large" 413
    expected ← at "expected_version" m >>= expected_of
    digest ← at "sha256" m >>= digest_of
    encoded ← at "content_base64" m >>= encoded_of limit
    raw ← decoded (env.decode_base64 encoded)
    require (length raw == size && same (env.sha256 raw) digest) "file_integrity_mismatch"
    ok (record { name = name; raw = raw; expected = expected })

  -- `output_data`
  unfoldable pub output_data : Value → ℕ → Result Output
  unfolding output_members
  output_data document limit = do
    m ← fields document ("name" ∷ "content_base64" ∷ "size" ∷ "sha256" ∷ "expected_version" ∷ []) []
    output_members m limit

abbrev pub same_bytes : List ℕ → List ℕ → Bool
same_bytes [] [] = true
same_bytes (a ∷ as') (b ∷ bs) = a == b && same_bytes as' bs
same_bytes _ _ = false

abbrev pub stored : String → List (String × List ℕ) → Option (List ℕ)
stored k [] = none
stored k ((j, raw) ∷ rest) = if same j k then some raw else stored k rest

module _ (env : Env) where
  abbrev place : Option (List ℕ) → String → List ℕ → World → Result String × World
  place none k raw w = (ok k, record w { objects = w.objects ++ (k, raw) ∷ [] })
  place (some old) k raw w =
      if same_bytes old raw then (ok k, w) else (err (problem "object_corrupted" 500), w)

  -- `_object`: the object stays when the transaction is rolled back
  unfoldable pub put_object : List ℕ → Action String
  put_object raw w =
      if leb (length raw) env.settings.max_file_bytes
      then place (stored (env.sha256 raw) w.objects) (env.sha256 raw) raw w
      else (err (problem "unsafe_local_file" 500), w)
