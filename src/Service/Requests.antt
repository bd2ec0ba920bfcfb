-- ===== src/Service/Requests.antt =====
-- The members of a request that control_plane/service.py reads, and the checks of its list of files.
use pepeuchiacluster.Prelude.{
  ℕ, Bool, false, ◌||◌, not, String, same, List, [], ◌∷◌, Option, none, some, any, length, leb,
}
use pepeuchiacluster.Contracts.{Result, ok, refuse, require, ◌>>=◌, ◌>>◌}
use pepeuchiacluster.Contracts.Values.{Value, array, Members, items, at}
use pepeuchiacluster.Contracts.Texts.{checked_text, identifier}

unfoldable pub text_at : ℕ → String → Members → Result String
text_at maximum key m = at key m >>= checked_text maximum

unfoldable pub identifier_at : String → Members → Result String
identifier_at key m = at key m >>= identifier

-- `for reference in refs: identifier(reference)`
identifiers : List Value → Result (List String)
identifiers [] = ok []
identifiers (v ∷ vs) = do k ← identifier v; ks ← identifiers vs; ok (k ∷ ks)

-- `len(refs) != len(set(refs))`
abbrev pub repeats : List String → Bool
repeats [] = false
repeats (k ∷ ks) = any (same k) ks || repeats ks

abbrev distinct : List String → Result (List String)
distinct ks = do require (not (repeats ks)) "invalid_file_references"; ok ks

-- the list under `authorized_files`, which may be absent
unfoldable pub references : Option Value → Result (List String)
unfolding identifiers
references none = ok []
references (some (array vs)) = do
  require (leb (length (items vs)) 32) "invalid_file_references"
  ks ← identifiers (items vs)
  distinct ks
references (some _) = refuse "invalid_file_references"
