-- ===== src/Contracts/Texts.antt =====
-- control_plane/contracts.py: `text`, `identifier`, `operation_id`; control_plane/workspace.py:
-- `file_name`. A regular expression is written out as a test of code points.
use Prim.Native.Char.{code}
use pepeuchiacluster.Prelude.{
  ℕ, ◌-◌, Bool, true, false, ◌&&◌, ◌||◌, not, String, List, [], ◌∷◌, length, all, any, leb, ◌==◌,
  map, if◌then◌else◌,
}
use pepeuchiacluster.Contracts.Problems.{Result, ok, refuse, require, ◌>>◌}
use pepeuchiacluster.Contracts.Values.{Value, text}

-- the code points of a text
abbrev pub codes : String → List ℕ
codes String.[] = []
codes (String.◌∷◌ c s) = code c ∷ codes s

abbrev between : ℕ → ℕ → ℕ → Bool
between low high c = leb low c && leb c high

abbrev pub is_lower : ℕ → Bool
is_lower = between b'a' b'z'

abbrev pub is_upper : ℕ → Bool
is_upper = between b'A' b'Z'

abbrev pub is_digit : ℕ → Bool
is_digit = between b'0' b'9'

-- `[0-9a-f]`
abbrev pub is_hex : ℕ → Bool
is_hex c = is_digit c || between b'a' b'f' c

-- what `str.strip` removes: the white space of Unicode, as Python classes it
is_space : ℕ → Bool
is_space c =
    between 9 13 c
    || between 28 32 c
    || c == 133
    || c == 160
    || c == 5760
    || between 8192 8202 c
    || between 8232 8233 c
    || c == 8239
    || c == 8287
    || c == 12288

-- `not value.strip()`
unfoldable pub is_blank : String → Bool
unfolding is_space
is_blank s = all is_space (codes s)

-- The whole check on the code points: not blank, not too long, no NUL. The encoding to UTF-8
-- cannot fail, since a `String` holds Unicode scalar values only.
unfoldable pub is_text : ℕ → List ℕ → Bool
unfolding is_space
is_text maximum cs = not (all is_space cs) && leb (length cs) maximum && not (any (λ c. c == 0) cs)

-- `text`
unfoldable pub checked_text : ℕ → Value → Result String
unfolding is_text
checked_text maximum (text s) = do require (is_text maximum (codes s)) "invalid_text"; ok s
checked_text maximum _ = refuse "invalid_text"

-- `[a-z]_[0-9a-f]{32}`
unfoldable pub is_identifier : List ℕ → Bool
is_identifier (p ∷ u ∷ hex) = is_lower p && u == b'_' && all is_hex hex && length hex == 32
is_identifier _ = false

-- `identifier` on a text
unfoldable pub check_identifier : String → Result String
unfolding is_identifier
check_identifier s = do require (is_identifier (codes s)) "invalid_identifier"; ok s

-- `identifier`
unfoldable pub identifier : Value → Result String
unfolding check_identifier
identifier (text s) = check_identifier s
identifier _ = refuse "invalid_identifier"

-- `[0-9a-f]{64}`
unfoldable pub is_digest : String → Bool
is_digest s = all is_hex (codes s) && length (codes s) == 64

-- `operation_id`; `str(UUID(value)) == value` is the argument `is_uuid`
unfoldable pub operation_id : (String → Bool) → Value → Result String
operation_id is_uuid (text s) = do require (is_uuid s) "invalid_operation_id"; ok s
operation_id is_uuid _ = refuse "invalid_operation_id"

-- the part of a name before its first dot
abbrev stem : List ℕ → List ℕ
stem [] = []
stem (c ∷ cs) = let rest = stem cs in if c == b'.' then [] else c ∷ rest

abbrev pub upper : ℕ → ℕ
upper c = if is_lower c then c - 32 else c

abbrev same_codes : List ℕ → List ℕ → Bool
same_codes [] [] = true
same_codes (a ∷ as') (b ∷ bs) = a == b && same_codes as' bs
same_codes _ _ = false

ends_with_dot : List ℕ → Bool
ends_with_dot [] = false
ends_with_dot (c ∷ []) = c == b'.'
ends_with_dot (c ∷ d ∷ cs) = ends_with_dot (d ∷ cs)

-- `COM1` … `COM9` and `LPT1` … `LPT9`
abbrev is_port : List ℕ → Bool
is_port (a ∷ b ∷ c ∷ n ∷ []) =
    between b'1' b'9' n
    && (same_codes (a ∷ b ∷ c ∷ []) (codes "COM") || same_codes (a ∷ b ∷ c ∷ []) (codes "LPT"))
is_port _ = false

is_reserved : List ℕ → Bool
is_reserved cs =
    same_codes cs (codes "CON")
    || same_codes cs (codes "PRN")
    || same_codes cs (codes "AUX")
    || same_codes cs (codes "NUL")
    || is_port cs

-- `[A-Za-z0-9]`
abbrev is_alnum : ℕ → Bool
is_alnum c = is_lower c || is_upper c || is_digit c

-- `[A-Za-z0-9][A-Za-z0-9._-]{0,119}`, no final dot, and no device name
unfoldable pub is_file_name : List ℕ → Bool
unfolding ends_with_dot is_reserved
is_file_name [] = false
is_file_name (c ∷ cs) =
    is_alnum c
    && all (λ d. is_alnum d || d == b'.' || d == b'_' || d == b'-') cs
    && leb (length cs) 119
    && not (ends_with_dot (c ∷ cs))
    && not (is_reserved (map upper (stem (c ∷ cs))))

unfoldable pub file_name : Value → Result String
unfolding is_file_name
file_name (text s) = do require (is_file_name (codes s)) "unsafe_file_name"; ok s
file_name _ = refuse "unsafe_file_name"
