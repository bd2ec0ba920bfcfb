-- ===== src/Discovery/Metadata.antt =====
-- database/poc/metadata_primitives.py: values without a field that names a secret, and the copy
-- through JSON, which leaves a `Value` as it is. Also the equality of decoded JSON that Python's `==`
-- is. A value here has a finite depth, and its floats are finite.
use pepeuchiacluster.Prelude.{
  ℕ, Bool, true, false, ◌&&◌, ◌||◌, not, String, same, List, [], ◌∷◌, Option, none, some, ◌==◌,
  length,
}
use pepeuchiacluster.Contracts.Values.{
  Value, null, bool, int, negative, real, text, array, object, Items, nil, cons, Members, none_left,
  member, contains, get, keys,
}
use pepeuchiacluster.Contracts.Texts.{is_blank}
use pepeuchiacluster.Discovery.Errors.{Outcome, threw, done, value_error, key_error, require, ◌>>◌}

-- What is taken from outside: a key's `casefold` with its `isalnum` characters kept, the canonical
-- text of `json.dumps`, `hashlib.sha256`, `datetime.fromisoformat` with the test of a time zone, and
-- the present time as a text.
pub record Library : Type 0 where
  pub folded : String → String
  pub canonical_json : Value → String
  pub sha256 : String → String
  pub is_timestamp : String → Bool
  pub now : String

-- `_SECRET_KEYS`
abbrev pub secret_keys : List String
secret_keys =
    "apikey" ∷ "xapikey" ∷ "apitoken" ∷ "accesstoken" ∷ "refreshtoken" ∷ "idtoken" ∷ "authorization"
    ∷ "proxyauthorization" ∷ "credentials" ∷ "password" ∷ "passwd" ∷ "secret" ∷ "clientsecret"
    ∷ "apisecret" ∷ "secretkey" ∷ "privatekey" ∷ "token" ∷ "sessiontoken" ∷ "bearertoken" ∷ "cookie"
    ∷ "setcookie" ∷ []

module _ (lib : Library) where
  -- `visit`: the children in order, and each key before its child
  unfoldable mutual
    pub visit : Value → Outcome (Unit {0})
    visit (array vs) = visit_items vs
    visit (object m) = visit_members m
    visit _ = done tt

    pub visit_items : Items → Outcome (Unit {0})
    visit_items nil = done tt
    visit_items (cons v vs) = visit v >> visit_items vs

    pub visit_members : Members → Outcome (Unit {0})
    visit_members none_left = done tt
    visit_members (member k v rest) =
        require (not (contains (lib.folded k) secret_keys)) >> visit v >> visit_members rest

  -- `assert_secret_free`
  unfoldable pub assert_secret_free : Value → Outcome (Unit {0})
  unfolding visit
  assert_secret_free v = visit v

  -- `copy_metadata` without a converter
  unfoldable pub copy_metadata : Value → Outcome Value
  unfolding assert_secret_free
  copy_metadata v = do assert_secret_free v; assert_secret_free v; done v

-- `==` on decoded JSON: a Boolean is a number, and the order of an object's
-- members does not count. A float is compared with floats only.
unfoldable mutual
  pub same_value : Value → Value → Bool
  same_value null null = true
  same_value (bool a) (bool b) = a && b || not a && not b
  same_value (bool a) (int n) = a && n == 1 || not a && n == 0
  same_value (int n) (bool a) = a && n == 1 || not a && n == 0
  same_value (int m) (int n) = m == n
  same_value (negative m) (negative n) = m == n
  same_value (real m) (real n) = m == n
  same_value (text a) (text b) = same a b
  same_value (array a) (array b) = same_items a b
  same_value (object a) (object b) = length (keys a) == length (keys b) && same_members a b
  same_value _ _ = false

  pub same_items : Items → Items → Bool
  same_items nil nil = true
  same_items (cons a as') (cons b bs) = same_value a b && same_items as' bs
  same_items _ _ = false

  -- every member of the first is one of the second
  pub same_members : Members → Members → Bool
  same_members none_left b = true
  same_members (member k v rest) b = elim (get k b) [
    | none ↦ false
    | some w ↦ same_value v w && same_members rest b
  ]

-- `isinstance(value, dict)`
unfoldable pub object_value : Value → Outcome Members
object_value (object m) = done m
object_value _ = threw value_error

-- `isinstance(value, list)`
unfoldable pub list_value : Value → Outcome Items
list_value (array vs) = done vs
list_value _ = threw value_error

unfoldable pub text_value : Value → Outcome String
text_value (text s) = done s
text_value _ = threw value_error

-- `nonempty_string`
unfoldable pub nonempty_string : Value → Outcome String
unfolding is_blank
nonempty_string (text s) = do require (not (is_blank s)); done s
nonempty_string _ = threw value_error

-- `optional_nonnegative_int`
unfoldable pub optional_nonnegative_int : Value → Outcome (Option ℕ)
optional_nonnegative_int null = done none
optional_nonnegative_int (int n) = done (some n)
optional_nonnegative_int _ = threw value_error

-- `data.get(key)`, where a missing key is `None`
abbrev pub get_value : String → Members → Value
get_value k m = elim (get k m) [ none ↦ null | some v ↦ v ]

-- `data[key]`
unfoldable pub item_value : String → Members → Outcome Value
item_value k m = elim (get k m) [ none ↦ threw key_error | some v ↦ done v ]
