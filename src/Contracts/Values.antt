-- ===== src/Contracts/Values.antt =====
-- Decoded JSON, as the handlers receive it: `json.loads` with the object hook of `decode_json`,
-- which refuses a repeated key, so that an object is a list of members with distinct keys.
use pepeuchiacluster.Prelude.{
  ℕ, Bool, ◌||◌, String, same, List, [], ◌∷◌, Option, none, some, any, all, if◌then◌else◌,
}
use pepeuchiacluster.Contracts.Problems.{Result, ok, err, problem, refuse, require, ◌>>◌}

-- `int n` is n and `negative n` is -(n + 1); `real r` is a float, of which only the type is read.
mutual
  pub data Value : Type 0 where
    null : Value
    bool : Bool → Value
    int : ℕ → Value
    negative : ℕ → Value
    real : ℕ → Value
    text : String → Value
    array : Items → Value
    object : Members → Value

  pub data Items : Type 0 where
    nil : Items
    cons : Value → Items → Items

  pub data Members : Type 0 where
    none_left : Members
    member : String → Value → Members → Members

abbrev pub keys : Members → List String
keys none_left = []
keys (member k v rest) = k ∷ keys rest

abbrev pub contains : String → List String → Bool
contains k = any (same k)

-- `data.get(key)`
abbrev pub get : String → Members → Option Value
get k none_left = none
get k (member j v rest) = if same k j then some v else get k rest

-- `data[key]`: a missing key is a `KeyError`, which the handler answers as `operation_failed`
unfoldable pub at : String → Members → Result Value
at k m = elim (get k m) [ none ↦ err (problem "operation_failed" 500) | some v ↦ ok v ]

-- `fields`: exactly the required keys, and some of the optional ones
unfoldable pub fields : Value → List String → List String → Result Members
fields (object m) required optional = do
  require (all (λ k. contains k (keys m)) required) "invalid_fields"
  require (all (λ k. contains k required || contains k optional) (keys m)) "invalid_fields"
  ok m
fields _ required optional = refuse "invalid_fields"

abbrev pub items : Items → List Value
items nil = []
items (cons v vs) = v ∷ items vs
